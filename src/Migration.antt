-- ===== src/Migration.antt =====
-- packages/schema/src/migrations: the types (types.ts), the planner (plan-migration.ts), the
-- verifier (verify-provenance.ts), the registry (build-migration-registry.ts), the provenance of a
-- migration file (parse-provenance.ts) and the stub of a new one (stub.ts).
pub mod Types
pub mod Chains
pub mod Plan
pub mod Verify
pub mod Filing
pub mod Provenance
pub mod Registry
pub mod Stub
mod Tests
