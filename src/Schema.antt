-- ===== src/Schema.antt =====
-- packages/schema/src: the intermediate representation (ir/nodes.ts), issues (errors/issue.ts),
-- the builders (builders/), the registry, its diff classifier and its freshness check (registry/),
-- and parsing and validation (runtime/).
pub mod Issues
pub mod Ir
pub mod Registry
pub mod Diff
pub mod Builders
pub mod StripDefaults
pub mod Jsdoc
pub mod Provenance
pub mod Check
pub mod Runtime
