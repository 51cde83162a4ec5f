-- ===== src/Runner.antt =====
-- packages/migrate-runner/src: the pre-flight (pre-flight.ts), the pipeline of a record
-- (per-record-pipeline.ts), the audit entries (audit.ts) and the run itself (runner.ts).
pub mod Types
pub mod Audit
pub mod Preflight
pub mod Pipeline
pub mod Results
pub mod Loop
pub mod Run
mod Tests
