-- ===== src/Schema/Diff.antt =====
-- registry/diff.ts of packages/schema.
pub mod Changes
pub mod Absence
pub mod Compare
pub mod Axes
pub mod Refinements
pub mod Walk
mod Identity
pub mod Self
pub mod Severity
pub mod Acceptance
pub mod Hidden
pub mod Added
mod Tests
