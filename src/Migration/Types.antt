-- ===== src/Migration/Types.antt =====
-- migrations/types.ts of packages/schema. `V` is the type of the records that a migration transforms
-- (`unknown` in the source), `N` that of the engine's numbers.
use neko_stack.Common.{ℕ, String, Option, List}
use neko_stack.Js.JsMap.{JsMap}
use neko_stack.Js.Throws.{Outcome}
use neko_stack.Schema.Registry.{Registry}
use neko_stack.Schema.Diff.Changes.{DiffSeverity}

pub record AnyMigration (V : Type 0) : Type 0 where
  pub schema_id : String
  pub from_version : String
  pub to_version : String
  pub transform : V → Outcome V

pub record MigrationEntry (V : Type 0) : Type 0 where
  pub schema_id : String
  pub from_version : String
  pub to_version : String
  pub from_ir_hash : String
  pub to_ir_hash : String
  pub from_source_hash : String
  pub to_source_hash : String
  pub source_path : String
  pub migration : AnyMigration V

-- The migrations of one schema: by from-version, then by to-version.
abbrev pub Adjacency : Type 0 → Type 0
Adjacency V = JsMap (JsMap (MigrationEntry V))

abbrev pub MigrationRegistry : Type 0 → Type 0
MigrationRegistry V = JsMap (Adjacency V)

pub data PlanNote (V : Type 0) : Type 0 where
  over_specified : MigrationEntry V → PlanNote V
  additive_no_migration : DiffSeverity → PlanNote V

pub record MigrationPlan (V : Type 0) : Type 0 where
  pub schema_id : String
  pub chain : List (MigrationEntry V)
  pub version_path : List String
  pub worst_severity : Option DiffSeverity
  pub notes : List (PlanNote V)

pub data VerdictStatus : Type 0 where
  bound cosmetic_drift drift missing_endpoint : VerdictStatus

pub record MigrationVerdict : Type 0 where
  pub status : VerdictStatus
  pub source_path : String
  pub schema_id : String
  pub from_version : String
  pub to_version : String

pub record VerificationSummary : Type 0 where
  pub bound : ℕ
  pub cosmetic_drift : ℕ
  pub drift : ℕ
  pub missing_endpoint : ℕ

pub record VerificationResult : Type 0 where
  pub verdicts : List MigrationVerdict
  pub summary : VerificationSummary

pub record MigrationPlanOpts (N V : Type 0) : Type 0 where
  pub schema_registry : Registry N
  pub migration_registry : MigrationRegistry V
  pub schema_id : String
  pub from_version : String
  pub to_version : String

pub record MigrationVerifyOpts (N V : Type 0) : Type 0 where
  pub schema_registry : Registry N
  pub migration_registry : MigrationRegistry V
