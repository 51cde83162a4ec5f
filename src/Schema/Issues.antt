-- ===== src/Schema/Issues.antt =====
-- errors/issue.ts of packages/schema. An issue's `expected`, `received`, `schemaId` and
-- `schemaVersion` fields are set by none of the code modelled here and are left out.
use neko_stack.Common.{ℕ, String, List, Option}

pub data IssueCode : Type 0 where
  invalid_type missing_required unknown_key too_small too_big : IssueCode
  invalid_enum invalid_literal invalid_union invalid_format : IssueCode
  custom_refinement_failed schema_version_unsupported recursive_reference_unresolved : IssueCode
  integrity_error duplicate_schema_id schema_not_found version_not_found : IssueCode
  duplicate_migration migration_missing_endpoint migration_not_found : IssueCode
  migration_chain_broken migration_ambiguous_chain migration_drift : IssueCode
  migration_cosmetic_drift : IssueCode

pub data PathSegment : Type 0 where
  key : String → PathSegment
  index : ℕ → PathSegment

abbrev pub IssuePath : Type 0
IssuePath = List PathSegment

pub data IssueSeverity : Type 0 where
  error warning : IssueSeverity

-- The values that stand in an issue's metadata.
pub data MetadataValue : Type 0 where
  null : MetadataValue
  text : String → MetadataValue
  texts : List String → MetadataValue
  count : ℕ → MetadataValue

pub record Issue : Type 0 where
  pub code : IssueCode
  pub path : IssuePath
  pub message : String
  pub severity : IssueSeverity
  pub metadata : Option (List (String × MetadataValue))

pub data Result {ℓ} (A : Type ℓ) : Type ℓ where
  success : A → Result A
  failure : List Issue → Result A
