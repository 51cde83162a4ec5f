-- ===== src/Migration/Verify.antt =====
-- migrations/verify-provenance.ts of packages/schema.
pub mod Matrix
pub mod Verdicts
pub mod Iteration
use neko_stack.Common.{
  ◌+◌, String, Bool, true, false, not, ◌||◌, Option, none, some, List, [], ◌∷◌, ◌++◌, ◌==◌,
  if◌then◌else◌,
}
use neko_stack.Js.Text.{template, sort}
use neko_stack.Js.JsMap.{JsMap, get, keys}
use neko_stack.Schema.Issues.{
  Issue, IssueSeverity, MetadataValue, Result, success, failure, PathSegment,
}
use neko_stack.Schema.Issues
use neko_stack.Schema.Registry.{Registry, RegistryEntry, find_schema}
use neko_stack.Migration.Types.{
  MigrationEntry, Adjacency, MigrationRegistry, VerdictStatus, MigrationVerdict,
  VerificationSummary, VerificationResult, MigrationVerifyOpts,
}
use neko_stack.Migration.Plan.{transition}

module _ {V : Type 0} where
  -- The innermost loop: `yield byTo.get(toVersion)!` for each sorted key.
  unfoldable pub entries_at : JsMap (MigrationEntry V) → List String → List (MigrationEntry V)
  unfolding get
  entries_at by_to [] = []
  entries_at by_to (to_version ∷ rest) = elim (get to_version by_to) [
    | none ↦ entries_at by_to rest
    | some entry ↦ entry ∷ entries_at by_to rest
  ]

  unfoldable pub entries_from : Adjacency V → List String → List (MigrationEntry V)
  unfolding get entries_at sort keys
  entries_from by_from [] = []
  entries_from by_from (from_version ∷ rest) = elim (get from_version by_from) [
    | none ↦ entries_from by_from rest
    | some by_to ↦ entries_at by_to (sort (keys by_to)) ++ entries_from by_from rest
  ]

  unfoldable pub entries_of : MigrationRegistry V → List String → List (MigrationEntry V)
  unfolding get entries_from sort keys
  entries_of registry [] = []
  entries_of registry (schema_id ∷ rest) = elim (get schema_id registry) [
    | none ↦ entries_of registry rest
    | some by_from ↦ entries_from by_from (sort (keys by_from)) ++ entries_of registry rest
  ]

  unfoldable pub iterate_registry : MigrationRegistry V → List (MigrationEntry V)
  unfolding entries_of sort keys
  iterate_registry registry = entries_of registry (sort (keys registry))

  abbrev pub verdict : VerdictStatus → MigrationEntry V → MigrationVerdict
  verdict status entry = record {
    status = status;
    source_path = entry.source_path;
    schema_id = entry.schema_id;
    from_version = entry.from_version;
    to_version = entry.to_version;
  }

  unfoldable pub classify_endpoints :
      {N : Type 0}
      → MigrationEntry V
      → Option (RegistryEntry N)
      → Option (RegistryEntry N)
      → MigrationVerdict
  classify_endpoints entry (some from) (some to) =
      if not (entry.from_ir_hash == from.ir_hash) || not (entry.to_ir_hash == to.ir_hash)
      then verdict VerdictStatus.drift entry
      else if not (entry.from_source_hash == from.source_hash)
          || not (entry.to_source_hash == to.source_hash)
      then verdict VerdictStatus.cosmetic_drift entry
      else verdict VerdictStatus.bound entry
  classify_endpoints entry from to = verdict VerdictStatus.missing_endpoint entry

  unfoldable pub classify_migration :
      {N : Type 0} → MigrationEntry V → Registry N → MigrationVerdict
  unfolding classify_endpoints find_schema
  classify_migration entry registry =
      classify_endpoints entry (find_schema registry entry.schema_id entry.from_version)
        (find_schema registry entry.schema_id entry.to_version)

abbrev pub verdict_metadata : MigrationVerdict → List (String × MetadataValue)
verdict_metadata v =
    transition v.schema_id v.from_version v.to_version
    ++ ("sourcePath", MetadataValue.text v.source_path) ∷ []

abbrev pub missing_endpoint_verdict_issue : MigrationVerdict → Issue
unfolding template
missing_endpoint_verdict_issue v = record {
  code = Issues.migration_missing_endpoint;
  path = PathSegment.key v.source_path ∷ [];
  message = template (
      "Migration `" ∷ v.schema_id ∷ "` " ∷ v.from_version ∷ " → " ∷ v.to_version
      ∷ " references a schema " ∷ "version that is not in the registry." ∷ []);
  severity = IssueSeverity.error;
  metadata = some (verdict_metadata v);
}

abbrev pub drift_issue : MigrationVerdict → Issue
unfolding template
drift_issue v = record {
  code = Issues.migration_drift;
  path = PathSegment.key v.source_path ∷ [];
  message = template (
      "Migration `" ∷ v.schema_id ∷ "` " ∷ v.from_version ∷ " → " ∷ v.to_version
      ∷ " was authored against a " ∷ "schema state that has since changed (irHash mismatch)." ∷ []);
  severity = IssueSeverity.error;
  metadata = some (verdict_metadata v);
}

unfoldable pub verdict_issue : MigrationVerdict → Issue
unfolding template
verdict_issue v = elim v.status [
  | VerdictStatus.missing_endpoint ↦ missing_endpoint_verdict_issue v
  | _ ↦ drift_issue v
]

abbrev pub count_status : VerdictStatus → VerificationSummary → VerificationSummary
count_status VerdictStatus.bound s = record s { bound = s.bound + 1 }
count_status VerdictStatus.cosmetic_drift s = record s { cosmetic_drift = s.cosmetic_drift + 1 }
count_status VerdictStatus.drift s = record s { drift = s.drift + 1 }
count_status VerdictStatus.missing_endpoint s = record s {
  missing_endpoint = s.missing_endpoint + 1;
}

abbrev pub is_refused : VerdictStatus → Bool
is_refused VerdictStatus.drift = true
is_refused VerdictStatus.missing_endpoint = true
is_refused _ = false

-- The variables of the loop.
pub record Tally : Type 0 where
  pub verdicts : List MigrationVerdict
  pub issues : List Issue
  pub summary : VerificationSummary

abbrev pub no_tally : Tally
no_tally = record {
  verdicts = [];
  issues = [];
  summary = record { bound = 0; cosmetic_drift = 0; drift = 0; missing_endpoint = 0 };
}

unfoldable pub tally_verdict : MigrationVerdict → Tally → Tally
unfolding verdict_issue
tally_verdict v t = record {
  verdicts = t.verdicts ++ v ∷ [];
  issues = if is_refused v.status then t.issues ++ verdict_issue v ∷ [] else t.issues;
  summary = count_status v.status t.summary;
}

abbrev pub tally_result : Tally → Result VerificationResult
tally_result t = elim t.issues [
  | [] ↦ success (record { verdicts = t.verdicts; summary = t.summary })
  | i ∷ is ↦ failure (i ∷ is)
]

module _ {N V : Type 0} where
  unfoldable pub tally_entries : Registry N → List (MigrationEntry V) → Tally → Tally
  unfolding tally_verdict classify_migration
  tally_entries registry [] t = t
  tally_entries registry (entry ∷ entries) t =
      tally_entries registry entries (tally_verdict (classify_migration entry registry) t)

  unfoldable pub verify_migration_provenance : MigrationVerifyOpts N V → Result VerificationResult
  unfolding tally_entries iterate_registry
  verify_migration_provenance opts =
      tally_result
        (tally_entries opts.schema_registry (iterate_registry opts.migration_registry) no_tally)
