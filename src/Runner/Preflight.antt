-- ===== src/Runner/Preflight.antt =====
-- pre-flight.ts of packages/migrate-runner. The result is that of `diffNodes` where it throws.
pub mod Scoped
pub mod Safety
use neko_stack.Common.{
  String, Bool, true, false, not, ◌&&◌, Option, none, some, List, [], ◌∷◌, ltb, nat_eq, length,
  if◌then◌else◌,
}
use neko_stack.Js.Text.{template, nat_text}
use neko_stack.Js.JsMap.{map_or_new, JsMap, get, set}
use neko_stack.Js.Json.{JsNumber}
use neko_stack.Schema.Issues
use neko_stack.Schema.Issues.{
  Issue, IssueSeverity, PathSegment, MetadataValue, Result, success, failure,
}
use neko_stack.Schema.Diff.Walk.{Diffed, ok, ◌>>=◌}
use neko_stack.Migration.Types.{
  MigrationEntry, MigrationRegistry, VerdictStatus, MigrationVerdict, VerificationResult,
  MigrationPlan,
}
use neko_stack.Migration.Filing.{file_entry}
use neko_stack.Migration.Plan.{plan_migration}
use neko_stack.Migration.Verify.{verify_migration_provenance, verdict_metadata}
use neko_stack.Runner.Types.{PreFlightOpts, PreFlightResult, ready, refused}

abbrev pub first_message : List Issue → String
first_message [] = "no diagnostic message provided"
first_message (i ∷ is) = i.message

module _ {V : Type 0} where
  unfoldable pub file_entries : List (MigrationEntry V) → MigrationRegistry V → MigrationRegistry V
  unfolding file_entry
  file_entries [] out = out
  file_entries (entry ∷ chain) out = file_entries chain (file_entry entry out)

  unfoldable pub build_chain_scoped_registry : List (MigrationEntry V) → MigrationRegistry V
  unfolding file_entries
  build_chain_scoped_registry chain = file_entries chain []

abbrev pub is_cosmetic_drift : VerdictStatus → Bool
is_cosmetic_drift VerdictStatus.cosmetic_drift = true
is_cosmetic_drift _ = false

abbrev pub cosmetic_drift_issue : MigrationVerdict → Issue
unfolding template
cosmetic_drift_issue v = record {
  code = Issues.migration_cosmetic_drift;
  path = PathSegment.key v.source_path ∷ [];
  message = template (
      "Migration `" ∷ v.schema_id ∷ "` " ∷ v.from_version ∷ " → " ∷ v.to_version ∷ " "
      ∷ "has cosmetic source drift; pass `allowCosmeticDrift: true` to proceed." ∷ []);
  severity = IssueSeverity.warning;
  metadata = some (verdict_metadata v);
}

unfoldable pub synthesize_cosmetic_drift_issues : List MigrationVerdict → List Issue
unfolding template
synthesize_cosmetic_drift_issues [] = []
synthesize_cosmetic_drift_issues (v ∷ vs) =
    let rest = synthesize_cosmetic_drift_issues vs in
    if is_cosmetic_drift v.status then cosmetic_drift_issue v ∷ rest else rest

abbrev pub is_allowed : Option Bool → Bool
is_allowed none = false
is_allowed (some b) = b

module _ {N V : Type 0} where
  abbrev pub start_of_message : String → PreFlightOpts N V → String
  unfolding template
  start_of_message start opts = template (
      start ∷ " `" ∷ opts.schema_id ∷ "` " ∷ opts.from_version ∷ " → " ∷ opts.to_version ∷ ": "
      ∷ [])

  abbrev pub ready_with :
      PreFlightOpts N V → MigrationPlan V → MigrationRegistry V → PreFlightResult V
  ready_with opts plan scoped = ready (record {
    schema_id = opts.schema_id;
    from_version = opts.from_version;
    to_version = opts.to_version;
    chain = plan.chain;
    version_path = plan.version_path;
    worst_severity = plan.worst_severity;
    notes = plan.notes;
    chain_scoped_registry = scoped;
  })

  -- Steps 6 to 8, on the verifier's result.
  unfoldable pub judge_verification :
      PreFlightOpts N V
      → MigrationPlan V
      → MigrationRegistry V
      → Result VerificationResult
      → PreFlightResult V
  unfolding template synthesize_cosmetic_drift_issues nat_text
  judge_verification opts plan scoped (failure issues) =
      refused
        (template (
          start_of_message "Migration provenance verification failed for chain" opts
          ∷ first_message issues
          ∷ []))
        issues
  judge_verification opts plan scoped (success verified) =
      let issues = synthesize_cosmetic_drift_issues verified.verdicts in
      let n = length issues in
      if not (is_allowed opts.allow_cosmetic_drift) && ltb 0 verified.summary.cosmetic_drift
      then refused
          (template (
            "Chain has "
            ∷ nat_text n
            ∷ " cosmetic_drift entr"
            ∷ (if nat_eq n 1 then "y" else "ies")
            ∷ "; pass `allowCosmeticDrift: true` to proceed."
            ∷ []))
          issues
      else ready_with opts plan scoped

  -- Steps 3 to 5, on the plan's chain.
  unfoldable pub check_chain :
      PreFlightOpts N V → MigrationPlan V → List (MigrationEntry V) → PreFlightResult V
  unfolding judge_verification build_chain_scoped_registry verify_migration_provenance
  check_chain opts plan [] = ready_with opts plan []
  check_chain opts plan (entry ∷ chain) =
      let scoped = build_chain_scoped_registry (entry ∷ chain) in
      judge_verification opts plan scoped (
        verify_migration_provenance
          (record { schema_registry = opts.schema_registry; migration_registry = scoped }))

  unfoldable pub check_plan : PreFlightOpts N V → Result (MigrationPlan V) → PreFlightResult V
  unfolding check_chain template
  check_plan opts (failure issues) =
      refused
        (template (start_of_message "Migration plan refused for" opts ∷ first_message issues ∷ []))
        issues
  check_plan opts (success plan) = check_chain opts plan plan.chain

module _ {N V : Type 0} ⦃number : JsNumber N⦄ where
  unfoldable pub pre_flight : PreFlightOpts N V → Diffed (PreFlightResult V)
  unfolding check_plan plan_migration
  pre_flight opts = do
    plan ← plan_migration (record {
      schema_registry = opts.schema_registry;
      migration_registry = opts.migration_registry;
      schema_id = opts.schema_id;
      from_version = opts.from_version;
      to_version = opts.to_version;
    })
    ok (check_plan opts plan)
