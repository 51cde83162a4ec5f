-- ===== src/Runner/Pipeline.antt =====
-- per-record-pipeline.ts of packages/migrate-runner. The world is passed along, since the clock is
-- read round each transform. An error that `compile` throws leaves the pipeline.
-- A clock that runs backwards gives an elapsed time of 0, which is over no budget either.
pub mod Migrated
use neko_stack.Common.{
  ℕ, ◌+◌, ◌-◌, String, Bool, true, false, Option, none, some, List, [], ◌∷◌, ltb, length,
  if◌then◌else◌,
}
use neko_stack.Js.Text.{template, nat_text}
use neko_stack.Schema.Issues.{Issue, IssueSeverity, MetadataValue, Result, schema_not_found}
use neko_stack.Schema.Registry.{Registry, RegistryEntry, find_schema}
use neko_stack.Schema.Runtime.{Validator, safe_parse}
use neko_stack.Js.Throws.{Outcome, returned, threw, ◌>>=◌}
use neko_stack.Migration.Types.{MigrationEntry}
use neko_stack.Runner.Types.{
  input_validation_failed, transform_threw, transform_timeout, output_validation_failed, Host,
  PipelineResult, migrated, failed, error_message_of,
}
use neko_stack.Runner.Preflight.{first_message}

unfoldable pub schema_not_found_issue : String → String → Bool → Issue
unfolding template
schema_not_found_issue schema_id schema_version is_source = record {
  code = schema_not_found;
  path = [];
  message = template (
      (if is_source then "Source" else "Destination")
      ∷ " schema `"
      ∷ schema_id
      ∷ "` @ "
      ∷ schema_version
      ∷ " is not in the schema registry."
      ∷ []);
  severity = IssueSeverity.error;
  metadata = some (
      ("schemaId", MetadataValue.text schema_id)
      ∷ ("schemaVersion", MetadataValue.text schema_version)
      ∷ ("role", MetadataValue.text (if is_source then "source" else "destination"))
      ∷ []);
}

abbrev pub timeout_message : ℕ → ℕ → ℕ → String
unfolding template nat_text
timeout_message chain_index elapsed budget = template (
    "Transform at chain index "
    ∷ nat_text chain_index
    ∷ " exceeded "
    ∷ nat_text budget
    ∷ "ms wall-clock budget (elapsed "
    ∷ nat_text elapsed
    ∷ "ms — measured post-hoc; v0.9 does not preempt synchronous transforms)."
    ∷ [])

abbrev pub is_over : Option ℕ → ℕ → Bool
is_over none elapsed = false
is_over (some budget) elapsed = ltb budget elapsed

abbrev pub budget_of : Option ℕ → ℕ
budget_of none = 0
budget_of (some budget) = budget

-- What the walk over the chain ends with: the last value, or a failure.
pub data Walked (V : Type 0) : Type 0 where
  reached : V → Walked V
  broke : PipelineResult V → Walked V

module _ {V : Type 0} where
  -- A round of the loop, after the transform and the second reading of the clock.
  unfoldable pub settle_transform : Option ℕ → ℕ → ℕ → Outcome V → Walked V
  unfolding error_message_of template nat_text
  settle_transform timeout i elapsed (threw cause) =
      broke (failed transform_threw (some i) (error_message_of cause) [])
  settle_transform timeout i elapsed (returned next) =
      if is_over timeout elapsed
      then broke
          (failed transform_timeout (some i) (timeout_message i elapsed (budget_of timeout)) [])
      else reached next

module _ {V W : Type 0} where
  -- A round: the clock, the transform, and the clock again unless the transform threw.
  unfoldable pub run_transform : Host V W → Option ℕ → ℕ → MigrationEntry V → V → W → Walked V × W
  unfolding settle_transform
  run_transform host timeout i entry current w =
      let (start, w1) = host.now w in
      let w2 = host.transforming entry current w1 in
      elim (entry.migration.transform current) [
        | threw cause ↦ (settle_transform timeout i 0 (threw cause), w2)
        | returned next ↦
            let (stop, w3) = host.now w2 in
            (settle_transform timeout i (stop - start) (returned next), w3)
      ]

  unfoldable pub run_chain :
      Host V W → Option ℕ → ℕ → List (MigrationEntry V) → V → W → Walked V × W
  unfolding run_transform
  run_chain host timeout i [] current w = (reached current, w)
  run_chain host timeout i (entry ∷ chain) current w =
      let (walked, w') = run_transform host timeout i entry current w in
      elim walked [
        | reached next ↦ run_chain host timeout (i + 1) chain next w'
        | broke failure ↦ (broke failure, w')
      ]

abbrev pub last_hop {ℓ} : {A : Type ℓ} → A → List A → A
last_hop entry [] = entry
last_hop entry (next ∷ chain) = last_hop next chain

abbrev pub refused_message : String → String → String → List Issue → String
unfolding template
refused_message start schema_id version issues = template (
    start
    ∷ " failed validation against `"
    ∷ schema_id
    ∷ "` @ "
    ∷ version
    ∷ ": "
    ∷ first_message issues
    ∷ [])

abbrev pub missing_message : String → String → String → String
unfolding template
missing_message start schema_id version =
    template (start ∷ " schema not found in registry: `" ∷ schema_id ∷ "` @ " ∷ version ∷ [])

abbrev pub output_result : {V : Type 0} → String → String → ℕ → Result V → PipelineResult V
unfolding template
output_result schema_id version n (Result.success output) = migrated output
output_result schema_id version n (Result.failure issues) =
    failed output_validation_failed (some n) (refused_message "Output" schema_id version issues)
      issues

module _ {N V E : Type 0} where
  -- Steps 4 to 6, on the value that the chain gave.
  unfoldable pub check_output :
      Validator N V E
      → Option (RegistryEntry N)
      → String
      → String
      → ℕ
      → V
      → Outcome (PipelineResult V)
  unfolding safe_parse template schema_not_found_issue
  check_output validator none schema_id version n current = returned (
      failed output_validation_failed (some n) (missing_message "Destination" schema_id version)
        (schema_not_found_issue schema_id version false ∷ []))
  check_output validator (some dest) schema_id version n current = do
    checked ← safe_parse validator dest.schema current
    returned (output_result schema_id version n checked)

  -- Steps 3 to 6, on the validated input.
  unfoldable pub run_validated :
      {W : Type 0}
      → Host V W
      → Validator N V E
      → Registry N
      → Option ℕ
      → MigrationEntry V
      → List (MigrationEntry V)
      → V
      → W
      → Outcome (PipelineResult V) × W
  unfolding run_chain check_output find_schema
  run_validated host validator registry timeout first chain input w =
      let (walked, w') = run_chain host timeout 0 (first ∷ chain) input w in
      let last = last_hop first chain in
      elim walked [
        | broke failure ↦ (returned failure, w')
        | reached current ↦ (
          check_output validator (find_schema registry last.schema_id last.to_version)
              last.schema_id last.to_version (length (first ∷ chain)) current,
          w',
        )
      ]

  unfoldable pub after_input_check :
      {W : Type 0}
      → Host V W
      → Validator N V E
      → Registry N
      → Option ℕ
      → MigrationEntry V
      → List (MigrationEntry V)
      → Outcome (Result V)
      → W
      → Outcome (PipelineResult V) × W
  unfolding run_validated template
  after_input_check host validator registry timeout first chain (threw cause) w = (threw cause, w)
  after_input_check host validator registry timeout first chain (returned (Result.failure issues))
        w =
      (
        returned (
            failed input_validation_failed none
              (refused_message "Input" first.schema_id first.from_version issues) issues),
        w,
      )
  after_input_check host validator registry timeout first chain (returned (Result.success input))
        w =
      run_validated host validator registry timeout first chain input w

  unfoldable pub after_source_lookup :
      {W : Type 0}
      → Host V W
      → Validator N V E
      → Registry N
      → Option ℕ
      → MigrationEntry V
      → List (MigrationEntry V)
      → V
      → Option (RegistryEntry N)
      → W
      → Outcome (PipelineResult V) × W
  unfolding safe_parse after_input_check template schema_not_found_issue
  after_source_lookup host validator registry timeout first chain input none w = (
    returned (
        failed input_validation_failed none
          (missing_message "Source" first.schema_id first.from_version)
          (schema_not_found_issue first.schema_id first.from_version true ∷ [])),
    w,
  )
  after_source_lookup host validator registry timeout first chain input (some source) w =
      after_input_check host validator registry timeout first chain
        (safe_parse validator source.schema input) w

  unfoldable pub run_record_pipeline :
      {W : Type 0}
      → Host V W
      → Validator N V E
      → Registry N
      → Option ℕ
      → MigrationEntry V
      → List (MigrationEntry V)
      → V
      → W
      → Outcome (PipelineResult V) × W
  unfolding after_source_lookup find_schema
  run_record_pipeline host validator registry timeout first chain input w =
      after_source_lookup host validator registry timeout first chain input
        (find_schema registry first.schema_id first.from_version) w
