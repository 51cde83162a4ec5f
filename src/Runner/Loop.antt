-- ===== src/Runner/Loop.antt =====
-- runner.ts of packages/migrate-runner: the loop over the stream. Each `await` is a step on the
-- world; the loop is a recursion on the records that the stream yields.
pub mod Steps
pub mod Counts
use neko_stack.Common.{
  ℕ, ◌+◌, String, Bool, true, false, Option, none, some, List, [], ◌∷◌, map, nat_eq, if◌then◌else◌,
}
use neko_stack.Js.Throws.{Cause, Outcome, returned}
use neko_stack.Js.Throws
use neko_stack.Schema.Runtime.{Validator}
use neko_stack.Migration.Types.{MigrationEntry}
use neko_stack.Runner.Types.{
  validate_only, dry_run, execute, persist_failed, error_message_of, AuditStatus, AuditedHop,
  Attempt, fulfilled, RunnerOptions, OnError, continue, stop, RunOpts, PipelineResult, migrated,
  failed,
}
use neko_stack.Runner.Audit.{make_audit_entry}
use neko_stack.Runner.Pipeline.{run_record_pipeline}
use neko_stack.Runner.Results.{
  FirstFailure, Progress, Step, going, ended, thrown, aggregate_failure_result, cancelled_result,
  note_failure,
}

-- skipSet.has(index)
unfoldable pub skips : ℕ → List ℕ → Bool
skips i [] = false
skips i (j ∷ js) = if nat_eq j i then true else skips i js

abbrev pub when {ℓ} : {A : Type ℓ} → Bool → A → Option A
when true a = some a
when false a = none

-- What is fixed while the stream is walked.
pub record Walk (N V W E : Type 0) : Type 0 where
  pub options : RunnerOptions N V W
  pub validator : Validator N V E
  pub opts : RunOpts
  pub run_id : String
  pub first_hop : MigrationEntry V
  pub later_hops : List (MigrationEntry V)
  pub skip_set : List ℕ

abbrev pub audited_hop : {V : Type 0} → MigrationEntry V → AuditedHop
audited_hop entry = record {
  from_version = entry.from_version;
  to_version = entry.to_version;
  source_path = entry.source_path;
}

abbrev pub on_error_of : Option OnError → OnError
on_error_of none = continue
on_error_of (some e) = e

abbrev pub settle : {W : Type 0} → Attempt W (Unit {0}) → Progress → Step → Step × W
settle (Attempt.threw cause w) p next = (thrown cause p, w)
settle (fulfilled _ w) p next = (next, w)

abbrev pub end_of_stream : Option Cause → Progress → Step
end_of_stream none p = going p
end_of_stream (some cause) p = thrown cause p

module _ {N V W E : Type 0} where
  unfoldable pub append_audit :
      Walk N V W E → ℕ → AuditStatus → Option FirstFailure → V → Option V → W → Attempt W (Unit {0})
  unfolding make_audit_entry
  append_audit walk i status failure input output w =
      let opts = walk.opts in
      let host = walk.options.host in
      let (entry, w') =
        make_audit_entry host.iso_timestamp
          (record {
            run_id = walk.run_id;
            schema_id = opts.schema_id;
            from_version = opts.from_version;
            to_version = opts.to_version;
            chain_entries = map audited_hop (walk.first_hop ∷ walk.later_hops);
            record_index = i;
            record_key = none;
            status = status;
            classification = elim failure [ none ↦ none | some f ↦ some f.classification ];
            error_message = elim failure [ none ↦ none | some f ↦ some f.message ];
            before = when opts.audit_before input;
            after = elim output [ none ↦ none | some value ↦ when opts.audit_after value ];
            timestamp = none;
          })
          w in
      host.append entry w'

  -- After the audit of a failure: count it, and stop or go on.
  unfoldable pub after_failure : Walk N V W E → FirstFailure → Progress → Step
  unfolding note_failure aggregate_failure_result
  after_failure walk failure p = elim (on_error_of walk.opts.on_error) [
    | continue ↦ going (note_failure failure p)
    | stop ↦ ended (aggregate_failure_result walk.run_id walk.opts.mode (note_failure failure p))
  ]

  unfoldable pub record_failure :
      Walk N V W E → ℕ → FirstFailure → V → Option V → Progress → W → Step × W
  unfolding append_audit after_failure
  record_failure walk i failure input output p w =
      settle (append_audit walk i AuditStatus.failure (some failure) input output w) p
        (after_failure walk failure p)

  unfoldable pub record_success : Walk N V W E → ℕ → V → V → Progress → W → Step × W
  unfolding append_audit
  record_success walk i input output p w =
      settle (append_audit walk i AuditStatus.success none input (some output) w) p
        (going (record p { success_count = p.success_count + 1 }))

  -- `persist` in execute mode, and what follows it.
  unfoldable pub after_persist :
      Walk N V W E → ℕ → V → V → Progress → Attempt W (Unit {0}) → Step × W
  unfolding record_failure record_success error_message_of
  after_persist walk i input output p (Attempt.threw cause w) =
      record_failure walk i
        (record { classification = persist_failed; message = error_message_of cause }) input
        (some output) p w
  after_persist walk i input output p (fulfilled _ w) = record_success walk i input output p w

  unfoldable pub deliver : Walk N V W E → ℕ → V → V → Progress → W → Step × W
  unfolding after_persist record_success
  deliver walk i input output p w = elim walk.opts.mode [
    | execute ↦ after_persist walk i input output p (walk.options.host.persist output w)
    | dry_run ↦ record_success walk i input output p w
    | validate_only ↦ record_success walk i input output p w
  ]

  unfoldable pub after_pipeline :
      Walk N V W E → ℕ → V → Progress → Outcome (PipelineResult V) → W → Step × W
  unfolding deliver record_failure
  after_pipeline walk i input p (Throws.threw cause) w = (thrown cause p, w)
  after_pipeline walk i input p (returned (migrated output)) w = deliver walk i input output p w
  after_pipeline walk i input p (returned (failed classification chain_index message issues)) w =
      record_failure walk i (record { classification = classification; message = message }) input
        none p w

  -- The body of the loop, for a record that the stream has yielded.
  unfoldable pub process_record : Walk N V W E → V → Progress → W → Step × W
  unfolding skips after_pipeline run_record_pipeline cancelled_result
  process_record walk input p w =
      let i = p.record_count in
      let p' = record p { record_count = p.record_count + 1 } in
      let (outcome, w') =
        run_record_pipeline walk.options.host walk.validator walk.options.schema_registry
          walk.opts.transform_timeout_ms walk.first_hop walk.later_hops input w in
      if walk.options.host.is_aborted w
      then (ended (cancelled_result walk.run_id walk.opts.mode p), w)
      else if skips i walk.skip_set
      then (going p', w)
      else after_pipeline walk i input p' outcome w'

  unfoldable pub walk_stream : Walk N V W E → List V → Progress → W → Step × W
  unfolding process_record
  walk_stream walk [] p w =
      (end_of_stream walk.options.stream_throws p, walk.options.host.awaited w)
  walk_stream walk (input ∷ records) p w =
      let (step, w') = process_record walk input p (walk.options.host.awaited w) in
      elim step [
        | going p' ↦ walk_stream walk records p' w'
        | ended result ↦ (ended result, w')
        | thrown cause p' ↦ (thrown cause p', w')
      ]
