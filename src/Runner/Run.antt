-- ===== src/Runner/Run.antt =====
-- `run` of runner.ts of packages/migrate-runner, round the loop of `Loop`.
pub mod Outcomes
pub mod Adapters
pub mod Modes
use neko_stack.Common.{ℕ, String, Option, none, some, List, [], ◌∷◌, ltb, if◌then◌else◌}
use neko_stack.Js.Text.{template}
use neko_stack.Js.Json.{JsNumber}
use neko_stack.Js.Throws.{Cause}
use neko_stack.Schema.Diff.Walk.{Diffed, ok, ◌>>=◌}
use neko_stack.Schema.Runtime.{Validator}
use neko_stack.Migration.Types.{MigrationEntry}
use neko_stack.Runner.Types.{
  validate_only, dry_run, execute, persist_failed, pre_flight_failed, adapter_init_failed,
  error_message_of, Attempt, fulfilled, Host, RunnerOptions, RunOpts, RunResult, run_success,
  run_failure, PreFlightOpts, PreFlightResult, ready, refused,
}
use neko_stack.Runner.Preflight.{pre_flight}
use neko_stack.Runner.Results.{
  Progress, no_progress, counts_of, Step, going, ended, thrown, aggregate_failure_result,
  cancelled_result,
}
use neko_stack.Runner.Loop.{Walk, walk_stream}

abbrev pub cursor_failure : RunOpts → String → Cause → RunResult
unfolding template error_message_of
cursor_failure opts run_id cause =
    run_failure run_id opts.mode adapter_init_failed
      (template ("Audit adapter cursor() failed during resume: " ∷ error_message_of cause ∷ []))
      none

abbrev pub run_id_of : {V W : Type 0} → Host V W → Option String → W → String × W
run_id_of host none w = host.random_uuid w
run_id_of host (some prior) w = (prior, w)

abbrev pub pre_flight_opts : {N V W : Type 0} → RunnerOptions N V W → RunOpts → PreFlightOpts N V
pre_flight_opts options opts = record {
  schema_registry = options.schema_registry;
  migration_registry = options.migration_registry;
  schema_id = opts.schema_id;
  from_version = opts.from_version;
  to_version = opts.to_version;
  allow_cosmetic_drift = opts.allow_cosmetic_drift;
}

module _ {N V W E : Type 0} where
  unfoldable pub final_result : Walk N V W E → Progress → RunResult
  unfolding aggregate_failure_result
  final_result walk p =
      if ltb 0 p.failure_count
      then aggregate_failure_result walk.run_id walk.opts.mode p
      else run_success walk.run_id walk.opts.mode (counts_of p)

  abbrev pub after_flush : Walk N V W E → Progress → Attempt W (Unit {0}) → RunResult × W
  unfolding template error_message_of final_result
  after_flush walk p (fulfilled _ w) = (final_result walk p, w)
  after_flush walk p (Attempt.threw cause w) = (
    run_failure walk.run_id walk.opts.mode persist_failed
        (template ("Output adapter flush failed: " ∷ error_message_of cause ∷ []))
        (some (counts_of p)),
    w,
  )

  abbrev pub flush_if_given :
      Walk N V W E → Progress → Option (W → Attempt W (Unit {0})) → W → RunResult × W
  unfolding after_flush
  flush_if_given walk p none w = (final_result walk p, w)
  flush_if_given walk p (some flush) w = after_flush walk p (flush w)

  -- Steps 7 and 8, after the loop.
  unfoldable pub after_stream : Walk N V W E → Step → W → RunResult × W
  unfolding flush_if_given final_result template error_message_of
  after_stream walk (ended result) w = (result, w)
  after_stream walk (thrown cause p) w = (
    run_failure walk.run_id walk.opts.mode adapter_init_failed
        (template ("Input adapter threw during stream consumption: " ∷ error_message_of cause ∷ []))
        (some (counts_of p)),
    w,
  )
  after_stream walk (going p) w = elim walk.opts.mode [
    | execute ↦ flush_if_given walk p walk.options.host.flush w
    | dry_run ↦ (final_result walk p, w)
    | validate_only ↦ (final_result walk p, w)
  ]

  -- Steps 5 to 8: the signal is read once before the stream.
  unfoldable pub walk_records : Walk N V W E → W → RunResult × W
  unfolding walk_stream after_stream cancelled_result
  walk_records walk w =
      let (step, w') = walk_stream walk walk.options.records no_progress w in
      if walk.options.host.is_aborted w
      then (cancelled_result walk.run_id walk.opts.mode no_progress, w)
      else after_stream walk step w'

  abbrev pub after_cursor :
      RunnerOptions N V W
      → Validator N V E
      → RunOpts
      → String
      → MigrationEntry V
      → List (MigrationEntry V)
      → Attempt W (List ℕ)
      → RunResult × W
  unfolding cursor_failure walk_records
  after_cursor options validator opts run_id first later (Attempt.threw cause w) =
      (cursor_failure opts run_id cause, w)
  after_cursor options validator opts run_id first later (fulfilled indexes w) =
      walk_records
        (record {
          options = options;
          validator = validator;
          opts = opts;
          run_id = run_id;
          first_hop = first;
          later_hops = later;
          skip_set = indexes;
        })
        w

  -- Steps 2 to 4, on the chain of the pre-flight.
  unfoldable pub run_resolved :
      RunnerOptions N V W
      → Validator N V E
      → RunOpts
      → String
      → List (MigrationEntry V)
      → W
      → RunResult × W
  unfolding after_cursor
  run_resolved options validator opts run_id [] w =
      (run_success run_id opts.mode (counts_of no_progress), w)
  run_resolved options validator opts run_id (first ∷ later) w = elim opts.mode [
    | validate_only ↦ (run_success run_id opts.mode (counts_of no_progress), w)
    | _ ↦
        after_cursor options validator opts run_id first later (elim opts.resume_from [
          | none ↦ fulfilled [] w
          | some prior ↦ options.host.cursor prior w
        ])
  ]

  abbrev pub after_pre_flight :
      RunnerOptions N V W
      → Validator N V E
      → RunOpts
      → String
      → W
      → PreFlightResult V
      → RunResult × W
  unfolding run_resolved
  after_pre_flight options validator opts run_id w (refused message issues) =
      (run_failure run_id opts.mode pre_flight_failed message none, w)
  after_pre_flight options validator opts run_id w (ready checked) =
      run_resolved options validator opts run_id checked.chain w

module _ {N V W E : Type 0} ⦃number : JsNumber N⦄ where
  -- An error of `diffNodes` leaves `run` by a rejected promise.
  unfoldable pub run : RunnerOptions N V W → Validator N V E → RunOpts → W → Diffed (RunResult × W)
  unfolding pre_flight after_pre_flight
  run options validator opts w =
      let (run_id, w') = run_id_of options.host opts.resume_from w in
      do
        checked ← pre_flight (pre_flight_opts options opts)
        ok (after_pre_flight options validator opts run_id w' checked)
