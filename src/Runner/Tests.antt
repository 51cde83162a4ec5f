-- ===== src/Runner/Tests.antt =====
-- Tests of the runner: a world that holds a clock, the audit log and what was persisted.
use neko_stack.Common.{ℕ, ◌+◌, String, ◌≡◌, refl, true, false, none, some, List, [], ◌∷◌, ◌++◌}
use neko_stack.Js.Throws.{Cause, returned}
use neko_stack.Schema.Registry.{find_schema}
use neko_stack.Runner.Pipeline.{run_record_pipeline}
use neko_stack.Runner.Pipeline.Migrated.{
  IsMigrated, run_record_pipeline-IsMigrated, IsMigrated-run_record_pipeline,
}
use neko_stack.Samples.{
  registered, user1, user3, nat_number, schemas, migrations, first_migration, second_migration,
  request,
}
use neko_stack.Schema.Runtime.{parsed, Validator, safe_parse}
use neko_stack.Schema.Diff.Changes.{breaking}
use neko_stack.Schema.Issues.{success}
use neko_stack.Schema.Diff.Walk.{ok, ◌>>=◌}
use neko_stack.Migration.Types.{MigrationEntry, MigrationPlan}
use neko_stack.Migration.Plan.{plan_migration, find_exact_migration}
use neko_stack.Migration.Verify.{classify_migration}
use neko_stack.Runner.Types.{
  RunMode, validate_only, dry_run, execute, stop, migrated, AuditEntry, Attempt, fulfilled, Host,
  RunnerOptions, RunOpts, RunCounts, run_success, PreFlightOpts, PreFlightSuccess, ready,
}
use neko_stack.Common.{In, ◌↔◌}
use neko_stack.Runner.Loop.{skips}
use neko_stack.Runner.Types.{AuditStatus}
use neko_stack.Runner.Audit.Cursor.{skips-memory_cursor_iff}
use neko_stack.Runner.Audit.{memory_append, memory_cursor}
use neko_stack.Runner.Preflight.{pre_flight, build_chain_scoped_registry}
use neko_stack.Runner.Preflight.Scoped.{last_with, find_exact_migration-build_chain_scoped_registry}
use neko_stack.Runner.Preflight.Safety.{IsAdmissible, pre_flight-IsAdmissible}
use neko_stack.Runner.Results.{Progress, no_progress, going}
use neko_stack.Runner.Loop.{Walk, walk_stream}
use neko_stack.Runner.Loop.Counts.{skipped, walk_stream_counted, walk_stream_stop}
use neko_stack.Runner.Run.{walk_records, run_id_of, pre_flight_opts, run}
use neko_stack.Runner.Run.Outcomes.{walk_records_success}
use neko_stack.Runner.Run.Modes.{validated, run_dry_run, run_validate_only}
use neko_stack.Runner.Run.Adapters.{with_output}

pub record World : Type 0 where
  pub clock : ℕ
  pub log : List (AuditEntry ℕ)
  pub persisted : List ℕ

abbrev host : Host ℕ World
host = record {
  random_uuid = λ w. ("run-1", w);
  now = λ w. (w.clock, record w { clock = w.clock + 1 });
  iso_timestamp = λ w. ("2026-01-01T00:00:00.000Z", w);
  awaited = λ w. w;
  transforming = λ entry value w. w;
  is_aborted = λ w. false;
  persist = λ value w. fulfilled tt (record w { persisted = w.persisted ++ value ∷ [] });
  flush = none;
  append = λ entry w. fulfilled tt (record w { log = memory_append entry w.log });
  cursor = λ run_id w. fulfilled (memory_cursor run_id w.log) w;
}

abbrev validator : Validator ℕ ℕ String
validator = record {
  compile = λ node. returned (λ value. parsed value);
  normalize_issues = λ error node. [];
}

abbrev options : RunnerOptions ℕ ℕ World
options = record {
  schema_registry = schemas;
  migration_registry = migrations;
  records = 5 ∷ 6 ∷ 7 ∷ [];
  stream_throws = none;
  host = host;
}

abbrev opts_in : RunMode → RunOpts
opts_in mode = record {
  schema_id = "user";
  from_version = "1";
  to_version = "2";
  mode = mode;
  allow_cosmetic_drift = none;
  transform_timeout_ms = some 100;
  on_error = none;
  audit_before = true;
  audit_after = false;
  resume_from = none;
}

abbrev start : World
start = record { clock = 0; log = []; persisted = [] }

abbrev walk : Walk ℕ ℕ World String
walk = record {
  options = options;
  validator = validator;
  opts = opts_in execute;
  run_id = "run-1";
  first_hop = first_migration;
  later_hops = [];
  skip_set = 1 ∷ [];
}

abbrev done : RunCounts
done = record { record_count = 3; success_count = 2; failure_count = 0 }

walk_persisted : (walk_records walk start).1.persisted ≡ 15 ∷ 17 ∷ []
unfolding walk_records
walk_persisted = refl

run_persisted :
    (run options validator (opts_in execute) start >>= λ r. ok r.1.persisted)
    ≡ ok (15 ∷ 16 ∷ 17 ∷ [])
unfolding run
run_persisted = refl

walked_lem :
    (walk_stream walk (5 ∷ 6 ∷ 7 ∷ []) no_progress start).0
    ≡ going
        (record { record_count = 3; success_count = 2; failure_count = 0; first_failure = none })
unfolding walk_stream
walked_lem = refl

abbrev walked : Progress
walked = record { record_count = 3; success_count = 2; failure_count = 0; first_failure = none }

walk_stream_counted_example :
    (walked.record_count ≡ 0 + 3)
    × (walked.success_count + walked.failure_count + skipped (1 ∷ []) 0 3 ≡ 0 + 0 + 3)
walk_stream_counted_example =
    walk_stream_counted walk (5 ∷ 6 ∷ 7 ∷ []) no_progress walked start walked_lem

abbrev stopping : Walk ℕ ℕ World String
stopping = record walk { opts = record (opts_in execute) { on_error = some stop } }

stopping_lem : (walk_stream stopping (5 ∷ 6 ∷ 7 ∷ []) no_progress start).0 ≡ going walked
unfolding walk_stream
stopping_lem = refl

walk_stream_stop_example : walked.failure_count ≡ 0
walk_stream_stop_example =
    walk_stream_stop stopping (5 ∷ 6 ∷ 7 ∷ []) no_progress walked start refl stopping_lem

records_lem :
    walk_records walk start ≡ (run_success "run-1" execute done, (walk_records walk start).1)
unfolding walk_records
records_lem = refl

walk_records_success_example :
    (done.failure_count ≡ 0)
    × (done.record_count ≡ 3)
    × (done.success_count + skipped (1 ∷ []) 0 3 ≡ 3)
walk_records_success_example =
    walk_records_success walk start (walk_records walk start).1 "run-1" execute done records_lem

run_dry_run_example :
    run
      (record options {
        host = with_output host (λ value w. Attempt.threw (Cause.text "no") w) none;
      })
      validator
      (opts_in dry_run)
      start
    ≡ run options validator (opts_in dry_run) start
run_dry_run_example =
    run_dry_run (λ value w. Attempt.threw (Cause.text "no") w) none options validator
      (opts_in dry_run) refl start

run_validate_only_example : run options validator (opts_in validate_only) start ≡ (
    pre_flight (pre_flight_opts options (opts_in validate_only)) >>= λ checked.
    ok (validated (run_id_of host none start).0 checked, (run_id_of host none start).1))
run_validate_only_example = run_validate_only options validator (opts_in validate_only) start refl

abbrev flight : PreFlightOpts ℕ ℕ
flight = pre_flight_opts options (opts_in execute)

abbrev passed : PreFlightSuccess ℕ
passed = record {
  schema_id = "user";
  from_version = "1";
  to_version = "2";
  chain = first_migration ∷ [];
  version_path = "1" ∷ "2" ∷ [];
  worst_severity = some breaking;
  notes = [];
  chain_scoped_registry = ("user", ("1", ("2", first_migration) ∷ []) ∷ []) ∷ [];
}

passed_lem : pre_flight flight ≡ ok (ready passed)
unfolding pre_flight
passed_lem = refl

pre_flight-IsAdmissible_example :
    ((plan : MigrationPlan ℕ) × (plan_migration {N = ℕ} (request "1" "2") ≡ ok (success plan))
      × (plan.chain ≡ first_migration ∷ []))
    × ((s f t : String) (entry : MigrationEntry ℕ)
        → last_with s f t (first_migration ∷ []) none ≡ some entry
        → IsAdmissible none (classify_migration entry schemas).status)
pre_flight-IsAdmissible_example = pre_flight-IsAdmissible flight passed passed_lem

find_exact_migration-build_chain_scoped_registry_example :
    find_exact_migration
      (build_chain_scoped_registry (first_migration ∷ second_migration ∷ []))
      "user"
      "2"
      "3"
    ≡ last_with "user" "2" "3" (first_migration ∷ second_migration ∷ []) none
find_exact_migration-build_chain_scoped_registry_example =
    find_exact_migration-build_chain_scoped_registry (first_migration ∷ second_migration ∷ [])
      "user" "2" "3"

pipeline_lem :
    (run_record_pipeline host validator schemas (some 100) first_migration [] 5 start).0
    ≡ returned (migrated 15)
unfolding run_record_pipeline
pipeline_lem = refl

run_record_pipeline-IsMigrated_example : IsMigrated validator schemas first_migration [] 5 15
run_record_pipeline-IsMigrated_example =
    run_record_pipeline-IsMigrated host validator schemas (some 100) first_migration [] 5 15 start
      pipeline_lem

IsMigrated-run_record_pipeline_example :
    (run_record_pipeline host validator schemas none first_migration
      (second_migration ∷ [])
      5
      start).0
    ≡ returned (migrated 25)
unfolding find_schema safe_parse
IsMigrated-run_record_pipeline_example =
    IsMigrated-run_record_pipeline host validator schemas first_migration (second_migration ∷ []) 5
      25 start
      (
        registered "1" "i1" "s1" user1,
        registered "3" "i3" "s3" user3,
        5,
        25,
        refl,
        refl,
        (15, refl, (25, refl, refl)),
        refl,
        refl,
      )

abbrev logged : AuditEntry ℕ
logged = record {
  run_id = "run-1";
  schema_id = "user";
  from_version = "1";
  to_version = "2";
  chain_entries = [];
  record_index = 4;
  record_key = none;
  status = AuditStatus.success;
  classification = none;
  error_message = none;
  before = none;
  after = none;
  timestamp = "2026-01-01T00:00:00.000Z";
}

skips-memory_cursor_iff_example :
    (skips 4 (memory_cursor "run-1" (memory_append logged [])) ≡ true) ↔ (
      (e : AuditEntry ℕ) × In e (memory_append logged [])
      × (e.run_id ≡ "run-1")
      × (e.status ≡ AuditStatus.success)
      × (e.record_index ≡ 4))
skips-memory_cursor_iff_example = skips-memory_cursor_iff 4 "run-1" (memory_append logged [])
