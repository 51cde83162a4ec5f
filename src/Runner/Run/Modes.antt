-- ===== src/Runner/Run/Modes.antt =====
-- `run` of runner.ts of packages/migrate-runner: what the modes promise of the adapters.
use neko_stack.Common.{ℕ, String, ◌≡◌, refl, ap, Option, none, some, List, [], ◌∷◌}
use neko_stack.Js.Json.{JsNumber}
use neko_stack.Schema.Runtime.{Validator}
use neko_stack.Schema.Diff.Walk.{Diffed, ok, unsupported, ◌>>=◌}
use neko_stack.Migration.Types.{MigrationEntry}
use neko_stack.Runner.Types.{
  validate_only, dry_run, Attempt, fulfilled, RunnerOptions, RunOpts, RunResult, run_success,
  run_failure, pre_flight_failed, PreFlightResult, ready, refused,
}
use neko_stack.Runner.Preflight.{pre_flight}
use neko_stack.Runner.Run.{
  after_cursor, run_resolved, after_pre_flight, run_id_of, pre_flight_opts, run,
}
use neko_stack.Runner.Run.Adapters.{with_output, walk_records_adapter}

module _ {N V W E : Type 0} (persist : V → W → Attempt W (Unit {0}))
    (flush : Option (W → Attempt W (Unit {0}))) (options : RunnerOptions N V W)
    (validator : Validator N V E) (opts : RunOpts) (dry : opts.mode ≡ dry_run) where
  abbrev other_options : RunnerOptions N V W
  other_options = record options { host = with_output options.host persist flush }

  after_cursor_adapter :
      (run_id : String) (first : MigrationEntry V) (later : List (MigrationEntry V))
      (attempt : Attempt W (List ℕ))
      → after_cursor other_options validator opts run_id first later attempt
        ≡ after_cursor options validator opts run_id first later attempt
  unfolding after_cursor
  after_cursor_adapter run_id first later (Attempt.threw cause w) = refl
  after_cursor_adapter run_id first later (fulfilled indexes w) =
      walk_records_adapter persist flush
        (record {
          options = options;
          validator = validator;
          opts = opts;
          run_id = run_id;
          first_hop = first;
          later_hops = later;
          skip_set = indexes;
        })
        dry w

  run_resolved_adapter :
      (run_id : String) (chain : List (MigrationEntry V)) (w : W)
      → run_resolved other_options validator opts run_id chain w
        ≡ run_resolved options validator opts run_id chain w
  unfolding run_resolved
  run_resolved_adapter run_id [] w = refl
  run_resolved_adapter run_id (first ∷ later) w =
      rw (dry, run_resolved) (after_cursor_adapter run_id first later _)

  after_pre_flight_adapter :
      (run_id : String) (w : W) (checked : PreFlightResult V)
      → after_pre_flight other_options validator opts run_id w checked
        ≡ after_pre_flight options validator opts run_id w checked
  unfolding after_pre_flight
  after_pre_flight_adapter run_id w (refused message issues) = refl
  after_pre_flight_adapter run_id w (ready checked) = run_resolved_adapter run_id checked.chain w

  run_id_of_adapter :
      (prior : Option String) (w : W)
      → run_id_of other_options.host prior w ≡ run_id_of options.host prior w
  run_id_of_adapter none w = refl
  run_id_of_adapter (some run_id) w = refl

  bind_adapter :
      (checked : Diffed (PreFlightResult V)) (id : String × W)
      → (checked >>= λ c. ok (after_pre_flight other_options validator opts id.0 id.1 c))
        ≡ (checked >>= λ c. ok (after_pre_flight options validator opts id.0 id.1 c))
  bind_adapter (ok c) id = ap ok (after_pre_flight_adapter id.0 id.1 c)
  bind_adapter (unsupported kind) id = refl

  module _ ⦃number : JsNumber N⦄ where
    -- A dry run has the same result and leaves the same world whatever output adapter it is given,
    -- so it neither persists nor flushes.
    pub run_dry_run :
        (w : W)
        → run (record options { host = with_output options.host persist flush }) validator opts w
          ≡ run options validator opts w
    unfolding run
    run_dry_run w = rw (run_id_of_adapter opts.resume_from w) (
        bind_adapter (pre_flight (pre_flight_opts options opts))
          (run_id_of options.host opts.resume_from w))

-- What a run in the mode `validate-only` makes of the pre-flight's answer.
abbrev pub validated : {V : Type 0} → String → PreFlightResult V → RunResult
validated run_id (refused message issues) =
    run_failure run_id validate_only pre_flight_failed message none
validated run_id (ready checked) =
    run_success run_id validate_only
      (record { record_count = 0; success_count = 0; failure_count = 0 })

module _ {N V W E : Type 0} where
  after_pre_flight_validate_only :
      (options : RunnerOptions N V W) (validator : Validator N V E) (opts : RunOpts)
      (run_id : String) (w : W) (checked : PreFlightResult V)
      → opts.mode ≡ validate_only
      → after_pre_flight options validator opts run_id w checked ≡ (validated run_id checked, w)
  unfolding after_pre_flight run_resolved
  after_pre_flight_validate_only options validator opts run_id w (refused message issues) e =
      rw e refl
  after_pre_flight_validate_only options validator opts run_id w (ready checked) e =
      resolved checked.chain
    where
      resolved :
          (chain : List (MigrationEntry V))
          → run_resolved options validator opts run_id chain w ≡ (
            run_success run_id validate_only
                (record { record_count = 0; success_count = 0; failure_count = 0 }),
            w,
          )
      resolved [] =
          ap
            (λ m. (
              run_success run_id m
                  (record { record_count = 0; success_count = 0; failure_count = 0 }),
              w,
            ))
            e
      resolved (first ∷ later) =
          rw (e, run_resolved)
            (ap
              (λ m. (
                run_success run_id m
                    (record { record_count = 0; success_count = 0; failure_count = 0 }),
                w,
              ))
              e)

module _ {N V W E : Type 0} ⦃number : JsNumber N⦄ where
  -- In the mode `validate-only` the result is that of the pre-flight, with no record counted, and
  -- nothing touches the world after the run id is chosen.
  pub run_validate_only :
      (options : RunnerOptions N V W) (validator : Validator N V E) (opts : RunOpts) (w : W)
      → opts.mode ≡ validate_only
      → run options validator opts w ≡ (
          pre_flight (pre_flight_opts options opts) >>= λ checked. ok (
            validated (run_id_of options.host opts.resume_from w).0 checked,
            (run_id_of options.host opts.resume_from w).1,
          ))
  unfolding run
  run_validate_only options validator opts w e = over (pre_flight (pre_flight_opts options opts))
    where
      over :
          (d : Diffed (PreFlightResult V))
          → (d >>= λ checked. ok (
              after_pre_flight options validator opts
                (run_id_of options.host opts.resume_from w).0
                (run_id_of options.host opts.resume_from w).1
                checked))
            ≡ (d >>= λ checked. ok (
              validated (run_id_of options.host opts.resume_from w).0 checked,
              (run_id_of options.host opts.resume_from w).1,
            ))
      over (ok checked) =
          ap ok (after_pre_flight_validate_only options validator opts _ _ checked e)
      over (unsupported kind) = refl
