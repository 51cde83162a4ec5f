-- ===== src/Runner/Run/Adapters.antt =====
-- Runs of runner.ts whose adapters differ in what persists a record, up to the loop over the records.
use neko_stack.Common.{
  ℕ, ◌+◌, ◌≡◌, refl, sym, ap, ◌∙◌, Option, none, some, List, [], ◌∷◌, if◌then◌else◌,
}
use neko_stack.Js.Throws.{Cause, Outcome, returned}
use neko_stack.Js.Throws
use neko_stack.Schema.Registry.{Registry, RegistryEntry, find_schema}
use neko_stack.Schema.Issues.{Result}
use neko_stack.Schema.Runtime.{Validator, safe_parse}
use neko_stack.Migration.Types.{MigrationEntry}
use neko_stack.Runner.Types.{
  dry_run, Attempt, Host, RunnerOptions, PipelineResult, migrated, failed,
}
use neko_stack.Runner.Pipeline.{
  Walked, reached, broke, run_transform, run_chain, run_validated, after_input_check,
  after_source_lookup, run_record_pipeline,
}
use neko_stack.Runner.Results.{Progress, no_progress, Step, going, ended, thrown, cancelled_result}
use neko_stack.Runner.Loop.{
  Walk, skips, after_failure, deliver, record_success, record_failure, append_audit, after_pipeline,
  process_record, walk_stream,
}
use neko_stack.Runner.Loop.Steps.{counted, next, walk_stream-cons}
use neko_stack.Runner.Run.{after_stream, final_result, walk_records}

module _ {V W : Type 0} where
  -- The host with another output adapter.
  abbrev pub with_output :
      Host V W → (V → W → Attempt W (Unit {0})) → Option (W → Attempt W (Unit {0})) → Host V W
  with_output host persist flush = record host { persist = persist; flush = flush }

module _ {N V W : Type 0} (persist : V → W → Attempt W (Unit {0}))
    (flush : Option (W → Attempt W (Unit {0}))) where
  abbrev pub with_adapter : RunnerOptions N V W → RunnerOptions N V W
  with_adapter options = record options { host = with_output options.host persist flush }

module _ {V W : Type 0} (persist : V → W → Attempt W (Unit {0}))
    (flush : Option (W → Attempt W (Unit {0}))) (host : Host V W) where
  abbrev other_host : Host V W
  other_host = with_output host persist flush

  run_chain_adapter :
      (timeout : Option ℕ) (i : ℕ) (chain : List (MigrationEntry V)) (current : V) (w : W)
      → run_chain other_host timeout i chain current w ≡ run_chain host timeout i chain current w
  unfolding run_chain run_transform
  run_chain_adapter timeout i [] current w = refl
  run_chain_adapter timeout i (entry ∷ chain) current w =
      go (run_chain_adapter timeout (i + 1) chain) (run_transform host timeout i entry current w)
    where
      go :
          ((x : V) (w : W)
            → run_chain other_host timeout (i + 1) chain x w
              ≡ run_chain host timeout (i + 1) chain x w)
          → (s : Walked V × W)
          → Path
              (Walked V × W)
              (elim s.0 [
                | reached x ↦ run_chain other_host timeout (i + 1) chain x s.1
                | broke failure ↦ (broke failure, s.1)
              ])
              (elim s.0 [
                | reached x ↦ run_chain host timeout (i + 1) chain x s.1
                | broke failure ↦ (broke failure, s.1)
              ])
      go later (reached x, w') = later x w'
      go later (broke failure, w') = refl

  run_record_pipeline_adapter :
      {N E : Type 0} (validator : Validator N V E) (registry : Registry N) (timeout : Option ℕ)
      (first : MigrationEntry V) (chain : List (MigrationEntry V)) (input : V) (w : W)
      → run_record_pipeline other_host validator registry timeout first chain input w
        ≡ run_record_pipeline host validator registry timeout first chain input w
  unfolding run_record_pipeline after_source_lookup after_input_check run_validated
  run_record_pipeline_adapter {N = N} validator registry timeout first chain input w =
      looked_up (find_schema registry first.schema_id first.from_version)
    where
      checked :
          (outcome : Outcome (Result V))
          → after_input_check other_host validator registry timeout first chain outcome w
            ≡ after_input_check host validator registry timeout first chain outcome w
      checked (Throws.threw cause) = refl
      checked (returned (Result.failure issues)) = refl
      checked (returned (Result.success value)) =
          rw (run_validated, run_chain_adapter timeout 0 (first ∷ chain) value w) refl

      looked_up :
          (found : Option (RegistryEntry N))
          → after_source_lookup other_host validator registry timeout first chain input found w
            ≡ after_source_lookup host validator registry timeout first chain input found w
      looked_up none = refl
      looked_up (some source) = checked (safe_parse validator source.schema input)

module _ {N V W E : Type 0} (persist : V → W → Attempt W (Unit {0}))
    (flush : Option (W → Attempt W (Unit {0}))) (walk : Walk N V W E)
    (dry : walk.opts.mode ≡ dry_run) where
  abbrev other_walk : Walk N V W E
  other_walk = record walk {
    options = record walk.options { host = with_output walk.options.host persist flush };
  }

  deliver_adapter :
      (i : ℕ) (input output : V) (p : Progress) (w : W)
      → deliver other_walk i input output p w ≡ deliver walk i input output p w
  unfolding deliver record_success append_audit
  deliver_adapter i input output p w = rw (dry, deliver) refl

  after_pipeline_adapter :
      (i : ℕ) (input : V) (p : Progress) (outcome : Outcome (PipelineResult V)) (w : W)
      → after_pipeline other_walk i input p outcome w ≡ after_pipeline walk i input p outcome w
  unfolding after_pipeline record_failure append_audit after_failure
  after_pipeline_adapter i input p (Throws.threw cause) w = refl
  after_pipeline_adapter i input p (returned (migrated output)) w =
      deliver_adapter i input output p w
  after_pipeline_adapter i input p (returned (failed c index message issues)) w = refl

  process_record_adapter :
      (input : V) (p : Progress) (w : W)
      → process_record other_walk input p w ≡ process_record walk input p w
  unfolding process_record
  process_record_adapter input p w =
      rw
        (run_record_pipeline_adapter persist flush walk.options.host walk.validator
          walk.options.schema_registry walk.opts.transform_timeout_ms walk.first_hop walk.later_hops
          input w)
        (ap
          (λ x.
            if walk.options.host.is_aborted w
            then (ended (cancelled_result walk.run_id walk.opts.mode p), w)
            else if skips p.record_count walk.skip_set
            then (going (counted p), w)
            else x)
          (after_pipeline_adapter p.record_count input (counted p) _ _))

  walk_stream_adapter :
      (records : List V) (p : Progress) (w : W)
      → walk_stream other_walk records p w ≡ walk_stream walk records p w
  unfolding walk_stream next
  walk_stream_adapter [] p w = refl
  walk_stream_adapter (input ∷ records) p w =
      walk_stream-cons other_walk input records p w
      ∙ ap (next other_walk records) (process_record_adapter input p (walk.options.host.awaited w))
      ∙ go (process_record walk input p (walk.options.host.awaited w)) (walk_stream_adapter records)
      ∙ sym (walk_stream-cons walk input records p w)
    where
      go :
          (s : Step × W)
          → ((p : Progress) (w : W)
              → walk_stream other_walk records p w ≡ walk_stream walk records p w)
          → next other_walk records s ≡ next walk records s
      go (going p', w') later = later p' w'
      go (ended result, w') later = refl
      go (thrown cause p', w') later = refl

  after_stream_adapter :
      (step : Step) (w : W) → after_stream other_walk step w ≡ after_stream walk step w
  unfolding after_stream final_result
  after_stream_adapter (ended result) w = refl
  after_stream_adapter (thrown cause p) w = refl
  after_stream_adapter (going p) w = rw (dry, after_stream) refl

  pub walk_records_adapter : (w : W) → walk_records other_walk w ≡ walk_records walk w
  unfolding walk_records
  walk_records_adapter w = rw (walk_stream_adapter walk.options.records no_progress w) (
      ap
        (λ x.
          if walk.options.host.is_aborted w
          then (cancelled_result walk.run_id walk.opts.mode no_progress, w)
          else x)
        (after_stream_adapter (walk_stream walk walk.options.records no_progress w).0
          (walk_stream walk walk.options.records no_progress w).1))
