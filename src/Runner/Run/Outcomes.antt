-- ===== src/Runner/Run/Outcomes.antt =====
-- Steps 5 to 8 of `run` of runner.ts of packages/migrate-runner: what a result says of the records.
use neko_stack.Common.{
  ◌+◌, String, ◌≡◌, refl, ap, Option, none, some, List, arith, Bool-cases, inl, inr, length, ltb,
}
use neko_stack.Js.Throws.{Cause}
use neko_stack.Runner.Types.{
  RunMode, validate_only, dry_run, execute, OnError, continue, stop, Attempt, fulfilled, RunCounts,
  run_success, run_failure,
}
use neko_stack.Runner.Results.{
  FirstFailure, Progress, no_progress, counts_of, Step, going, ended, thrown, cancelled_result,
  aggregate_failure_result,
}
use neko_stack.Runner.Loop.{Walk, on_error_of, end_of_stream, after_failure, walk_stream}
use neko_stack.Runner.Loop.Steps.{counted, walk_stream_ends}
use neko_stack.Runner.Loop.Counts.{skipped, walk_stream_counted}
use neko_stack.Runner.Run.{final_result, after_flush, flush_if_given, after_stream, walk_records}

-- A result that the loop itself returns is a failure.
abbrev EndsFailed : Step → Type 0
EndsFailed (ended (run_success run_id mode counts)) = ⊥
EndsFailed _ = Unit

end_of_stream-EndsFailed : (o : Option Cause) (p : Progress) → EndsFailed (end_of_stream o p)
end_of_stream-EndsFailed none p = tt
end_of_stream-EndsFailed (some cause) p = tt

-- The counts of a success are those of the loop, which noted no failure.
abbrev IsCleanEnd : Progress → RunCounts → Type 0
IsCleanEnd p counts =
    (p.failure_count ≡ 0)
    × (counts.record_count ≡ p.record_count)
    × (counts.success_count ≡ p.success_count)
    × (counts.failure_count ≡ p.failure_count)

module _ {N V W E : Type 0} where
  after_failure-EndsFailed :
      (walk : Walk N V W E) (failure : FirstFailure) (p : Progress) (policy : OnError)
      → on_error_of walk.opts.on_error ≡ policy
      → EndsFailed (after_failure walk failure p)
  unfolding after_failure aggregate_failure_result
  after_failure-EndsFailed walk failure p continue e = rw (e, after_failure) tt
  after_failure-EndsFailed walk failure p stop e = rw (e, after_failure) tt

  walk_stream-EndsFailed :
      (walk : Walk N V W E) (records : List V) (p : Progress) (w : W)
      → EndsFailed (walk_stream walk records p w).0
  unfolding cancelled_result
  walk_stream-EndsFailed walk records p w =
      walk_stream_ends walk EndsFailed
        (λ q. record {
          at_cancelled = tt;
          at_skipped = λ e. tt;
          at_thrown = λ cause. tt;
          at_success = λ e. tt;
          at_failure = λ failure new.
              after_failure-EndsFailed walk failure (counted q) (on_error_of walk.opts.on_error)
                refl;
        })
        (end_of_stream-EndsFailed walk.options.stream_throws) records p w

  final_result-IsCleanEnd :
      (walk : Walk N V W E) (p : Progress) (run_id : String) (mode : RunMode) (counts : RunCounts)
      → final_result walk p ≡ run_success run_id mode counts
      → IsCleanEnd p counts
  unfolding final_result aggregate_failure_result
  final_result-IsCleanEnd walk p run_id mode counts h = elim (Bool-cases (ltb 0 p.failure_count)) [
    | inl some_failed ↦ cc (rw (some_failed, final_result) at h)
    | inr none_failed ↦
        let e : run_success walk.run_id walk.opts.mode (counts_of p)
            ≡ run_success run_id mode counts =
          rw (none_failed, final_result) at h in
        (ground arith, ground arith, ground arith, ground arith)
  ]

  flush_if_given-IsCleanEnd :
      (walk : Walk N V W E) (p : Progress) (flush : Option (W → Attempt W (Unit {0}))) (w : W)
      (run_id : String) (mode : RunMode) (counts : RunCounts)
      → (flush_if_given walk p flush w).0 ≡ run_success run_id mode counts
      → IsCleanEnd p counts
  unfolding after_flush flush_if_given
  flush_if_given-IsCleanEnd walk p none w run_id mode counts h =
      final_result-IsCleanEnd walk p run_id mode counts h
  flush_if_given-IsCleanEnd walk p (some flush) w run_id mode counts h = flushed (flush w) h
    where
      flushed :
          (attempt : Attempt W (Unit {0}))
          → (after_flush walk p attempt).0 ≡ run_success run_id mode counts
          → IsCleanEnd p counts
      flushed (fulfilled _ w') h = final_result-IsCleanEnd walk p run_id mode counts h
      flushed (Attempt.threw cause w') h = cc

  after_stream_success :
      (walk : Walk N V W E) (step : Step) (w : W) (run_id : String) (mode : RunMode)
      (counts : RunCounts)
      → EndsFailed step
      → (after_stream walk step w).0 ≡ run_success run_id mode counts
      → (p : Progress) × (step ≡ going p) × IsCleanEnd p counts
  unfolding after_stream
  after_stream_success walk (ended (run_success i m c)) w run_id mode counts f h = elim f [ ]
  after_stream_success walk (ended (run_failure i m c e r)) w run_id mode counts f h = cc
  after_stream_success walk (thrown cause p) w run_id mode counts f h = cc
  after_stream_success walk (going p) w run_id mode counts f h =
      (p, refl, in_mode walk.opts.mode refl)
    where
      in_mode : (m : RunMode) → walk.opts.mode ≡ m → IsCleanEnd p counts
      in_mode execute e =
          flush_if_given-IsCleanEnd walk p walk.options.host.flush w run_id mode counts
            (rw (e, after_stream) at h)
      in_mode dry_run e =
          final_result-IsCleanEnd walk p run_id mode counts (rw (e, after_stream) at h)
      in_mode validate_only e =
          final_result-IsCleanEnd walk p run_id mode counts (rw (e, after_stream) at h)

  -- A walk that ends as a success has counted all records of the stream, and each was a success
  -- but for those that the resume cursor skips; none failed.
  pub walk_records_success :
      (walk : Walk N V W E) (w w' : W) (run_id : String) (mode : RunMode) (counts : RunCounts)
      → walk_records walk w ≡ (run_success run_id mode counts, w')
      → (counts.failure_count ≡ 0)
        × (counts.record_count ≡ length walk.options.records)
        × (counts.success_count + skipped walk.skip_set 0 (length walk.options.records)
            ≡ length walk.options.records)
  unfolding walk_records cancelled_result
  walk_records_success walk w w' run_id mode counts h =
      elim (Bool-cases (walk.options.host.is_aborted w)) [
        | inl aborted ↦ cc (rw (aborted, walk_records) at h)
        | inr alive ↦
            let walked = walk_stream walk walk.options.records no_progress w in
            let ended_well = rw (alive, walk_records) at h in
            let (p, went, clean) =
              after_stream_success walk walked.0 walked.1 run_id mode counts
                (walk_stream-EndsFailed walk walk.options.records no_progress w)
                (ap (λ r. r.0) ended_well) in
            let (count, outcomes) =
              walk_stream_counted walk walk.options.records no_progress p w went in
            (omega (arith, clean), omega (arith, clean, count), omega (arith, clean, outcomes))
      ]
