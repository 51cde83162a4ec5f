-- ===== src/Runner/Loop/Counts.antt =====
-- The loop of runner.ts of packages/migrate-runner: what its counters count.
use neko_stack.Common.{
  ℕ, zero, suc, subst, ap, ◌∙◌, ◌+◌, ◌≡◌, refl, Bool, true, false, some, List, [], ◌∷◌, arith,
  Bool-cases, Option-cases, inl, inr, if◌then◌else◌, length,
}
use neko_stack.Runner.Types.{OnError, continue, stop}
use neko_stack.Runner.Results.{FirstFailure, Progress, Step, going, ended, thrown, note_failure}
use neko_stack.Runner.Loop.{Walk, skips, on_error_of, after_failure, process_record, walk_stream}
use neko_stack.Runner.Loop.Steps.{counted, process_record_ends, walk_stream_going}

-- How many of the `n` indexes from `i` on are skipped.
unfoldable pub skipped : List ℕ → ℕ → ℕ → ℕ
skipped skip_set i zero = 0
skipped skip_set i (suc n) =
    let rest = skipped skip_set (i + 1) n in if skips i skip_set then suc rest else rest

abbrev skip_weight : Bool → ℕ
skip_weight true = 1
skip_weight false = 0

skipped-suc :
    (skip_set : List ℕ) (i n : ℕ)
    → skipped skip_set i (suc n) ≡ skip_weight (skips i skip_set) + skipped skip_set (i + 1) n
unfolding skipped
skipped-suc skip_set i n = elim (Bool-cases (skips i skip_set)) [
  | inl e ↦ rw e (omega arith)
  | inr e ↦ rw e (omega arith)
]

-- The iteration counts its record once, as a success, a failure or a skip.
abbrev IsCounted : Bool → Progress → Step → Type 0
IsCounted skip p (going q) =
    (q.record_count ≡ p.record_count + 1)
    × (q.success_count + q.failure_count + skip_weight skip ≡ p.success_count + p.failure_count + 1)
IsCounted skip p (ended result) = Unit
IsCounted skip p (thrown cause q) = Unit

-- Under the policy `stop`, an iteration that the loop goes on after has not failed.
abbrev IsUnfailed : Progress → Step → Type 0
IsUnfailed p (going q) = q.failure_count ≡ p.failure_count
IsUnfailed p (ended result) = Unit
IsUnfailed p (thrown cause q) = Unit

module _ {N V W E : Type 0} where
  after_failure-IsCounted :
      (walk : Walk N V W E) (failure : FirstFailure) (p : Progress) (policy : OnError)
      → on_error_of walk.opts.on_error ≡ policy
      → IsCounted false p (after_failure walk failure (counted p))
  unfolding after_failure note_failure
  after_failure-IsCounted walk failure p continue e = rw (e, after_failure) (refl, omega arith)
  after_failure-IsCounted walk failure p stop e = rw (e, after_failure) tt

  process_record-IsCounted :
      (walk : Walk N V W E) (input : V) (p : Progress) (w : W)
      → IsCounted (skips p.record_count walk.skip_set) p (process_record walk input p w).0
  process_record-IsCounted walk input p w =
      process_record_ends walk p (IsCounted (skips p.record_count walk.skip_set) p)
        (record {
          at_cancelled = tt;
          at_skipped = λ e. rw e (refl, refl);
          at_thrown = λ cause. tt;
          at_success = λ e. rw e (refl, omega arith);
          at_failure = λ failure e.
              rw e (after_failure-IsCounted walk failure p (on_error_of walk.opts.on_error) refl);
        })
        input w

  -- A loop that goes to the end of the stream counts each record once, and as a success, a failure
  -- or a skip.
  pub walk_stream_counted :
      (walk : Walk N V W E) (records : List V) (p q : Progress) (w : W)
      → (walk_stream walk records p w).0 ≡ going q
      → (q.record_count ≡ p.record_count + length records)
        × (q.success_count + q.failure_count + skipped walk.skip_set p.record_count (length records)
            ≡ p.success_count + p.failure_count + length records)
  unfolding walk_stream skipped
  walk_stream_counted walk [] p q w h = elim (Option-cases walk.options.stream_throws) [
    | inl nothing ↦ let e : going p ≡ going q = rw (nothing, walk_stream) at h in ground arith
    | inr (cause, thrown_there) ↦ cc (rw (thrown_there, walk_stream) at h)
  ]
  walk_stream_counted walk (input ∷ records) p q w h =
      let (p', w', here, later) = walk_stream_going walk input records p q w h in
      let (count, outcomes) =
        subst (λ s. IsCounted (skips p.record_count walk.skip_set) p s.0) here
          (process_record-IsCounted walk input p (walk.options.host.awaited w)) in
      let (counts, all_outcomes) = walk_stream_counted walk records p' q w' later in
      let here_skipped = skipped-suc walk.skip_set p.record_count (length records) in
      let same_index = ap (λ i. skipped walk.skip_set i (length records)) count in
      (
        omega (arith, count, counts),
        omega (arith, outcomes, all_outcomes, here_skipped, same_index),
      )

  after_failure-IsUnfailed :
      (walk : Walk N V W E) (failure : FirstFailure) (p : Progress)
      → walk.opts.on_error ≡ some stop
      → IsUnfailed p (after_failure walk failure (counted p))
  unfolding after_failure
  after_failure-IsUnfailed walk failure p e = rw (e, after_failure) tt

  process_record-IsUnfailed :
      (walk : Walk N V W E) (input : V) (p : Progress) (w : W)
      → walk.opts.on_error ≡ some stop
      → IsUnfailed p (process_record walk input p w).0
  process_record-IsUnfailed walk input p w e =
      process_record_ends walk p (IsUnfailed p)
        (record {
          at_cancelled = tt;
          at_skipped = λ e. refl;
          at_thrown = λ cause. tt;
          at_success = λ e. refl;
          at_failure = λ failure new. after_failure-IsUnfailed walk failure p e;
        })
        input w

  -- Under the policy `stop`, a loop that goes to the end of the stream has counted no failure.
  pub walk_stream_stop :
      (walk : Walk N V W E) (records : List V) (p q : Progress) (w : W)
      → walk.opts.on_error ≡ some stop
      → (walk_stream walk records p w).0 ≡ going q
      → q.failure_count ≡ p.failure_count
  unfolding walk_stream
  walk_stream_stop walk [] p q w e h = elim (Option-cases walk.options.stream_throws) [
    | inl nothing ↦ let same : going p ≡ going q = rw (nothing, walk_stream) at h in ground arith
    | inr (cause, thrown_there) ↦ cc (rw (thrown_there, walk_stream) at h)
  ]
  walk_stream_stop walk (input ∷ records) p q w e h =
      let (p', w', here, later) = walk_stream_going walk input records p q w h in
      walk_stream_stop walk records p' q w' e later
      ∙ subst (λ s. IsUnfailed p s.0) here
          (process_record-IsUnfailed walk input p (walk.options.host.awaited w) e)
