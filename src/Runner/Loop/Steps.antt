-- ===== src/Runner/Loop/Steps.antt =====
-- The loop of runner.ts of packages/migrate-runner: the ways in which an iteration can end.
use neko_stack.Common.{
  ℕ, ◌+◌, ◌≡◌, refl, sym, ap, ◌∙◌, subst, true, false, Option, none, some, List, [], ◌∷◌,
  Bool-cases, inl, inr,
}
use neko_stack.Js.Throws.{Cause, Outcome, returned}
use neko_stack.Js.Throws
use neko_stack.Runner.Types.{
  RunMode, validate_only, dry_run, execute, Attempt, fulfilled, PipelineResult, migrated, failed,
  AuditStatus,
}
use neko_stack.Runner.Results.{FirstFailure, Progress, Step, going, ended, thrown, cancelled_result}
use neko_stack.Runner.Loop.{
  Walk, skips, end_of_stream, settle, after_failure, append_audit, record_failure, record_success,
  after_persist, deliver, after_pipeline, process_record, walk_stream,
}

abbrev pub counted : Progress → Progress
counted p = record p { record_count = p.record_count + 1 }

abbrev pub succeeded : Progress → Progress
succeeded p = record p { success_count = p.success_count + 1 }

settle_ends :
    {W : Type 0} (P : Step → Type 0) (attempt : Attempt W (Unit {0})) (p : Progress) (next : Step)
    → ((cause : Cause) → P (thrown cause p))
    → P next
    → P (settle attempt p next).0
settle_ends P (Attempt.threw cause w) p next at_thrown at_next = at_thrown cause
settle_ends P (fulfilled _ w) p next at_thrown at_next = at_next

module _ {N V W E : Type 0} where
  -- What has to hold of the ends of an iteration for `P` to hold of each.
  pub record Ends (walk : Walk N V W E) (p : Progress) (P : Step → Type 0) : Type 0 where
    pub at_cancelled : P (ended (cancelled_result walk.run_id walk.opts.mode p))
    pub at_skipped : skips p.record_count walk.skip_set ≡ true → P (going (counted p))
    pub at_thrown : (cause : Cause) → P (thrown cause (counted p))
    pub at_success : skips p.record_count walk.skip_set ≡ false → P (going (succeeded (counted p)))
    pub at_failure :
        (failure : FirstFailure)
        → skips p.record_count walk.skip_set ≡ false
        → P (after_failure walk failure (counted p))

  record_failure_ends :
      (walk : Walk N V W E) (p : Progress) (P : Step → Type 0)
      → Ends walk p P
      → skips p.record_count walk.skip_set ≡ false
      → (i : ℕ) (failure : FirstFailure) (input : V) (output : Option V) (w : W)
      → P (record_failure walk i failure input output (counted p) w).0
  unfolding record_failure
  record_failure_ends walk p P ends new i failure input output w =
      settle_ends P (append_audit walk i AuditStatus.failure (some failure) input output w)
        (counted p) _ ends.at_thrown (ends.at_failure failure new)

  record_success_ends :
      (walk : Walk N V W E) (p : Progress) (P : Step → Type 0)
      → Ends walk p P
      → skips p.record_count walk.skip_set ≡ false
      → (i : ℕ) (input output : V) (w : W) → P (record_success walk i input output (counted p) w).0
  unfolding record_success
  record_success_ends walk p P ends new i input output w =
      settle_ends P (append_audit walk i AuditStatus.success none input (some output) w) (counted p)
        _ ends.at_thrown (ends.at_success new)

  after_persist_ends :
      (walk : Walk N V W E) (p : Progress) (P : Step → Type 0)
      → Ends walk p P
      → skips p.record_count walk.skip_set ≡ false
      → (i : ℕ) (input output : V) (attempt : Attempt W (Unit {0}))
      → P (after_persist walk i input output (counted p) attempt).0
  unfolding after_persist
  after_persist_ends walk p P ends new i input output (fulfilled _ w) =
      record_success_ends walk p P ends new i input output w
  after_persist_ends walk p P ends new i input output (Attempt.threw cause w) =
      record_failure_ends walk p P ends new i _ input (some output) w

  deliver_ends :
      (walk : Walk N V W E) (p : Progress) (P : Step → Type 0)
      → Ends walk p P
      → skips p.record_count walk.skip_set ≡ false
      → (i : ℕ) (input output : V) (w : W) (mode : RunMode) → walk.opts.mode ≡ mode
      → P (deliver walk i input output (counted p) w).0
  unfolding deliver
  deliver_ends walk p P ends new i input output w execute e =
      rw (e, deliver)
        (after_persist_ends walk p P ends new i input output (walk.options.host.persist output w))
  deliver_ends walk p P ends new i input output w dry_run e =
      rw (e, deliver) (record_success_ends walk p P ends new i input output w)
  deliver_ends walk p P ends new i input output w validate_only e =
      rw (e, deliver) (record_success_ends walk p P ends new i input output w)

  after_pipeline_ends :
      (walk : Walk N V W E) (p : Progress) (P : Step → Type 0)
      → Ends walk p P
      → skips p.record_count walk.skip_set ≡ false
      → (i : ℕ) (input : V) (outcome : Outcome (PipelineResult V)) (w : W)
      → P (after_pipeline walk i input (counted p) outcome w).0
  unfolding after_pipeline
  after_pipeline_ends walk p P ends new i input (Throws.threw cause) w = ends.at_thrown cause
  after_pipeline_ends walk p P ends new i input (returned (migrated output)) w =
      deliver_ends walk p P ends new i input output w walk.opts.mode refl
  after_pipeline_ends walk p P ends new i input (returned (failed c index message issues)) w =
      record_failure_ends walk p P ends new i _ input none w

  -- What holds of each of the ends holds of the iteration.
  pub process_record_ends :
      (walk : Walk N V W E) (p : Progress) (P : Step → Type 0)
      → Ends walk p P
      → (input : V) (w : W) → P (process_record walk input p w).0
  unfolding process_record
  process_record_ends walk p P ends input w = elim (Bool-cases (walk.options.host.is_aborted w)) [
    | inl aborted ↦ rw (aborted, process_record) ends.at_cancelled
    | inr alive ↦ elim (Bool-cases (skips p.record_count walk.skip_set)) [
      | inl seen ↦ rw (alive, process_record, seen) (ends.at_skipped seen)
      | inr new ↦
          rw (alive, process_record, new)
            (after_pipeline_ends walk p P ends new p.record_count input _ _)
    ]
  ]

  -- What the loop does after an iteration.
  unfoldable pub next : Walk N V W E → List V → Step × W → Step × W
  unfolding walk_stream
  next walk records (going p, w) = walk_stream walk records p w
  next walk records (ended result, w) = (ended result, w)
  next walk records (thrown cause p, w) = (thrown cause p, w)

  pub walk_stream-cons :
      (walk : Walk N V W E) (input : V) (records : List V) (p : Progress) (w : W)
      → walk_stream walk (input ∷ records) p w
        ≡ next walk records (process_record walk input p (walk.options.host.awaited w))
  unfolding walk_stream next
  walk_stream-cons walk input records p w =
      go (process_record walk input p (walk.options.host.awaited w))
    where
      go :
          (s : Step × W)
          → (elim s.0 [
            | going p' ↦ walk_stream walk records p' s.1
            | ended result ↦ (ended result, s.1)
            | thrown cause p' ↦ (thrown cause p', s.1)
          ])
            ≡ next walk records s
      go (going p', w') = refl
      go (ended result, w') = refl
      go (thrown cause p', w') = refl

  next_going :
      (walk : Walk N V W E) (records : List V) (s : Step × W) (q : Progress)
      → (next walk records s).0 ≡ going q
      → (p' : Progress) × (w' : W) × (s ≡ (going p', w'))
        × ((walk_stream walk records p' w').0 ≡ going q)
  unfolding walk_stream next
  next_going walk records (going p', w') q h = (p', w', refl, h)
  next_going walk records (ended result, w') q h = cc
  next_going walk records (thrown cause p', w') q h = cc

  -- A loop that goes to the end of the stream went on after the first record.
  pub walk_stream_going :
      (walk : Walk N V W E) (input : V) (records : List V) (p q : Progress) (w : W)
      → (walk_stream walk (input ∷ records) p w).0 ≡ going q
      → (p' : Progress) × (w' : W) × (process_record walk input p (walk.options.host.awaited w)
          ≡ (going p', w'))
        × ((walk_stream walk records p' w').0 ≡ going q)
  walk_stream_going walk input records p q w h =
      next_going walk records (process_record walk input p (walk.options.host.awaited w)) q
        (ap (λ s. s.0) (sym (walk_stream-cons walk input records p w)) ∙ h)

  next_ends :
      (walk : Walk N V W E) (P : Step → Type 0) (records : List V) (s : Step × W)
      → ((p : Progress) (w : W) → P (walk_stream walk records p w).0)
      → P s.0
      → P (next walk records s).0
  unfolding walk_stream next
  next_ends walk P records (going p, w) later here = later p w
  next_ends walk P records (ended result, w) later here = here
  next_ends walk P records (thrown cause p, w) later here = here

  -- What holds of the ends of every iteration, and of the end of the stream, holds of the loop.
  pub walk_stream_ends :
      (walk : Walk N V W E) (P : Step → Type 0)
      → ((p : Progress) → Ends walk p P)
      → ((p : Progress) → P (end_of_stream walk.options.stream_throws p))
      → (records : List V) (p : Progress) (w : W) → P (walk_stream walk records p w).0
  unfolding walk_stream
  walk_stream_ends walk P ends at_end [] p w = at_end p
  walk_stream_ends walk P ends at_end (input ∷ records) p w =
      subst (λ s. P s.0) (sym (walk_stream-cons walk input records p w))
        (next_ends walk P records (process_record walk input p (walk.options.host.awaited w))
          (walk_stream_ends walk P ends at_end records)
          (process_record_ends walk p P (ends p) input (walk.options.host.awaited w)))
