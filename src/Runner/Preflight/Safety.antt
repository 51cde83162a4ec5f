-- ===== src/Runner/Preflight/Safety.antt =====
-- `preFlight` of pre-flight.ts of packages/migrate-runner: what a chain that it lets through has.
use neko_stack.Common.{
  String, ◌≡◌, refl, ap, sym, ◌∙◌, subst, Bool, true, false, Option, none, some, List, [], ◌∷◌,
  arith, inl, inr, ◌⊎◌, In, In-map, Bool-cases,
}
use neko_stack.Js.Json.{JsNumber}
use neko_stack.Schema.Issues.{Result, success, failure}
use neko_stack.Schema.Diff.Walk.{Diffed-cases, ok}
use neko_stack.Migration.Types.{
  MigrationEntry, MigrationRegistry, VerdictStatus, MigrationVerdict, VerificationResult,
  MigrationPlan, MigrationPlanOpts,
}
use neko_stack.Migration.Plan.{plan_migration}
use neko_stack.Migration.Verify.{classify_migration, iterate_registry, is_refused}
use neko_stack.Migration.Verify.Verdicts.{
  refused_verdicts, judged, verdicts_of, In-refused_verdicts, In-count_of,
  verify_migration_provenance-judged,
}
use neko_stack.Migration.Verify.Iteration.{In-iterate_registry_iff}
use neko_stack.Runner.Types.{PreFlightOpts, PreFlightSuccess, ready}
use neko_stack.Runner.Preflight.{
  is_allowed, judge_verification, check_chain, check_plan, pre_flight, build_chain_scoped_registry,
}
use neko_stack.Runner.Preflight.Scoped.{last_with, find_exact_migration-build_chain_scoped_registry}

-- The migration is bound to the registered schemas, or its sources drifted cosmetically and the
-- caller allowed that.
abbrev pub IsAdmissible : Option Bool → VerdictStatus → Type 0
IsAdmissible allowed status =
    (status ≡ VerdictStatus.bound)
    ⊎ ((status ≡ VerdictStatus.cosmetic_drift) × (is_allowed allowed ≡ true))

-- A status that is not refused, and is no forbidden drift, is admissible.
IsAdmissible-intro :
    (allowed : Option Bool) (status : VerdictStatus)
    → is_refused status ≡ false
    → (status ≡ VerdictStatus.cosmetic_drift → is_allowed allowed ≡ true)
    → IsAdmissible allowed status
IsAdmissible-intro allowed VerdictStatus.bound h k = inl refl
IsAdmissible-intro allowed VerdictStatus.cosmetic_drift h k = inr (refl, k refl)
IsAdmissible-intro allowed VerdictStatus.drift h k = cc
IsAdmissible-intro allowed VerdictStatus.missing_endpoint h k = cc

module _ {N V : Type 0} where
  judged_ready :
      (opts : PreFlightOpts N V) (plan : MigrationPlan V) (scoped : MigrationRegistry V)
      (vs refused_ones : List MigrationVerdict) (checked : PreFlightSuccess V)
      → refused_verdicts vs ≡ refused_ones
      → judge_verification opts plan scoped (judged vs refused_ones) ≡ ready checked
      → (v : MigrationVerdict) → In v vs
      → IsAdmissible opts.allow_cosmetic_drift v.status
  unfolding judge_verification
  judged_ready opts plan scoped vs (w ∷ ws) checked e h v m = cc
  judged_ready opts plan scoped vs [] checked e h v m =
      IsAdmissible-intro opts.allow_cosmetic_drift v.status (In-refused_verdicts v vs m e)
        (λ cosmetic.
          let some_there = In-count_of v vs VerdictStatus.cosmetic_drift m (rw cosmetic refl) in
          elim (Bool-cases (is_allowed opts.allow_cosmetic_drift)) [
            | inl agreed ↦ agreed
            | inr denied ↦ ground arith
          ])

  judge_verification_chain :
      (opts : PreFlightOpts N V) (plan : MigrationPlan V) (scoped : MigrationRegistry V)
      (verified : Result VerificationResult) (checked : PreFlightSuccess V)
      → judge_verification opts plan scoped verified ≡ ready checked
      → plan.chain ≡ checked.chain
  unfolding judge_verification
  judge_verification_chain opts plan scoped (failure issues) checked h = cc
  judge_verification_chain opts plan scoped (success verified) checked h = ground arith

  check_chain_ready :
      (opts : PreFlightOpts N V) (plan : MigrationPlan V) (chain : List (MigrationEntry V))
      (checked : PreFlightSuccess V)
      → check_chain opts plan chain ≡ ready checked
      → (s f t : String) (e : MigrationEntry V) → last_with s f t chain none ≡ some e
      → IsAdmissible opts.allow_cosmetic_drift (classify_migration e opts.schema_registry).status
  unfolding check_chain last_with
  check_chain_ready opts plan [] checked h s f t e found = cc
  check_chain_ready opts plan (entry ∷ chain) checked h s f t e found =
      let scoped = build_chain_scoped_registry (entry ∷ chain) in
      let filed = find_exact_migration-build_chain_scoped_registry (entry ∷ chain) s f t ∙ found in
      let there = (In-iterate_registry_iff e scoped).1 (s, f, t, filed) in
      let same =
        verify_migration_provenance-judged
          (record { schema_registry = opts.schema_registry; migration_registry = scoped }) in
      judged_ready opts plan scoped (verdicts_of opts.schema_registry (iterate_registry scoped)) _
        checked refl (ap (judge_verification opts plan scoped) (sym same) ∙ h)
        (classify_migration e opts.schema_registry)
        (In-map (λ x. classify_migration x opts.schema_registry) e _ there)

  check_chain_chain :
      (opts : PreFlightOpts N V) (plan : MigrationPlan V) (chain : List (MigrationEntry V))
      (checked : PreFlightSuccess V)
      → plan.chain ≡ chain
      → check_chain opts plan chain ≡ ready checked
      → plan.chain ≡ checked.chain
  unfolding check_chain
  check_chain_chain opts plan [] checked same h = ground arith
  check_chain_chain opts plan (entry ∷ chain) checked same h =
      judge_verification_chain opts plan _ _ checked h

  abbrev plan_opts : PreFlightOpts N V → MigrationPlanOpts N V
  plan_opts opts = record {
    schema_registry = opts.schema_registry;
    migration_registry = opts.migration_registry;
    schema_id = opts.schema_id;
    from_version = opts.from_version;
    to_version = opts.to_version;
  }

  check_plan_ready :
      (opts : PreFlightOpts N V) (result : Result (MigrationPlan V)) (checked : PreFlightSuccess V)
      → check_plan opts result ≡ ready checked
      → (plan : MigrationPlan V) × (result ≡ success plan)
        × (plan.chain ≡ checked.chain)
        × (check_chain opts plan checked.chain ≡ ready checked)
  unfolding check_plan
  check_plan_ready opts (failure issues) checked h = cc
  check_plan_ready opts (success plan) checked h =
      let same = check_chain_chain opts plan plan.chain checked refl h in
      (plan, refl, same, subst (λ c. check_chain opts plan c ≡ ready checked) same h)

module _ {N V : Type 0} ⦃number : JsNumber N⦄ where
  pre_flight_ready :
      (opts : PreFlightOpts N V) (checked : PreFlightSuccess V)
      → pre_flight opts ≡ ok (ready checked)
      → (result : Result (MigrationPlan V)) × (plan_migration (plan_opts opts) ≡ ok result)
        × (check_plan opts result ≡ ready checked)
  unfolding pre_flight
  pre_flight_ready opts checked h = elim (Diffed-cases (plan_migration (plan_opts opts))) [
    | inl (result, e) ↦ (result, e, cc (rw e at h))
    | inr (k, e) ↦ cc (rw e at h)
  ]

  -- Where the pre-flight lets a chain through, it is the chain of the planner's plan, and every
  -- entry of it, but one that a later entry with the same schema id and versions hides, is bound to
  -- the registered schemas, or its sources alone drifted and the caller allowed that.
  pub pre_flight-IsAdmissible :
      (opts : PreFlightOpts N V) (checked : PreFlightSuccess V)
      → pre_flight opts ≡ ok (ready checked)
      → ((plan : MigrationPlan V) × (plan_migration (record {
        schema_registry = opts.schema_registry;
        migration_registry = opts.migration_registry;
        schema_id = opts.schema_id;
        from_version = opts.from_version;
        to_version = opts.to_version;
      })
            ≡ ok (success plan))
          × (plan.chain ≡ checked.chain))
        × ((schema_id from_version to_version : String) (entry : MigrationEntry V)
            → last_with schema_id from_version to_version checked.chain none ≡ some entry
            → IsAdmissible opts.allow_cosmetic_drift
                (classify_migration entry opts.schema_registry).status)
  pre_flight-IsAdmissible opts checked h =
      let (result, planned, judged_plan) = pre_flight_ready opts checked h in
      let (plan, success_plan, same, passed) = check_plan_ready opts result checked judged_plan in
      (
        (plan, planned ∙ ap ok success_plan, same),
        check_chain_ready opts plan checked.chain checked passed,
      )
