-- ===== src/Migration/Plan/Direct.antt =====
-- `planMigration` of migrations/plan-migration.ts of packages/schema: the plans for what is no
-- breaking change, which take the migration of the exact pair or none.
use neko_stack.Common.{
  ◌≡◌, ◌≢◌, ◌∙◌, subst, ap₂, refl, Option, none, some, [], ◌∷◌, arith, inl, inr, ◌⊎◌, ◌↔◌,
}
use neko_stack.Js.Json.{JsNumber}
use neko_stack.Schema.Issues.{Result, success}
use neko_stack.Schema.Registry.{RegistryEntry, find_schema}
use neko_stack.Schema.Diff.Changes.{
  DiffSeverity, breaking, additive, cosmetic, compute_worst_severity,
}
use neko_stack.Schema.Diff.Walk.{ok}
use neko_stack.Schema.Diff.Self.{IsDiffable, diff_nodes_self}
use neko_stack.Migration.Types.{
  MigrationEntry, MigrationPlan, MigrationPlanOpts, over_specified, additive_no_migration,
}
use neko_stack.Migration.Plan.{
  plan_by_severity, plan_between, plan_migration, direct_plan, find_exact_migration,
  over_specified_notes,
}
use neko_stack.Migration.Plan.Outcomes.{plan_migration_success, plan_by_severity_worst}

module _ {V : Type 0} where
  -- The chain is the migration `exact` at an additive change and empty otherwise, and the notes name
  -- what is registered and not used, or an additive change with nothing registered.
  abbrev pub IsDirect : Option (MigrationEntry V) → MigrationPlan V → Type 0
  IsDirect exact plan =
      ((entry : MigrationEntry V)
        → (plan.chain ≡ entry ∷ [])
          ↔ ((exact ≡ some entry) × (plan.worst_severity ≡ some additive)))
      × ((plan.chain ≡ []) ↔ ((exact ≡ none) ⊎ (plan.worst_severity ≢ some additive)))
      × ((entry : MigrationEntry V)
          → (plan.notes ≡ over_specified entry ∷ [])
            ↔ ((exact ≡ some entry) × (plan.worst_severity ≢ some additive)))
      × ((plan.notes ≡ additive_no_migration additive ∷ [])
          ↔ ((exact ≡ none) × (plan.worst_severity ≡ some additive)))

  unused-IsDirect :
      (exact : Option (MigrationEntry V)) (plan : MigrationPlan V)
      → plan.chain ≡ []
      → plan.worst_severity ≢ some additive
      → plan.notes ≡ over_specified_notes exact
      → IsDirect exact plan
  unused-IsDirect none plan empty loose notes = (
    (λ e. ((λ h. cc), (λ (h, w). absurd (loose w)))),
    ((λ h. inl refl), (λ h. empty)),
    (λ e. ((λ h. cc), (λ (h, w). cc))),
    ((λ h. cc), (λ (h, w). absurd (loose w))),
  )
  unused-IsDirect (some m) plan empty loose notes = (
    (λ e. ((λ h. cc), (λ (h, w). absurd (loose w)))),
    ((λ h. inr loose), (λ h. empty)),
    (λ e. ((λ h. (cc, loose)), (λ (h, w). cc))),
    ((λ h. cc), (λ (h, w). absurd (loose w))),
  )

  additive-IsDirect :
      (exact : Option (MigrationEntry V)) (plan : MigrationPlan V)
      → plan.worst_severity ≡ some additive
      → plan.chain ≡ (elim exact [ none ↦ [] | some m ↦ m ∷ [] ])
      → plan.notes ≡ (elim exact [ none ↦ additive_no_migration additive ∷ [] | some m ↦ [] ])
      → IsDirect exact plan
  additive-IsDirect none plan worst chain notes = (
    (λ e. ((λ h. cc), (λ (h, w). cc))),
    ((λ h. inl refl), (λ h. chain)),
    (λ e. ((λ h. cc), (λ (h, w). absurd (w worst)))),
    ((λ h. (refl, worst)), (λ h. notes)),
  )
  additive-IsDirect (some m) plan worst chain notes = (
    (λ e. ((λ h. (cc, worst)), (λ (h, w). cc))),
    ((λ h. cc), (λ h. elim h [ inl e ↦ cc | inr w ↦ absurd (w worst) ])),
    (λ e. ((λ h. cc), (λ (h, w). absurd (w worst)))),
    ((λ h. cc), (λ (h, w). cc)),
  )

module _ {N V : Type 0} where
  plan_by_severity-IsDirect :
      (opts : MigrationPlanOpts N V) (exact : Option (MigrationEntry V))
      (worst : Option DiffSeverity) (plan : MigrationPlan V)
      → plan_by_severity opts exact worst ≡ success plan
      → worst ≢ some breaking
      → (plan.version_path ≡ opts.from_version ∷ opts.to_version ∷ []) × IsDirect exact plan
  unfolding plan_by_severity
  plan_by_severity-IsDirect opts exact none plan h b =
      (ground arith, unused-IsDirect exact plan (ground arith) (ground arith) (ground arith))
  plan_by_severity-IsDirect opts exact (some cosmetic) plan h b =
      (ground arith, unused-IsDirect exact plan (ground arith) (ground arith) (ground arith))
  plan_by_severity-IsDirect opts none (some additive) plan h b =
      (ground arith, additive-IsDirect none plan (ground arith) (ground arith) (ground arith))
  plan_by_severity-IsDirect opts (some e) (some additive) plan h b =
      (ground arith, additive-IsDirect (some e) plan (ground arith) (ground arith) (ground arith))
  plan_by_severity-IsDirect opts exact (some breaking) plan h b = absurd (b refl)

module _ {N V : Type 0} ⦃js : JsNumber N⦄ where
  -- A plan for what is no breaking change has the two versions for its path. Its chain is a migration
  -- exactly where that is registered for the very pair and the change is additive, and otherwise
  -- empty. A note names a migration exactly where it is registered for the pair and the change is not
  -- additive, and a note says that there is none exactly where the change is additive and nothing is
  -- registered for the pair.
  pub plan_migration-IsDirect :
      (opts : MigrationPlanOpts N V) (plan : MigrationPlan V)
      → plan_migration opts ≡ ok (success plan)
      → plan.worst_severity ≢ some breaking
      → (plan.version_path ≡ opts.from_version ∷ opts.to_version ∷ [])
        × IsDirect
            (find_exact_migration opts.migration_registry opts.schema_id opts.from_version
              opts.to_version)
            plan
  plan_migration-IsDirect opts plan h b =
      let p = plan_migration_success opts plan h in
      plan_by_severity-IsDirect opts _ (compute_worst_severity p.changes) plan p.planned
        (λ e. b (plan_by_severity_worst opts _ _ plan p.planned ∙ e))

  abbrev same_plan : MigrationPlanOpts N V → Result (MigrationPlan V)
  same_plan opts = direct_plan opts [] none (
      over_specified_notes (
        find_exact_migration opts.migration_registry opts.schema_id opts.from_version
          opts.to_version))

  plan_between_same :
      (opts : MigrationPlanOpts N V) (entry : RegistryEntry N)
      → IsDiffable entry.schema.node
      → plan_between opts (some entry) (some entry) ≡ ok (same_plan opts)
  unfolding plan_between
  plan_between_same opts entry diffable = rw (diff_nodes_self entry.schema.node diffable)

  -- Planning from a registered version to itself gives the empty chain, where its node is one that
  -- the classifier can compare.
  pub plan_migration_same :
      (opts : MigrationPlanOpts N V) (entry : RegistryEntry N)
      → opts.from_version ≡ opts.to_version
      → find_schema opts.schema_registry opts.schema_id opts.from_version ≡ some entry
      → IsDiffable entry.schema.node
      → plan_migration opts
        ≡ ok (
            direct_plan opts [] none (
              over_specified_notes (
                find_exact_migration opts.migration_registry opts.schema_id opts.from_version
                  opts.to_version)))
  unfolding plan_migration
  plan_migration_same opts entry same found diffable =
      let found_to =
        subst (λ v. find_schema opts.schema_registry opts.schema_id v ≡ some entry) same found in
      ap₂ (plan_between opts) found found_to ∙ plan_between_same opts entry diffable
