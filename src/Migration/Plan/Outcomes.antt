-- ===== src/Migration/Plan/Outcomes.antt =====
-- `planMigration` of migrations/plan-migration.ts of packages/schema: what its plans and its refusals
-- say of the graph of migrations.
use neko_stack.Common.{
  String, ◌≡◌, refl, ap, sym, ◌∙◌, subst, Option, none, some, List, [], ◌∷◌, arith, inl, inr, ◌↔◌,
  In,
}
use neko_stack.Js.JsMap.{get}
use neko_stack.Js.Json.{JsNumber}
use neko_stack.Schema.Issues.{Result, success}
use neko_stack.Schema.Registry.{RegistryEntry, find_schema}
use neko_stack.Schema.Diff.Changes.{
  DiffSeverity, breaking, additive, cosmetic, DiffChange, compute_worst_severity,
}
use neko_stack.Schema.Diff.Walk.{Diffed-cases, ok, diff_nodes}
use neko_stack.Migration.Types.{MigrationEntry, Adjacency, MigrationPlan, MigrationPlanOpts}
use neko_stack.Migration.Chains.Simple.{enumerate_chains-In_iff}
use neko_stack.Migration.Chains.Sound.{IsChainFrom}
use neko_stack.Migration.Plan.{
  choose_chain, choose_enumerated, plan_breaking, plan_by_severity, plan_between, plan_migration,
  find_exact_migration, version_path_from_chain, hop_targets,
}

pub In-single : {A : Type 0} (x y : A) → In x (y ∷ []) → x ≡ y
In-single x y (inl e) = e
In-single x y (inr h) = elim h [ ]

version_path-cons :
    {V : Type 0} (adjacency : Adjacency V) (visited : List String) (from to : String)
    (chain : List (MigrationEntry V))
    → IsChainFrom adjacency visited from to chain
    → version_path_from_chain from chain ≡ from ∷ hop_targets chain
unfolding version_path_from_chain
version_path-cons adjacency visited from to [] (hop, hops, same, w, f) = cc
version_path-cons adjacency visited from to (entry ∷ chain) w = refl

module _ {N V : Type 0} where
  -- A chain that bridges the two versions of the request.
  abbrev pub IsBridge : MigrationPlanOpts N V → Adjacency V → List (MigrationEntry V) → Type 0
  IsBridge opts adjacency =
      IsChainFrom adjacency (opts.from_version ∷ []) opts.from_version opts.to_version

  -- What a plan for a breaking change promises.
  abbrev pub IsTheBridge : MigrationPlanOpts N V → MigrationPlan V → Adjacency V → Type 0
  IsTheBridge opts plan adjacency =
      IsBridge opts adjacency plan.chain
      × ((c : List (MigrationEntry V)) → IsBridge opts adjacency c → c ≡ plan.chain)
      × (plan.version_path ≡ opts.from_version ∷ hop_targets plan.chain)

  choose_chain_success :
      (opts : MigrationPlanOpts N V) (adjacency : Adjacency V)
      (chains : List (List (MigrationEntry V))) (plan : MigrationPlan V)
      → ((c : List (MigrationEntry V)) → In c chains ↔ IsBridge opts adjacency c)
      → choose_chain opts chains ≡ success plan
      → IsTheBridge opts plan adjacency
  unfolding choose_chain
  choose_chain_success opts adjacency [] plan exact h = cc
  choose_chain_success opts adjacency (c ∷ d ∷ more) plan exact h = cc
  choose_chain_success opts adjacency (chain ∷ []) plan exact h =
      let same : chain ≡ plan.chain = ground arith in
      let path : version_path_from_chain opts.from_version chain ≡ plan.version_path =
        ground arith in
      let bridge = (exact chain).0 (inl refl) in
      (
        subst (IsBridge opts adjacency) same bridge,
        λ c w. In-single c chain ((exact c).1 w) ∙ same,
        sym path
            ∙ version_path-cons adjacency _ _ _ chain bridge
            ∙ ap (λ c. opts.from_version ∷ hop_targets c) same,
      )

  plan_breaking_success :
      (opts : MigrationPlanOpts N V) (found : Option (Adjacency V)) (plan : MigrationPlan V)
      → plan_breaking opts found ≡ success plan
      → (adjacency : Adjacency V) × (found ≡ some adjacency) × IsTheBridge opts plan adjacency
  unfolding plan_breaking
  plan_breaking_success opts none plan h = cc
  plan_breaking_success opts (some []) plan h = cc
  plan_breaking_success opts (some (hop ∷ hops)) plan h =
      let (chains, found, exact) =
        enumerate_chains-In_iff (hop ∷ hops) opts.from_version opts.to_version in
      (hop ∷ hops, refl, choose_chain_success opts (hop ∷ hops) chains plan exact (rw found at h))

  choose_enumerated_worst :
      (opts : MigrationPlanOpts N V) (found : Option (List (List (MigrationEntry V))))
      (plan : MigrationPlan V)
      → choose_enumerated opts found ≡ success plan
      → plan.worst_severity ≡ some breaking
  unfolding choose_chain
  choose_enumerated_worst opts none plan h = cc
  choose_enumerated_worst opts (some []) plan h = cc
  choose_enumerated_worst opts (some (c ∷ [])) plan h = ground arith
  choose_enumerated_worst opts (some (c ∷ d ∷ more)) plan h = cc

  plan_breaking_worst :
      (opts : MigrationPlanOpts N V) (found : Option (Adjacency V)) (plan : MigrationPlan V)
      → plan_breaking opts found ≡ success plan
      → plan.worst_severity ≡ some breaking
  unfolding plan_breaking
  plan_breaking_worst opts none plan h = cc
  plan_breaking_worst opts (some []) plan h = cc
  plan_breaking_worst opts (some (hop ∷ hops)) plan h = choose_enumerated_worst opts _ plan h

  pub plan_by_severity_worst :
      (opts : MigrationPlanOpts N V) (exact : Option (MigrationEntry V))
      (worst : Option DiffSeverity) (plan : MigrationPlan V)
      → plan_by_severity opts exact worst ≡ success plan
      → plan.worst_severity ≡ worst
  unfolding plan_by_severity
  plan_by_severity_worst opts exact none plan h = ground arith
  plan_by_severity_worst opts exact (some cosmetic) plan h = ground arith
  plan_by_severity_worst opts none (some additive) plan h = ground arith
  plan_by_severity_worst opts (some e) (some additive) plan h = ground arith
  plan_by_severity_worst opts exact (some breaking) plan h =
      plan_breaking_worst opts (get opts.schema_id opts.migration_registry) plan h

  plan_by_severity_breaking :
      (opts : MigrationPlanOpts N V) (exact : Option (MigrationEntry V))
      (worst : Option DiffSeverity) (plan : MigrationPlan V)
      → plan_by_severity opts exact worst ≡ success plan
      → plan.worst_severity ≡ some breaking
      → (adjacency : Adjacency V) × (get opts.schema_id opts.migration_registry ≡ some adjacency)
        × IsTheBridge opts plan adjacency
  unfolding plan_by_severity
  plan_by_severity_breaking opts exact none plan h b = cc
  plan_by_severity_breaking opts exact (some cosmetic) plan h b = cc
  plan_by_severity_breaking opts none (some additive) plan h b = cc
  plan_by_severity_breaking opts (some e) (some additive) plan h b = cc
  plan_by_severity_breaking opts exact (some breaking) plan h b =
      plan_breaking_success opts (get opts.schema_id opts.migration_registry) plan h

module _ {N V : Type 0} ⦃js : JsNumber N⦄ where
  abbrev pub severity_plan : MigrationPlanOpts N V → List (DiffChange N) → Result (MigrationPlan V)
  severity_plan opts changes =
      plan_by_severity opts
        (find_exact_migration opts.migration_registry opts.schema_id opts.from_version
          opts.to_version)
        (compute_worst_severity changes)

  -- The two nodes, and the changes between them, that a plan rests on.
  pub record IsPlanned (opts : MigrationPlanOpts N V) (from to : Option (RegistryEntry N))
      (plan : Result (MigrationPlan V)) : Type 0 where
    pub from_entry : RegistryEntry N
    pub to_entry : RegistryEntry N
    pub changes : List (DiffChange N)
    pub from_found : from ≡ some from_entry
    pub to_found : to ≡ some to_entry
    pub diffed : diff_nodes from_entry.schema.node to_entry.schema.node ≡ ok changes
    pub planned : severity_plan opts changes ≡ plan

  plan_between_success :
      (opts : MigrationPlanOpts N V) (from to : Option (RegistryEntry N)) (plan : MigrationPlan V)
      → plan_between opts from to ≡ ok (success plan)
      → IsPlanned opts from to (success plan)
  unfolding plan_between
  plan_between_success opts (some from) (some to) plan h =
      elim (Diffed-cases (diff_nodes from.schema.node to.schema.node)) [
        | inl (changes, e) ↦ record {
          from_entry = from;
          to_entry = to;
          changes = changes;
          from_found = refl;
          to_found = refl;
          diffed = e;
          planned = cc (rw e at h);
        }
        | inr (k, e) ↦ cc (rw e at h)
      ]
  plan_between_success opts none to plan h = cc
  plan_between_success opts (some from) none plan h = cc

  pub plan_migration_success :
      (opts : MigrationPlanOpts N V) (plan : MigrationPlan V)
      → plan_migration opts ≡ ok (success plan)
      → IsPlanned opts
          (find_schema opts.schema_registry opts.schema_id opts.from_version)
          (find_schema opts.schema_registry opts.schema_id opts.to_version)
          (success plan)
  unfolding plan_migration
  plan_migration_success opts plan h = plan_between_success opts _ _ plan h

  -- A plan for a breaking change has a chain that is a simple walk of registered migrations of the
  -- schema from the one version to the other, there is no other such chain, and the version path
  -- lists the first version and the target of each migration of the chain.
  pub plan_migration_breaking :
      (opts : MigrationPlanOpts N V) (plan : MigrationPlan V)
      → plan_migration opts ≡ ok (success plan)
      → plan.worst_severity ≡ some breaking
      → (adjacency : Adjacency V) × (get opts.schema_id opts.migration_registry ≡ some adjacency)
        × IsTheBridge opts plan adjacency
  plan_migration_breaking opts plan h b =
      plan_by_severity_breaking opts _ _ plan (plan_migration_success opts plan h).planned b

  -- A plan's worst severity is that of the diff between the two registered versions.
  pub plan_migration_severity :
      (opts : MigrationPlanOpts N V) (plan : MigrationPlan V)
      → plan_migration opts ≡ ok (success plan)
      → (from to : RegistryEntry N) × (changes : List (DiffChange N)) × (find_schema
            opts.schema_registry opts.schema_id opts.from_version
          ≡ some from)
        × (find_schema opts.schema_registry opts.schema_id opts.to_version ≡ some to)
        × (diff_nodes from.schema.node to.schema.node ≡ ok changes)
        × (plan.worst_severity ≡ compute_worst_severity changes)
  plan_migration_severity opts plan h =
      let p = plan_migration_success opts plan h in
      (
        p.from_entry,
        p.to_entry,
        p.changes,
        p.from_found,
        p.to_found,
        p.diffed,
        plan_by_severity_worst opts _ _ plan p.planned,
      )
