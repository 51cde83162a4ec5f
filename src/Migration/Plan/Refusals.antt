-- ===== src/Migration/Plan/Refusals.antt =====
-- `planMigration` of migrations/plan-migration.ts of packages/schema: the plans that take no chain of
-- several hops, and the refusals of a breaking change.
use neko_stack.Common.{
  ◌≤◌, ◌≡◌, refl, Option, none, some, List, [], ◌∷◌, arith, length, inl, ◌↔◌, In,
}
use neko_stack.Schema.Issues.{Result, success, failure}
use neko_stack.Migration.Types.{MigrationEntry, Adjacency, MigrationPlan, MigrationPlanOpts}
use neko_stack.Migration.Chains.Simple.{enumerate_chains-In_iff}
use neko_stack.Migration.Plan.{
  choose_chain, plan_breaking, chain_broken_issue, ambiguous_chain_issue, not_found_issue,
}
use neko_stack.Migration.Plan.Outcomes.{IsBridge, In-single}

module _ {N V : Type 0} where
  -- How the planner answers a breaking change, from the migrations of the schema.
  pub data Answer (opts : MigrationPlanOpts N V) (found : Option (Adjacency V))
      (result : Result (MigrationPlan V)) : Type 0 where
    -- there are none
    nothing :
        ((adjacency : Adjacency V) → found ≡ some adjacency → adjacency ≡ [])
        → result ≡ failure (not_found_issue opts.schema_id opts.from_version opts.to_version ∷ [])
        → Answer opts found result
    -- no chain bridges the versions
    broken :
        (adjacency : Adjacency V)
        → found ≡ some adjacency
        → ((c : List (MigrationEntry V)) → ¬ IsBridge opts adjacency c)
        → result
          ≡ failure (chain_broken_issue opts.schema_id opts.from_version opts.to_version ∷ [])
        → Answer opts found result
    -- exactly one chain does
    bridged :
        (adjacency : Adjacency V) (plan : MigrationPlan V)
        → found ≡ some adjacency
        → ((c : List (MigrationEntry V)) → IsBridge opts adjacency c ↔ (c ≡ plan.chain))
        → result ≡ success plan
        → Answer opts found result
    -- several chains are found
    ambiguous :
        (adjacency : Adjacency V) (chains : List (List (MigrationEntry V)))
        → found ≡ some adjacency
        → 2 ≤ length chains
        → ((c : List (MigrationEntry V)) → In c chains ↔ IsBridge opts adjacency c)
        → result
          ≡ failure
              (ambiguous_chain_issue opts.schema_id opts.from_version opts.to_version chains ∷ [])
        → Answer opts found result

  choose_chain-Answer :
      (opts : MigrationPlanOpts N V) (adjacency : Adjacency V)
      (chains : List (List (MigrationEntry V)))
      → ((c : List (MigrationEntry V)) → In c chains ↔ IsBridge opts adjacency c)
      → Answer opts (some adjacency) (choose_chain opts chains)
  unfolding choose_chain
  choose_chain-Answer opts adjacency [] exact =
      Answer.broken adjacency refl (λ c w. elim ((exact c).1 w) [ ]) refl
  choose_chain-Answer opts adjacency (chain ∷ []) exact =
      Answer.bridged adjacency _ refl
        (λ c. (λ w. In-single c chain ((exact c).1 w), λ e. (exact c).0 (inl e))) refl
  choose_chain-Answer opts adjacency (c ∷ d ∷ more) exact =
      Answer.ambiguous adjacency (c ∷ d ∷ more) refl (omega arith) exact refl

  -- A breaking change is answered in one of four ways: no migrations of the schema are registered,
  -- no chain bridges the versions, exactly one does and is the plan's, or several are found and the
  -- planner refuses to pick one of them.
  pub plan_breaking-Answer :
      (opts : MigrationPlanOpts N V) (found : Option (Adjacency V))
      → Answer opts found (plan_breaking opts found)
  unfolding plan_breaking
  plan_breaking-Answer opts none = Answer.nothing (λ adjacency e. cc) refl
  plan_breaking-Answer opts (some []) = Answer.nothing (λ adjacency e. cc) refl
  plan_breaking-Answer opts (some (hop ∷ hops)) =
      let (chains, found, exact) =
        enumerate_chains-In_iff (hop ∷ hops) opts.from_version opts.to_version in
      rw found (choose_chain-Answer opts (hop ∷ hops) chains exact)
