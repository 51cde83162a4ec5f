-- ===== src/Migration/Tests.antt =====
-- Tests of the planner on the migrations of the sample schema.
use neko_stack.Common.{
  ◌⊎◌, String, ℕ, ◌≡◌, ◌↔◌, refl, none, some, List, [], ◌∷◌, ◌++◌, map, arith, inr, In,
}
use neko_stack.Js.JsMap.{get, includes}
use neko_stack.Samples.{
  nat_number, user2, schemas, hops, migrations, first_migration, second_migration, request,
  registered,
}
use neko_stack.Schema.Issues.{success}
use neko_stack.Schema.Registry.{RegistryEntry, find_schema}
use neko_stack.Schema.Diff.Changes.{breaking, additive, DiffChange, compute_worst_severity}
use neko_stack.Schema.Diff.Walk.{own_field, ok, diff_nodes}
use neko_stack.Schema.Diff.Self.{IsDiffable}
use neko_stack.Migration.Types.{MigrationEntry, Adjacency, MigrationPlan}
use neko_stack.Migration.Chains.{dfs, enumerate_chains}
use neko_stack.Migration.Chains.Paths.{paths, unseen, dfs-paths}
use neko_stack.Migration.Chains.Simple.{enumerate_chains-In_iff}
use neko_stack.Migration.Chains.Sound.{IsChainFrom}
use neko_stack.Migration.Verify.{classify_migration, iterate_registry, verify_migration_provenance}
use neko_stack.Migration.Verify.Matrix.{
  AreEndpoints, IsIrCurrent, IsSourceCurrent, classify_migration_matrix,
}
use neko_stack.Migration.Verify.Verdicts.{
  judged, verdicts_of, refused_verdicts, verify_migration_provenance-judged,
}
use neko_stack.Migration.Verify.Iteration.{In-iterate_registry_iff}
use neko_stack.Migration.Types.{VerdictStatus, MigrationVerifyOpts}
use neko_stack.Migration.Plan.{
  plan_migration, plan_breaking, direct_plan, find_exact_migration, over_specified_notes,
}
use neko_stack.Migration.Plan.Outcomes.{
  IsTheBridge, plan_migration_breaking, plan_migration_severity,
}
use neko_stack.Migration.Plan.Direct.{IsDirect, plan_migration-IsDirect, plan_migration_same}
use neko_stack.Migration.Plan.Refusals.{Answer, plan_breaking-Answer}

abbrev plan12 : MigrationPlan ℕ
plan12 = record {
  schema_id = "user";
  chain = first_migration ∷ [];
  version_path = "1" ∷ "2" ∷ [];
  worst_severity = some breaking;
  notes = [];
}

abbrev plan23 : MigrationPlan ℕ
plan23 = record {
  schema_id = "user";
  chain = second_migration ∷ [];
  version_path = "2" ∷ "3" ∷ [];
  worst_severity = some additive;
  notes = [];
}

plan12_lem : plan_migration {N = ℕ} (request "1" "2") ≡ ok (success plan12)
unfolding plan_migration
plan12_lem = refl

plan23_lem : plan_migration {N = ℕ} (request "2" "3") ≡ ok (success plan23)
unfolding plan_migration
plan23_lem = refl

enumerate_test :
    enumerate_chains hops "1" "3" ≡ some ((first_migration ∷ second_migration ∷ []) ∷ [])
unfolding enumerate_chains
enumerate_test = refl

dfs-paths_example :
    dfs 4 hops "3" "1" (record { visited = "1" ∷ []; chain = []; out = [] })
    ≡ some (record {
      visited = "1" ∷ [];
      chain = [];
      out = [] ++ map (λ c. [] ++ c) (paths 4 hops "3" ("1" ∷ []) "1");
    })
unfolding unseen includes
dfs-paths_example = dfs-paths 4 hops "3" ("1" ∷ []) "1" [] [] (omega arith, inr (omega arith))

enumerate_chains-In_iff_example :
    (chains : List (List (MigrationEntry ℕ))) × (enumerate_chains hops "1" "3" ≡ some chains)
    × ((c : List (MigrationEntry ℕ)) → In c chains ↔ IsChainFrom hops ("1" ∷ []) "1" "3" c)
enumerate_chains-In_iff_example = enumerate_chains-In_iff hops "1" "3"

plan_migration_breaking_example :
    (adjacency : Adjacency ℕ) × (get "user" migrations ≡ some adjacency)
    × IsTheBridge {N = ℕ} (request "1" "2") plan12 adjacency
plan_migration_breaking_example = plan_migration_breaking (request "1" "2") plan12 plan12_lem refl

plan_migration_severity_example :
    (from to : RegistryEntry ℕ) × (changes : List (DiffChange ℕ)) × (find_schema schemas "user" "2"
      ≡ some from)
    × (find_schema schemas "user" "3" ≡ some to)
    × (diff_nodes from.schema.node to.schema.node ≡ ok changes)
    × (some additive ≡ compute_worst_severity changes)
plan_migration_severity_example = plan_migration_severity (request "2" "3") plan23 plan23_lem

plan_migration-IsDirect_example :
    (plan23.version_path ≡ "2" ∷ "3" ∷ [])
    × IsDirect (find_exact_migration migrations "user" "2" "3") plan23
plan_migration-IsDirect_example =
    plan_migration-IsDirect (request "2" "3") plan23 plan23_lem (λ e. cc)

plan_migration_same_example :
    plan_migration {N = ℕ} (request "2" "2")
    ≡ ok (
        direct_plan
          (request "2" "2")
          []
          none
          (over_specified_notes (find_exact_migration migrations "user" "2" "2")))
unfolding find_schema IsDiffable own_field
plan_migration_same_example =
    plan_migration_same (request "2" "2") (registered "2" "i2" "s2" user2) refl refl
      (refl, tt, (refl, tt, tt))

plan_breaking-Answer_example :
    Answer {N = ℕ} (request "1" "3") (some hops) (plan_breaking (request "1" "3") (some hops))
plan_breaking-Answer_example = plan_breaking-Answer (request "1" "3") (some hops)

abbrev stale : MigrationEntry ℕ
stale = record first_migration { to_ir_hash = "i9" }

classify_migration_matrix_example :
    (((classify_migration stale schemas).status ≡ VerdictStatus.bound)
      ↔ AreEndpoints
          (find_schema schemas "user" "1")
          (find_schema schemas "user" "2")
          (λ f t. IsIrCurrent stale f t × IsSourceCurrent stale f t))
    × (((classify_migration stale schemas).status ≡ VerdictStatus.cosmetic_drift)
        ↔ AreEndpoints
            (find_schema schemas "user" "1")
            (find_schema schemas "user" "2")
            (λ f t. IsIrCurrent stale f t × ¬ IsSourceCurrent stale f t))
    × (((classify_migration stale schemas).status ≡ VerdictStatus.drift)
        ↔ AreEndpoints
            (find_schema schemas "user" "1")
            (find_schema schemas "user" "2")
            (λ f t. ¬ IsIrCurrent stale f t))
    × (((classify_migration stale schemas).status ≡ VerdictStatus.missing_endpoint)
        ↔ ((find_schema schemas "user" "1" ≡ none) ⊎ (find_schema schemas "user" "2" ≡ none)))
classify_migration_matrix_example = classify_migration_matrix stale schemas

abbrev both : MigrationVerifyOpts ℕ ℕ
both = record { schema_registry = schemas; migration_registry = migrations }

verify_migration_provenance-judged_example :
    verify_migration_provenance both
    ≡ judged
        (verdicts_of schemas (iterate_registry migrations))
        (refused_verdicts (verdicts_of schemas (iterate_registry migrations)))
verify_migration_provenance-judged_example = verify_migration_provenance-judged both

In-iterate_registry_iff_example :
    In second_migration (iterate_registry migrations)
    ↔ ((s f t : String) × (find_exact_migration migrations s f t ≡ some second_migration))
In-iterate_registry_iff_example = In-iterate_registry_iff second_migration migrations
