-- ===== src/Migration/Plan.antt =====
-- `planMigration` of migrations/plan-migration.ts of packages/schema. The result is that of
-- `diffNodes` where it throws.
pub mod Outcomes
pub mod Direct
pub mod Refusals
use neko_stack.Common.{
  String, Bool, true, false, Option, none, some, List, [], ◌∷◌, ◌++◌, map, length, if◌then◌else◌,
}
use neko_stack.Js.Text.{template, join}
use neko_stack.Js.JsMap.{get, is_some}
use neko_stack.Js.Json.{JsNumber}
use neko_stack.Schema.Issues.{
  Issue, IssueSeverity, MetadataValue, Result, success, failure, migration_missing_endpoint,
  migration_not_found, migration_chain_broken, migration_ambiguous_chain,
}
use neko_stack.Schema.Registry.{RegistryEntry, find_schema}
use neko_stack.Schema.Diff.Changes.{
  DiffSeverity, breaking, additive, cosmetic, compute_worst_severity,
}
use neko_stack.Schema.Diff.Walk.{Diffed, ok, ◌>>=◌, diff_nodes}
use neko_stack.Migration.Types.{
  MigrationEntry, MigrationRegistry, Adjacency, PlanNote, over_specified, additive_no_migration,
  MigrationPlan, MigrationPlanOpts,
}
use neko_stack.Migration.Chains.{enumerate_chains}

abbrev pub transition : String → String → String → List (String × MetadataValue)
transition schema_id from_version to_version =
    ("schemaId", MetadataValue.text schema_id)
    ∷ ("fromVersion", MetadataValue.text from_version)
    ∷ ("toVersion", MetadataValue.text to_version)
    ∷ []

abbrev pub labels : Bool → Bool → String → String → List String
labels from_missing to_missing from to =
    (if from_missing then from ∷ [] else []) ++ (if to_missing then to ∷ [] else [])

unfoldable pub missing_endpoint_issue : String → String → String → Bool → Bool → Issue
unfolding template join
missing_endpoint_issue schema_id from_version to_version from_missing to_missing = record {
  code = migration_missing_endpoint;
  path = [];
  message = template (
      "Cannot plan migration for `"
      ∷ schema_id
      ∷ "`: "
      ∷ join ", " (
          labels from_missing to_missing (template ("from=" ∷ from_version ∷ []))
            (template ("to=" ∷ to_version ∷ [])))
      ∷ " not in the schema registry."
      ∷ []);
  severity = IssueSeverity.error;
  metadata = some (
      transition schema_id from_version to_version
      ++ ("missing", MetadataValue.texts (labels from_missing to_missing "from" "to")) ∷ []);
}

unfoldable pub not_found_issue : String → String → String → Issue
unfolding template
not_found_issue schema_id from_version to_version = record {
  code = migration_not_found;
  path = [];
  message = template (
      "Breaking transition for `" ∷ schema_id ∷ "` requires a migration; "
      ∷ "no migrations are registered for this schemaId." ∷ []);
  severity = IssueSeverity.error;
  metadata = some (transition schema_id from_version to_version);
}

unfoldable pub chain_broken_issue : String → String → String → Issue
unfolding template
chain_broken_issue schema_id from_version to_version = record {
  code = migration_chain_broken;
  path = [];
  message = template (
      "Migrations exist for `" ∷ schema_id ∷ "` but no chain bridges " ∷ from_version ∷ " → "
      ∷ to_version ∷ "." ∷ []);
  severity = IssueSeverity.error;
  metadata = some (transition schema_id from_version to_version);
}

module _ {V : Type 0} where
  abbrev pub chain_summary : List (MigrationEntry V) → String
  unfolding template join
  chain_summary chain =
      join ", " (map (λ entry. template (entry.from_version ∷ "→" ∷ entry.to_version ∷ [])) chain)

  unfoldable pub ambiguous_chain_issue :
      String → String → String → List (List (MigrationEntry V)) → Issue
  unfolding template
  ambiguous_chain_issue schema_id from_version to_version chains = record {
    code = migration_ambiguous_chain;
    path = [];
    message = template (
        "Multiple distinct migration chains bridge `" ∷ schema_id ∷ "` " ∷ from_version ∷ " → "
        ∷ to_version ∷ "; the planner refuses to pick. " ∷ "Remove one or constrain the registry."
        ∷ []);
    severity = IssueSeverity.error;
    metadata = some (
        transition schema_id from_version to_version
        ++ ("chainCount", MetadataValue.count (length chains))
          ∷ ("chainSummaries", MetadataValue.texts (map chain_summary chains))
          ∷ []);
  }

  unfoldable pub find_exact_migration :
      MigrationRegistry V → String → String → String → Option (MigrationEntry V)
  unfolding get
  find_exact_migration registry schema_id from_version to_version = elim (get schema_id registry) [
    | none ↦ none
    | some by_from ↦ elim (get from_version by_from) [
      | none ↦ none
      | some by_to ↦ get to_version by_to
    ]
  ]

  abbrev pub hop_targets : List (MigrationEntry V) → List String
  hop_targets [] = []
  hop_targets (entry ∷ chain) = entry.to_version ∷ hop_targets chain

  unfoldable pub version_path_from_chain : String → List (MigrationEntry V) → List String
  version_path_from_chain from_version [] = from_version ∷ from_version ∷ []
  version_path_from_chain from_version (entry ∷ chain) = from_version ∷ hop_targets (entry ∷ chain)

  abbrev pub over_specified_notes : Option (MigrationEntry V) → List (PlanNote V)
  over_specified_notes none = []
  over_specified_notes (some exact) = over_specified exact ∷ []

module _ {N V : Type 0} where
  -- The breaking branch, once the chains are enumerated.
  unfoldable pub choose_chain :
      MigrationPlanOpts N V → List (List (MigrationEntry V)) → Result (MigrationPlan V)
  unfolding version_path_from_chain chain_broken_issue ambiguous_chain_issue
  choose_chain opts [] =
      failure (chain_broken_issue opts.schema_id opts.from_version opts.to_version ∷ [])
  choose_chain opts (chain ∷ []) = success (record {
    schema_id = opts.schema_id;
    chain = chain;
    version_path = version_path_from_chain opts.from_version chain;
    worst_severity = some breaking;
    notes = [];
  })
  choose_chain opts (chain ∷ other ∷ more) = failure (
      ambiguous_chain_issue opts.schema_id opts.from_version opts.to_version (chain ∷ other ∷ more)
      ∷ [])

  -- `none` stands for fuel that ran out.
  abbrev pub choose_enumerated :
      MigrationPlanOpts N V → Option (List (List (MigrationEntry V))) → Result (MigrationPlan V)
  choose_enumerated opts none = failure []
  choose_enumerated opts (some chains) = choose_chain opts chains

  unfoldable pub plan_breaking :
      MigrationPlanOpts N V → Option (Adjacency V) → Result (MigrationPlan V)
  unfolding choose_chain not_found_issue enumerate_chains
  plan_breaking opts none =
      failure (not_found_issue opts.schema_id opts.from_version opts.to_version ∷ [])
  plan_breaking opts (some []) =
      failure (not_found_issue opts.schema_id opts.from_version opts.to_version ∷ [])
  plan_breaking opts (some (hop ∷ hops)) =
      choose_enumerated opts (enumerate_chains (hop ∷ hops) opts.from_version opts.to_version)

  abbrev pub direct_plan :
      MigrationPlanOpts N V
      → List (MigrationEntry V)
      → Option DiffSeverity
      → List (PlanNote V)
      → Result (MigrationPlan V)
  direct_plan opts chain worst notes = success (record {
    schema_id = opts.schema_id;
    chain = chain;
    version_path = opts.from_version ∷ opts.to_version ∷ [];
    worst_severity = worst;
    notes = notes;
  })

  -- The dispatch on the worst severity.
  unfoldable pub plan_by_severity :
      MigrationPlanOpts N V
      → Option (MigrationEntry V)
      → Option DiffSeverity
      → Result (MigrationPlan V)
  unfolding plan_breaking get
  plan_by_severity opts exact none = direct_plan opts [] none (over_specified_notes exact)
  plan_by_severity opts exact (some cosmetic) =
      direct_plan opts [] (some cosmetic) (over_specified_notes exact)
  plan_by_severity opts (some exact) (some additive) =
      direct_plan opts (exact ∷ []) (some additive) []
  plan_by_severity opts none (some additive) =
      direct_plan opts [] (some additive) (additive_no_migration additive ∷ [])
  plan_by_severity opts exact (some breaking) =
      plan_breaking opts (get opts.schema_id opts.migration_registry)

module _ {N V : Type 0} ⦃number : JsNumber N⦄ where
  unfoldable pub plan_between :
      MigrationPlanOpts N V
      → Option (RegistryEntry N)
      → Option (RegistryEntry N)
      → Diffed (Result (MigrationPlan V))
  unfolding plan_by_severity find_exact_migration diff_nodes compute_worst_severity
      missing_endpoint_issue
  plan_between opts (some from) (some to) = do
    changes ← diff_nodes from.schema.node to.schema.node
    ok (
        plan_by_severity opts
          (find_exact_migration opts.migration_registry opts.schema_id opts.from_version
            opts.to_version)
          (compute_worst_severity changes))
  plan_between opts from to = ok (
      failure (
        missing_endpoint_issue opts.schema_id opts.from_version opts.to_version
          (if is_some from then false else true) (if is_some to then false else true)
        ∷ []))

  unfoldable pub plan_migration : MigrationPlanOpts N V → Diffed (Result (MigrationPlan V))
  unfolding plan_between find_schema
  plan_migration opts =
      plan_between opts (find_schema opts.schema_registry opts.schema_id opts.from_version)
        (find_schema opts.schema_registry opts.schema_id opts.to_version)
