-- ===== src/Runner/Preflight/Scoped.antt =====
-- `buildChainScopedRegistry` of pre-flight.ts of packages/migrate-runner: what the registry that it
-- builds holds.
use neko_stack.Common.{String, ◌≡◌, refl, ap, ◌∙◌, Option, none, some, List, [], ◌∷◌, if◌then◌else◌}
use neko_stack.Migration.Types.{MigrationEntry, MigrationRegistry}
use neko_stack.Migration.Plan.{find_exact_migration}
use neko_stack.Migration.Filing.{
  has_key, find_by, find_exact_migration-find_by, file_entry, find_by-file_entry,
}
use neko_stack.Runner.Preflight.{file_entries, build_chain_scoped_registry}

module _ {V : Type 0} where
  -- The last entry of the chain with this schema id and these versions, or else the one given.
  unfoldable pub last_with :
      String
      → String
      → String
      → List (MigrationEntry V)
      → Option (MigrationEntry V)
      → Option (MigrationEntry V)
  last_with s f t [] found = found
  last_with s f t (entry ∷ chain) found =
      last_with s f t chain (if has_key s f t entry then some entry else found)

  find_by-file_entries :
      (chain : List (MigrationEntry V)) (out : MigrationRegistry V) (s f t : String)
      → find_by (file_entries chain out) s f t ≡ last_with s f t chain (find_by out s f t)
  unfolding file_entries last_with
  find_by-file_entries [] out s f t = refl
  find_by-file_entries (entry ∷ chain) out s f t =
      find_by-file_entries chain (file_entry entry out) s f t
      ∙ ap (last_with s f t chain) (find_by-file_entry entry out s f t)

  -- The chain-scoped registry files, under a schema id and two versions, the last entry of the chain
  -- that has them, and nothing where there is none.
  pub find_exact_migration-build_chain_scoped_registry :
      (chain : List (MigrationEntry V)) (s f t : String)
      → find_exact_migration (build_chain_scoped_registry chain) s f t ≡ last_with s f t chain none
  unfolding build_chain_scoped_registry find_by
  find_exact_migration-build_chain_scoped_registry chain s f t =
      find_exact_migration-find_by (build_chain_scoped_registry chain) s f t
      ∙ find_by-file_entries chain [] s f t
