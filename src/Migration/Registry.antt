-- ===== src/Migration/Registry.antt =====
-- migrations/build-migration-registry.ts of packages/schema.
pub mod Filed
mod Tests
use neko_stack.Common.{String, Option, none, some, List, [], ◌∷◌, ◌++◌, map}
use neko_stack.Js.Text.{template, join}
use neko_stack.Js.JsMap.{set}
use neko_stack.Schema.Issues.{
  Issue, IssueSeverity, MetadataValue, text, texts, PathSegment, duplicate_migration, Result,
  success, failure,
}
use neko_stack.Migration.Types.{AnyMigration, MigrationEntry, MigrationRegistry}
use neko_stack.Migration.Filing.{file_entry, find_by}
use neko_stack.Migration.Provenance.{
  ParsedMigrationProvenance, parse_migration_provenance_from_text,
}

pub record MigrationSourceEntry (V : Type 0) : Type 0 where
  pub source_path : String
  pub source_text : String
  pub migration : AnyMigration V

-- The variables of the loop.
pub record Building (V : Type 0) : Type 0 where
  pub out : MigrationRegistry V
  pub issues : List Issue

abbrev metadata_or_empty : Option (List (String × MetadataValue)) → List (String × MetadataValue)
metadata_or_empty none = []
metadata_or_empty (some m) = m

unfoldable pub attach_source_path : String → Issue → Issue
unfolding set
attach_source_path source_path issue = record issue {
  path = PathSegment.key source_path ∷ [];
  metadata = some (set "sourcePath" (text source_path) (metadata_or_empty issue.metadata));
}

unfoldable pub duplicate_migration_issue : String → String → String → List String → Issue
unfolding template join
duplicate_migration_issue schema_id from_version to_version source_paths = record {
  code = duplicate_migration;
  path = [];
  message = template (
      "Duplicate migration for `"
      ∷ schema_id
      ∷ "` "
      ∷ from_version
      ∷ " → "
      ∷ to_version
      ∷ " found in: "
      ∷ join ", " source_paths
      ∷ []);
  severity = IssueSeverity.error;
  metadata = some (
      ("schemaId", text schema_id)
      ∷ ("fromVersion", text from_version)
      ∷ ("toVersion", text to_version)
      ∷ ("sourcePaths", texts source_paths)
      ∷ []);
}

module _ {V : Type 0} where
  unfoldable pub build_entry : MigrationSourceEntry V → ParsedMigrationProvenance → MigrationEntry V
  build_entry entry prov = record {
    schema_id = prov.schema_id;
    from_version = prov.from_version;
    to_version = prov.to_version;
    from_ir_hash = prov.from_ir_hash;
    to_ir_hash = prov.to_ir_hash;
    from_source_hash = prov.from_source_hash;
    to_source_hash = prov.to_source_hash;
    source_path = entry.source_path;
    migration = entry.migration;
  }

  -- What follows `byTo.get(toVersion)`: the first entry stays. The maps on the way that were missing
  -- are set in each case; where there is an entry, none was missing.
  unfoldable pub file_unless :
      Option (MigrationEntry V) → MigrationEntry V → Building V → Building V
  unfolding file_entry duplicate_migration_issue
  file_unless (some existing) entry s = record s {
    issues =
        s.issues
        ++ duplicate_migration_issue entry.schema_id entry.from_version entry.to_version
            (existing.source_path ∷ entry.source_path ∷ [])
          ∷ [];
  }
  file_unless none entry s = record s { out = file_entry entry s.out }

  -- A round of the loop.
  unfoldable pub file_parsed :
      MigrationSourceEntry V → Result ParsedMigrationProvenance → Building V → Building V
  unfolding attach_source_path build_entry find_by file_unless
  file_parsed entry (failure issues) s = record s {
    issues = s.issues ++ map (attach_source_path entry.source_path) issues;
  }
  file_parsed entry (success prov) s =
      let migration_entry = build_entry entry prov in
      file_unless
        (find_by s.out migration_entry.schema_id migration_entry.from_version
          migration_entry.to_version)
        migration_entry s

  unfoldable pub file_migrations : List (MigrationSourceEntry V) → Building V → Building V
  unfolding parse_migration_provenance_from_text file_parsed
  file_migrations [] s = s
  file_migrations (entry ∷ entries) s =
      file_migrations entries
        (file_parsed entry (parse_migration_provenance_from_text entry.source_text) s)

  abbrev pub built_result : Building V → Result (MigrationRegistry V)
  built_result s = elim s.issues [ [] ↦ success s.out | i ∷ is ↦ failure (i ∷ is) ]

  unfoldable pub build_migration_registry :
      List (MigrationSourceEntry V) → Result (MigrationRegistry V)
  unfolding file_migrations
  build_migration_registry entries =
      built_result (file_migrations entries (record { out = []; issues = [] }))
