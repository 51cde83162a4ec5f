-- ===== src/Migration/Registry/Tests.antt =====
-- Runs of `buildMigrationRegistry` of packages/schema, and the instance of the theorem about it.
use neko_stack.Common.{ℕ, ◌≡◌, refl, String, true, [], ◌∷◌, In}
use neko_stack.Js.Throws.{returned}
use neko_stack.Schema.Issues.{success}
use neko_stack.Schema.Jsdoc.{is_space, is_word, is_terminator}
use neko_stack.Migration.Types.{AnyMigration, MigrationRegistry}
use neko_stack.Migration.Plan.{find_exact_migration}
use neko_stack.Migration.Filing.{has_key}
use neko_stack.Migration.Provenance.{ParsedMigrationProvenance}
use neko_stack.Migration.Stub.{render_stub_content}
use neko_stack.Migration.Registry.{MigrationSourceEntry, build_entry, build_migration_registry}
use neko_stack.Migration.Registry.Filed.{IsStatedBy, build_migration_registry-IsStatedBy}

abbrev some_hash : String
some_hash = "sha256:0123456789abcdef0123456789abcdef0123456789abcdef0123456789abcdef"

abbrev stated : ParsedMigrationProvenance
stated = record {
  generator = "g";
  generator_version = "1";
  schema_id = "user";
  from_version = "1";
  to_version = "2";
  from_ir_hash = some_hash;
  to_ir_hash = some_hash;
  from_source_hash = some_hash;
  to_source_hash = some_hash;
}

abbrev unchanged : AnyMigration ℕ
unchanged = record {
  schema_id = "user";
  from_version = "1";
  to_version = "2";
  transform = returned;
}

unfoldable source : MigrationSourceEntry ℕ
unfolding render_stub_content
source = record {
  source_path = "user.1-to-2.migration.ts";
  source_text = render_stub_content stated;
  migration = unchanged;
}

abbrev built : MigrationRegistry ℕ
unfolding build_entry source
built = ("user", ("1", ("2", build_entry source stated) ∷ []) ∷ []) ∷ []

built_run : build_migration_registry (source ∷ []) ≡ success built
unfolding build_migration_registry source is_space is_word is_terminator built
built_run = refl

build_migration_registry-IsStatedBy_example :
    (has_key "user" "1" "2" (build_entry source stated) ≡ true)
    × ((s : MigrationSourceEntry ℕ) × In s (source ∷ []) × IsStatedBy (build_entry source stated) s)
unfolding find_exact_migration built
build_migration_registry-IsStatedBy_example =
    build_migration_registry-IsStatedBy (source ∷ []) built built_run "user" "1" "2"
      (build_entry source stated) refl
