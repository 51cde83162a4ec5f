-- ===== src/Migration/Stub/Tests.antt =====
-- Runs of the stub generator of packages/schema, and the instances of the theorem about it.
use neko_stack.Common.{ℕ, String, ◌≡◌, refl, true, some, [], ◌∷◌}
use neko_stack.Samples.{user1, user2}
use neko_stack.Schema.Issues.{success}
use neko_stack.Schema.Ir.{SchemaNode}
use neko_stack.Schema.Registry.{RegistryEntry, find_schema}
use neko_stack.Schema.Jsdoc.{is_sha256, is_space, is_terminator}
use neko_stack.Schema.Jsdoc.Rendered.{IsTidy}
use neko_stack.Schema.Jsdoc.Texts.{lacks, is_quiet, starts_plain, ends_plain}
use neko_stack.Migration.Provenance.{parse_migration_provenance_from_text}
use neko_stack.Migration.Stub.{MigrationStub, MigrationStubOpts, stub_fields, stub_migration}
use neko_stack.Migration.Stub.Path.{suggested_migration_path_for}
use neko_stack.Migration.Stub.Header.{IsRenderable, stub_migration-parsed}

abbrev some_hash : String
some_hash = "sha256:0123456789abcdef0123456789abcdef0123456789abcdef0123456789abcdef"

abbrev hashed : String → SchemaNode ℕ → RegistryEntry ℕ
hashed version node = record {
  schema_id = "user";
  schema_version = some version;
  ir_hash = some_hash;
  source_hash = some_hash;
  source_path = "src/user.schema.ts";
  schema = record { node = node };
}

abbrev user_request : MigrationStubOpts ℕ
user_request = record {
  schema_registry = ("user", ("1", hashed "1" user1) ∷ ("2", hashed "2" user2) ∷ []) ∷ [];
  schema_id = "user";
  from_version = "1";
  to_version = "2";
}

abbrev kept_case : String → String
kept_case s = s

path_lem :
    suggested_migration_path_for kept_case "src\\user.schema.ts" "1.0.0-b" "+2.0.0+"
    ≡ "src/migrations/user.1-0-0-b-to-2-0-0.migration.ts"
unfolding suggested_migration_path_for is_terminator
path_lem = refl

IsTidy-hash : IsTidy some_hash
unfolding lacks is_terminator starts_plain is_space ends_plain is_quiet
IsTidy-hash = record { inline = refl; starts = refl; ends = refl; quiet = refl }

IsTidy-user : IsTidy "user"
unfolding lacks is_terminator starts_plain is_space ends_plain is_quiet
IsTidy-user = record { inline = refl; starts = refl; ends = refl; quiet = refl }

IsTidy-1 : IsTidy "1"
unfolding lacks is_terminator starts_plain is_space ends_plain is_quiet
IsTidy-1 = record { inline = refl; starts = refl; ends = refl; quiet = refl }

IsTidy-2 : IsTidy "2"
unfolding lacks is_terminator starts_plain is_space ends_plain is_quiet
IsTidy-2 = record { inline = refl; starts = refl; ends = refl; quiet = refl }

IsTidy-generator : IsTidy "neko-schema-migrate-stub"
unfolding lacks is_terminator starts_plain is_space ends_plain is_quiet
IsTidy-generator = record { inline = refl; starts = refl; ends = refl; quiet = refl }

IsTidy-version : IsTidy "@nekostack/schema@1.0.4"
unfolding lacks is_terminator starts_plain is_space ends_plain is_quiet
IsTidy-version = record { inline = refl; starts = refl; ends = refl; quiet = refl }

valid_hash : is_sha256 some_hash ≡ true
unfolding is_sha256
valid_hash = refl

renderable : IsRenderable (stub_fields user_request (hashed "1" user1) (hashed "2" user2))
unfolding stub_fields
renderable = record {
  generator = IsTidy-generator;
  generator_version = IsTidy-version;
  schema_id = IsTidy-user;
  from_version = IsTidy-1;
  to_version = IsTidy-2;
  from_ir_hash = (IsTidy-hash, valid_hash);
  to_ir_hash = (IsTidy-hash, valid_hash);
  from_source_hash = (IsTidy-hash, valid_hash);
  to_source_hash = (IsTidy-hash, valid_hash);
}

found_1 : find_schema user_request.schema_registry "user" "1" ≡ some (hashed "1" user1)
unfolding find_schema
found_1 = refl

found_2 : find_schema user_request.schema_registry "user" "2" ≡ some (hashed "2" user2)
unfolding find_schema
found_2 = refl

stub_migration-parsed_example :
    (stub : MigrationStub) × (stub_migration kept_case user_request ≡ success stub)
    × (parse_migration_provenance_from_text stub.content
        ≡ success (stub_fields user_request (hashed "1" user1) (hashed "2" user2)))
stub_migration-parsed_example =
    stub_migration-parsed kept_case user_request (hashed "1" user1) (hashed "2" user2) found_1
      found_2 renderable
