-- ===== src/Samples.antt =====
-- Concrete schemas, registries and migrations for the tests: a schema `user` in three versions, of
-- which the second adds a required field and the third an optional one.
use Prim.Native.Nat.{ℕ}
use neko_stack.Common.{◌+◌, String, true, none, some, [], ◌∷◌, ltb}
use neko_stack.Js.Text.{nat_text}
use neko_stack.Js.Json.{JsNumber}
use neko_stack.Js.Throws.{Outcome}
use neko_stack.Schema.Ir.{NodeBase, SchemaNode, string, number, object, end, field, strict}
use neko_stack.Schema.Registry.{RegistryEntry, Registry}
use neko_stack.Migration.Types.{MigrationEntry, Adjacency, MigrationRegistry, MigrationPlanOpts}

-- The natural numbers stand for those of the engine.
instance abbrev pub nat_number : JsNumber ℕ
nat_number = record { lt = ltb; number_text = nat_text }

abbrev pub plain : NodeBase ℕ
plain = record { metadata = none; modifiers = none; refinements = none }

abbrev pub optional_base : NodeBase ℕ
optional_base = record {
  metadata = none;
  modifiers = some (record { optional = some true; nullable = none; default_value = none });
  refinements = none;
}

abbrev pub user1 : SchemaNode ℕ
user1 = object plain (field "name" (string plain) end) strict

abbrev pub user2 : SchemaNode ℕ
user2 = object plain (field "name" (string plain) (field "age" (number plain) end)) strict

abbrev pub user3 : SchemaNode ℕ
user3 =
    object plain
      (field "name" (string plain)
        (field "age" (number plain) (field "mail" (string optional_base) end)))
      strict

abbrev pub registered : String → String → String → SchemaNode ℕ → RegistryEntry ℕ
registered version ir_hash source_hash node = record {
  schema_id = "user";
  schema_version = some version;
  ir_hash = ir_hash;
  source_hash = source_hash;
  source_path = "user.schema.ts";
  schema = record { node = node };
}

abbrev pub schemas : Registry ℕ
schemas =
    (
      "user",
      ("1", registered "1" "i1" "s1" user1)
          ∷ ("2", registered "2" "i2" "s2" user2)
          ∷ ("3", registered "3" "i3" "s3" user3)
          ∷ [],
    )
    ∷ []

abbrev pub migration : String → String → String → String → String → String → MigrationEntry ℕ
migration from to from_ir to_ir from_source to_source = record {
  schema_id = "user";
  from_version = from;
  to_version = to;
  from_ir_hash = from_ir;
  to_ir_hash = to_ir;
  from_source_hash = from_source;
  to_source_hash = to_source;
  source_path = "user.migration.ts";
  migration = record {
    schema_id = "user";
    from_version = from;
    to_version = to;
    transform = λ n. Outcome.returned (n + 10);
  };
}

abbrev pub first_migration : MigrationEntry ℕ
first_migration = migration "1" "2" "i1" "i2" "s1" "s2"

abbrev pub second_migration : MigrationEntry ℕ
second_migration = migration "2" "3" "i2" "i3" "s2" "s3"

abbrev pub hops : Adjacency ℕ
hops =
    ("1", ("2", first_migration) ∷ [])
    ∷ ("2", ("3", second_migration) ∷ ("1", first_migration) ∷ [])
    ∷ []

abbrev pub migrations : MigrationRegistry ℕ
migrations = ("user", hops) ∷ []

abbrev pub request : String → String → MigrationPlanOpts ℕ ℕ
request from to = record {
  schema_registry = schemas;
  migration_registry = migrations;
  schema_id = "user";
  from_version = from;
  to_version = to;
}
