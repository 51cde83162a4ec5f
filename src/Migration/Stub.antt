-- ===== src/Migration/Stub.antt =====
-- migrations/stub.ts of packages/schema: the stub of a migration. A field of the header is a key with its
-- value. Lengths count characters, which the keys, being ASCII, have as code units.
pub mod Path
mod Tests
pub mod Keys
pub mod Header
use Prim.Native.String
use neko_stack.Js.JsMap.{is_some}
use neko_stack.Common.{
  ℕ, zero, suc, ◌+◌, ◌-◌, String, Bool, true, false, Option, none, some, ◌++◌, List, [], ◌∷◌, map,
  ltb, if◌then◌else◌,
}
use neko_stack.Js.Text.{template, join}
use neko_stack.Js.Json.{quote}
use neko_stack.Schema.Issues.{
  Issue, IssueSeverity, MetadataValue, Result, success, failure, migration_missing_endpoint,
}
use neko_stack.Schema.Registry.{Registry, RegistryEntry, find_schema}
use neko_stack.Migration.Provenance.{ParsedMigrationProvenance}
use neko_stack.Migration.Plan.{transition}
use neko_stack.Migration.Stub.Path.{suggested_migration_path_for}

abbrev pub spaces : ℕ → String
spaces zero = ""
spaces (suc n) = String.◌∷◌ " " (spaces n)

-- text.padEnd(width)
abbrev pub pad_end : ℕ → String → String
pad_end width text = String.◌++◌ text (spaces (width - String.count text))

abbrev pub widest : List String → ℕ
widest [] = 0
widest (k ∷ ks) =
    let rest = widest ks in if ltb (String.count k + 1) rest then rest else String.count k + 1

abbrev pub header_keys : List String
header_keys =
    "schemaId" ∷ "fromVersion" ∷ "toVersion" ∷ "fromIrHash" ∷ "toIrHash" ∷ "fromSourceHash"
    ∷ "toSourceHash" ∷ "generator" ∷ "generatorVersion" ∷ []

-- A line of the header for a field; `targetWidth` is that of the widest key with its colon.
abbrev pub label : String → String
label k = pad_end (widest header_keys + 1) (String.◌++◌ k ":")

unfoldable pub header_line : String → String → String
unfolding template
header_line k value = template (" * " ∷ label k ∷ value ∷ [])

-- The lines for the fields, in the order of `header_keys`.
unfoldable pub header_lines : ParsedMigrationProvenance → List String
unfolding header_line
header_lines f =
    header_line "schemaId" f.schema_id
    ∷ header_line "fromVersion" f.from_version
    ∷ header_line "toVersion" f.to_version
    ∷ header_line "fromIrHash" f.from_ir_hash
    ∷ header_line "toIrHash" f.to_ir_hash
    ∷ header_line "fromSourceHash" f.from_source_hash
    ∷ header_line "toSourceHash" f.to_source_hash
    ∷ header_line "generator" f.generator
    ∷ header_line "generatorVersion" f.generator_version
    ∷ []

unfoldable pub render_header : ParsedMigrationProvenance → String
unfolding header_lines join
render_header f = join "\n" (
    "/**" ∷ " * @migration by @nekostack/schema" ∷ header_lines f
    ++ " *" ∷ " * DO NOT REMOVE THE HEADER. Authors EDIT THE BODY." ∷ " */" ∷ [])

-- What follows the header.
unfoldable pub render_body : ParsedMigrationProvenance → String
unfolding template quote
render_body f = template (
    "\nimport type { Migration } from \"@nekostack/schema/cli\";\n\nconst migration: Migration<"
    ∷ quote f.schema_id
    ∷ ", "
    ∷ quote f.from_version
    ∷ ", "
    ∷ quote f.to_version
    ∷ "> = {\n  schemaId: "
    ∷ quote f.schema_id
    ∷ ",\n  from: "
    ∷ quote f.from_version
    ∷ ",\n  to: "
    ∷ quote f.to_version
    ∷ ",\n  transform(input) {\n    // Author fills this in.\n    throw new Error(\"Not yet implemented\");\n  },\n};\n\nexport default migration;\n"
    ∷ [])

unfoldable pub render_stub_content : ParsedMigrationProvenance → String
unfolding render_header render_body
render_stub_content f = String.◌++◌ (render_header f) (render_body f)

pub record MigrationStub : Type 0 where
  pub schema_id : String
  pub from_version : String
  pub to_version : String
  pub suggested_path : String
  pub content : String

pub record MigrationStubOpts (N : Type 0) : Type 0 where
  pub schema_registry : Registry N
  pub schema_id : String
  pub from_version : String
  pub to_version : String

abbrev missing_sides : Bool → Bool → List String
missing_sides true true = "from" ∷ "to" ∷ []
missing_sides true false = "from" ∷ []
missing_sides false true = "to" ∷ []
missing_sides false false = []

unfoldable pub stub_endpoint_issue : String → String → String → Bool → Bool → Issue
unfolding template join
stub_endpoint_issue schema_id from_version to_version from_missing to_missing = record {
  code = migration_missing_endpoint;
  path = [];
  message = template (
      "Cannot stub migration for `"
      ∷ schema_id
      ∷ "`: "
      ∷ join ", " (missing_sides from_missing to_missing)
      ∷ " version not in the schema registry (from="
      ∷ from_version
      ∷ ", to="
      ∷ to_version
      ∷ ")."
      ∷ []);
  severity = IssueSeverity.error;
  metadata = some (
      transition schema_id from_version to_version
      ++ ("missing", MetadataValue.texts (missing_sides from_missing to_missing)) ∷ []);
}

module _ {N : Type 0} where
  -- The header's fields for two entries of the registry.
  unfoldable pub stub_fields :
      MigrationStubOpts N → RegistryEntry N → RegistryEntry N → ParsedMigrationProvenance
  stub_fields opts from to = record {
    generator = "neko-schema-migrate-stub";
    generator_version = "@nekostack/schema@1.0.4";
    schema_id = opts.schema_id;
    from_version = opts.from_version;
    to_version = opts.to_version;
    from_ir_hash = from.ir_hash;
    to_ir_hash = to.ir_hash;
    from_source_hash = from.source_hash;
    to_source_hash = to.source_hash;
  }

  unfoldable pub stub_of :
      (to_lower_case : String → String)
      → MigrationStubOpts N
      → RegistryEntry N
      → RegistryEntry N
      → MigrationStub
  unfolding render_stub_content stub_fields suggested_migration_path_for
  stub_of to_lower_case opts from to = record {
    schema_id = opts.schema_id;
    from_version = opts.from_version;
    to_version = opts.to_version;
    suggested_path =
        suggested_migration_path_for to_lower_case from.source_path opts.from_version
          opts.to_version;
    content = render_stub_content (stub_fields opts from to);
  }

  unfoldable pub stub_between :
      (to_lower_case : String → String)
      → MigrationStubOpts N
      → Option (RegistryEntry N)
      → Option (RegistryEntry N)
      → Result MigrationStub
  unfolding stub_of stub_endpoint_issue
  stub_between to_lower_case opts (some from) (some to) =
      success (stub_of to_lower_case opts from to)
  stub_between to_lower_case opts from to = failure (
      stub_endpoint_issue opts.schema_id opts.from_version opts.to_version
        (if is_some from then false else true) (if is_some to then false else true)
      ∷ [])

  unfoldable pub stub_migration :
      (to_lower_case : String → String) → MigrationStubOpts N → Result MigrationStub
  unfolding find_schema stub_between
  stub_migration to_lower_case opts =
      stub_between to_lower_case opts
        (find_schema opts.schema_registry opts.schema_id opts.from_version)
        (find_schema opts.schema_registry opts.schema_id opts.to_version)
