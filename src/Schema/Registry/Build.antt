-- ===== src/Schema/Registry/Build.antt =====
-- `buildRegistry` of registry/build-registry.ts of packages/schema. The SHA-256 digest of a text, in
-- hexadecimal, and that of a node's canonical form (ir/hash.ts) are parameters.
pub mod First
mod Tests
use neko_stack.Common.{
  String, ◌==◌, Bool, true, false, Option, none, some, List, [], ◌∷◌, ◌++◌, if◌then◌else◌,
}
use neko_stack.Js.Text.{template, join}
use neko_stack.Js.JsMap.{map_or_new, JsMap, get, set}
use neko_stack.Schema.Issues.{
  Issue, duplicate_schema_id, IssueSeverity, MetadataValue, null, text, texts, Result, success,
  failure,
}
use neko_stack.Schema.Ir.{SchemaNode, NodeMetadata, base}
use neko_stack.Schema.Registry.{AnySchema, RegistryEntry, Registry}

pub record Hashes (N : Type 0) : Type 0 where
  pub sha256 : String → String
  pub ir_hash : SchemaNode N → String

pub record RegistrySourceEntry (N : Type 0) : Type 0 where
  pub source_path : String
  pub source_text : String
  pub schemas : List (AnySchema N)

-- The variables of the loops.
pub record Building (N : Type 0) : Type 0 where
  pub out : Registry N
  pub duplicates : List Issue

abbrev pub version_key : Option String → String
version_key none = ""
version_key (some v) = v

abbrev version_label : Option String → String
unfolding template
version_label none = "(unversioned)"
version_label (some v) = template ("v" ∷ v ∷ [])

abbrev version_value : Option String → MetadataValue
version_value none = null
version_value (some v) = text v

unfoldable pub duplicate_issue : String → Option String → List String → Issue
unfolding template join version_label
duplicate_issue schema_id schema_version source_paths = record {
  code = duplicate_schema_id;
  path = [];
  message = template (
      "Duplicate schema \""
      ∷ schema_id
      ∷ "\" "
      ∷ version_label schema_version
      ∷ " found in: "
      ∷ join ", " source_paths
      ∷ []);
  severity = IssueSeverity.error;
  metadata = some (
      ("schemaId", text schema_id)
      ∷ ("schemaVersion", version_value schema_version)
      ∷ ("sourcePaths", texts source_paths)
      ∷ []);
}

module _ {N : Type 0} where
  -- schema.node.metadata?.id, and its version
  abbrev pub id_of : AnySchema N → Option String
  unfolding base
  id_of schema = elim (base schema.node).metadata [ none ↦ none | some m ↦ m.id ]

  abbrev pub version_of : AnySchema N → Option String
  unfolding base
  version_of schema = elim (base schema.node).metadata [ none ↦ none | some m ↦ m.version ]

  unfoldable pub source_hash_from_text : Hashes N → String → String
  unfolding template
  source_hash_from_text hashes source = template ("sha256:" ∷ hashes.sha256 source ∷ [])

  unfoldable pub built_entry :
      Hashes N → RegistrySourceEntry N → String → AnySchema N → RegistryEntry N
  unfolding template source_hash_from_text
  built_entry hashes entry schema_id schema = record {
    schema_id = schema_id;
    schema_version = version_of schema;
    ir_hash = template ("sha256:" ∷ hashes.ir_hash schema.node ∷ []);
    source_hash = source_hash_from_text hashes entry.source_text;
    source_path = entry.source_path;
    schema = schema;
  }

  -- A round for an entry that is built, by what stands under its key: the first entry stays.
  unfoldable pub file_at : Option (RegistryEntry N) → RegistryEntry N → Building N → Building N
  unfolding get set duplicate_issue
  file_at (some existing) built s = record s {
    duplicates =
        s.duplicates
        ++ duplicate_issue built.schema_id built.schema_version
            (existing.source_path ∷ built.source_path ∷ [])
          ∷ [];
  }
  file_at none built s = record s {
    out =
        set built.schema_id
          (set (version_key built.schema_version) built (map_or_new (get built.schema_id s.out)))
          s.out;
  }

  unfoldable pub file_built : RegistryEntry N → Building N → Building N
  unfolding get file_at
  file_built built s =
      file_at (get (version_key built.schema_version) (map_or_new (get built.schema_id s.out)))
        built s

  -- A schema without an id is left out.
  unfoldable pub file_identified :
      Hashes N → RegistrySourceEntry N → AnySchema N → Option String → Building N → Building N
  unfolding built_entry file_built
  file_identified hashes entry schema none s = s
  file_identified hashes entry schema (some schema_id) s =
      file_built (built_entry hashes entry schema_id schema) s

  unfoldable pub file_schema :
      Hashes N → RegistrySourceEntry N → AnySchema N → Building N → Building N
  unfolding file_identified
  file_schema hashes entry schema s = file_identified hashes entry schema (id_of schema) s

  unfoldable pub file_schemas :
      Hashes N → RegistrySourceEntry N → List (AnySchema N) → Building N → Building N
  unfolding file_schema
  file_schemas hashes entry [] s = s
  file_schemas hashes entry (schema ∷ schemas) s =
      file_schemas hashes entry schemas (file_schema hashes entry schema s)

  unfoldable pub file_sources : Hashes N → List (RegistrySourceEntry N) → Building N → Building N
  unfolding file_schemas
  file_sources hashes [] s = s
  file_sources hashes (entry ∷ entries) s =
      file_sources hashes entries (file_schemas hashes entry entry.schemas s)

  abbrev pub built_result : Building N → Result (Registry N)
  built_result s = elim s.duplicates [ [] ↦ success s.out | i ∷ is ↦ failure (i ∷ is) ]

  unfoldable pub build_registry : Hashes N → List (RegistrySourceEntry N) → Result (Registry N)
  unfolding file_sources
  build_registry hashes entries =
      built_result (file_sources hashes entries (record { out = []; duplicates = [] }))
