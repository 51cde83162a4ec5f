-- ===== src/Schema/Registry.antt =====
-- registry/types.ts and `findSchema` of registry/build-registry.ts, of packages/schema.
-- `findSchema` with no version given, which sorts versions, is not modelled.
pub mod Build
use neko_stack.Common.{String, Option, none, some}
use neko_stack.Js.JsMap.{JsMap, get}
use neko_stack.Schema.Ir.{SchemaNode}

-- A schema built by the builders, of which the code modelled here reads the node.
pub record AnySchema (N : Type 0) : Type 0 where
  pub node : SchemaNode N

pub record RegistryEntry (N : Type 0) : Type 0 where
  pub schema_id : String
  pub schema_version : Option String
  pub ir_hash : String
  pub source_hash : String
  pub source_path : String
  pub schema : AnySchema N

abbrev pub Registry : Type 0 → Type 0
Registry N = JsMap (JsMap (RegistryEntry N))

-- findSchema(registry, schemaId, version), with the version given
unfoldable pub find_schema : {N : Type 0} → Registry N → String → String → Option (RegistryEntry N)
unfolding get
find_schema registry schema_id version = elim (get schema_id registry) [
  | none ↦ none
  | some inner ↦ get version inner
]
