-- ===== src/Schema/Builders.antt =====
-- builders/schema.ts, primitives.ts, array.ts and s.ts of packages/schema: the classes, by what
-- their instances hold, and the fluent methods. An instance of a primitive class holds a node of its
-- kind, of which `clone` replaces what all nodes have. Freezing is left out.
pub mod Refine
pub mod Shapes
pub mod Causes
pub mod Compose
pub mod Merge
pub mod Lookup
pub mod Modifiers
pub mod Operators
pub mod Nodes
pub mod Built
pub mod Coherence
mod Tests
use neko_stack.Common.{String, Bool, true, false, Option, none, some, List, [], ◌∷◌, ◌++◌}
use neko_stack.Js.Json.{Json}
use neko_stack.Js.Throws.{Cause, Outcome, returned, threw}
use neko_stack.Schema.Ir.{
  NodeMetadata, NodeModifiers, Refinement, NodeBase, UnknownKeysPolicy, strict, EnumValue,
  SchemaNode, string, number, boolean, literal, enum, array, object, Fields, end, field,
}

mutual
  pub data Schema (N : Type 0) : Type 0 where
    string_schema number_schema boolean_schema : NodeBase N → Schema N
    literal_schema : NodeBase N → Json N → Schema N
    enum_schema : NodeBase N → List (EnumValue N) → Schema N
    -- the element's schema, and the node
    array_schema : (element : Schema N) → NodeBase N → SchemaNode N → Schema N
    -- the shape, and the node
    object_schema : Shape N → NodeBase N → Fields N → UnknownKeysPolicy → Schema N

  pub data Shape (N : Type 0) : Type 0 where
    empty : Shape N
    entry : String → Schema N → Shape N → Shape N

-- { ...old, ...patch }, of one property
abbrev pub patched {ℓ} : {A : Type ℓ} → Option A → Option A → Option A
patched none old = old
patched (some new) old = some new

module _ {N : Type 0} where
  unfoldable pub node : Schema N → SchemaNode N
  node (string_schema b) = string b
  node (number_schema b) = number b
  node (boolean_schema b) = boolean b
  node (literal_schema b value) = literal b value
  node (enum_schema b values) = enum b values
  node (array_schema element b inner) = array b inner
  node (object_schema shape b fields policy) = object b fields policy

  unfoldable pub node_base : Schema N → NodeBase N
  node_base (string_schema b) = b
  node_base (number_schema b) = b
  node_base (boolean_schema b) = b
  node_base (literal_schema b value) = b
  node_base (enum_schema b values) = b
  node_base (array_schema element b inner) = b
  node_base (object_schema shape b fields policy) = b

  -- clone({ ...this.node, … }): every call replaces what all nodes have, and nothing else.
  unfoldable pub clone : Schema N → NodeBase N → Schema N
  clone (string_schema b) c = string_schema c
  clone (number_schema b) c = number_schema c
  clone (boolean_schema b) c = boolean_schema c
  clone (literal_schema b value) c = literal_schema c value
  clone (enum_schema b values) c = enum_schema c values
  clone (array_schema element b inner) c = array_schema element c inner
  clone (object_schema shape b fields policy) c = object_schema shape c fields policy

  abbrev pub no_modifiers : NodeModifiers N
  no_modifiers = record { optional = none; nullable = none; default_value = none }

  abbrev pub modifiers_of : NodeBase N → NodeModifiers N
  modifiers_of b = elim b.modifiers [ none ↦ no_modifiers | some m ↦ m ]

  unfoldable pub with_modifier : NodeBase N → NodeModifiers N → NodeBase N
  with_modifier b patch = record b {
    modifiers = some (record {
      optional = patched patch.optional (modifiers_of b).optional;
      nullable = patched patch.nullable (modifiers_of b).nullable;
      default_value = patched patch.default_value (modifiers_of b).default_value;
    });
  }

  abbrev pub metadata_of : NodeBase N → NodeMetadata
  metadata_of b = elim b.metadata [
    | none ↦ record { id = none; version = none; description = none; deprecated = none }
    | some m ↦ m
  ]

  unfoldable pub with_metadata : NodeBase N → NodeMetadata → NodeBase N
  with_metadata b patch = record b {
    metadata = some (record {
      id = patched patch.id (metadata_of b).id;
      version = patched patch.version (metadata_of b).version;
      description = patched patch.description (metadata_of b).description;
      deprecated = patched patch.deprecated (metadata_of b).deprecated;
    });
  }

  unfoldable pub with_refinement : Schema N → Refinement N → Schema N
  unfolding clone node_base
  with_refinement s r =
      let b = node_base s in
      clone s (record b {
        refinements = some (elim b.refinements [ none ↦ r ∷ [] | some rs ↦ rs ++ r ∷ [] ]);
      })

  abbrev pub modified : Schema N → NodeModifiers N → Schema N
  unfolding clone node_base with_modifier
  modified s patch = clone s (with_modifier (node_base s) patch)

  unfoldable pub optional : Schema N → Schema N
  unfolding modified
  optional s = modified s (record { optional = some true; nullable = none; default_value = none })

  unfoldable pub nullable : Schema N → Schema N
  unfolding modified
  nullable s = modified s (record { optional = none; nullable = some true; default_value = none })

  unfoldable pub nullish : Schema N → Schema N
  unfolding modified
  nullish s =
      modified s (record { optional = some true; nullable = some true; default_value = none })

  unfoldable pub default : Schema N → Json N → Schema N
  unfolding modified
  default s value =
      modified s (record { optional = some true; nullable = none; default_value = some value })

  abbrev pub tagged : Schema N → NodeMetadata → Schema N
  unfolding clone node_base with_metadata
  tagged s patch = clone s (with_metadata (node_base s) patch)

  unfoldable pub id : Schema N → String → Schema N
  unfolding tagged
  id s text =
      tagged s (record { id = some text; version = none; description = none; deprecated = none })

  unfoldable pub version : Schema N → String → Schema N
  unfolding tagged
  version s text =
      tagged s (record { id = none; version = some text; description = none; deprecated = none })

  unfoldable pub describe : Schema N → String → Schema N
  unfolding tagged
  describe s text =
      tagged s (record { id = none; version = none; description = some text; deprecated = none })

  unfoldable pub deprecated : Schema N → Bool → Schema N
  unfolding tagged
  deprecated s value =
      tagged s (record { id = none; version = none; description = none; deprecated = some value })

  abbrev pub no_base : NodeBase N
  no_base = record { metadata = none; modifiers = none; refinements = none }

  -- mapShapeToFields, for keys other than `__proto__`
  unfoldable pub fields_of : Shape N → Fields N
  unfolding node
  fields_of empty = end
  fields_of (entry k s shape) = field k (node s) (fields_of shape)

  -- s.enum, which throws on an empty list; the other constructors of `s` are those of the classes
  unfoldable pub s_enum : List (EnumValue N) → Outcome (Schema N)
  s_enum [] = threw (Cause.error "s.enum() requires at least one value")
  s_enum (v ∷ vs) = returned (enum_schema no_base (v ∷ vs))

  abbrev pub s_string : Schema N
  s_string = string_schema no_base

  abbrev pub s_number : Schema N
  s_number = number_schema no_base

  abbrev pub s_boolean : Schema N
  s_boolean = boolean_schema no_base

  abbrev pub s_literal : Json N → Schema N
  s_literal = literal_schema no_base

  unfoldable pub s_array : Schema N → Schema N
  unfolding node
  s_array element = array_schema element no_base (node element)

  unfoldable pub s_object : Shape N → Schema N
  unfolding fields_of
  s_object shape = object_schema shape no_base (fields_of shape) strict
