-- ===== src/Schema/Ir.antt =====
-- ir/nodes.ts of packages/schema: the canonical intermediate representation. An optional property
-- is an `Option`; an object's fields are listed in the order of `Object.keys`.
use neko_stack.Common.{String, Bool, Option, List, [], ◌∷◌}
use neko_stack.Js.Json.{Json, Members}

pub record NodeMetadata : Type 0 where
  pub id : Option String
  pub version : Option String
  pub description : Option String
  pub deprecated : Option Bool

-- `default` is `{ value }` or absent.
pub record NodeModifiers (N : Type 0) : Type 0 where
  pub optional : Option Bool
  pub nullable : Option Bool
  pub default_value : Option (Json N)

pub data PortableRefinementName : Type 0 where
  min_length max_length exact_length regex email uuid url : PortableRefinementName
  int min max gt lt multiple_of : PortableRefinementName
  min_items max_items : PortableRefinementName

unfoldable pub refinement_name : PortableRefinementName → String
refinement_name min_length = "minLength"
refinement_name max_length = "maxLength"
refinement_name exact_length = "length"
refinement_name regex = "regex"
refinement_name email = "email"
refinement_name uuid = "uuid"
refinement_name url = "url"
refinement_name int = "int"
refinement_name min = "min"
refinement_name max = "max"
refinement_name gt = "gt"
refinement_name lt = "lt"
refinement_name multiple_of = "multipleOf"
refinement_name min_items = "minItems"
refinement_name max_items = "maxItems"

pub record PortableRefinement (N : Type 0) : Type 0 where
  pub name : PortableRefinementName
  pub params : Option (Members N)

pub record RuntimeRefinement : Type 0 where
  pub code : String
  pub description : Option String

pub data Refinement (N : Type 0) : Type 0 where
  portable : PortableRefinement N → Refinement N
  runtime : RuntimeRefinement → Refinement N

pub record NodeBase (N : Type 0) : Type 0 where
  pub metadata : Option NodeMetadata
  pub modifiers : Option (NodeModifiers N)
  pub refinements : Option (List (Refinement N))

pub data DateVariant : Type 0 where
  iso_date_time iso_date epoch_ms date_object : DateVariant

pub data UnknownKeysPolicy : Type 0 where
  strict strip_unknown passthrough : UnknownKeysPolicy

-- A member of an enumeration: `string | number`.
pub data EnumValue (N : Type 0) : Type 0 where
  text : String → EnumValue N
  number : N → EnumValue N

mutual
  pub data SchemaNode (N : Type 0) : Type 0 where
    string number boolean : NodeBase N → SchemaNode N
    date : NodeBase N → DateVariant → SchemaNode N
    literal : NodeBase N → Json N → SchemaNode N
    enum : NodeBase N → List (EnumValue N) → SchemaNode N
    array : NodeBase N → SchemaNode N → SchemaNode N
    object : NodeBase N → Fields N → UnknownKeysPolicy → SchemaNode N
    union : NodeBase N → Alternatives N → Option String → SchemaNode N
    recursive_ref : NodeBase N → String → Option String → SchemaNode N
    transform : NodeBase N → SchemaNode N → String → SchemaNode N

  pub data Fields (N : Type 0) : Type 0 where
    end : Fields N
    field : String → SchemaNode N → Fields N → Fields N

  pub data Alternatives (N : Type 0) : Type 0 where
    nil : Alternatives N
    cons : SchemaNode N → Alternatives N → Alternatives N

module _ {N : Type 0} where
  unfoldable pub base : SchemaNode N → NodeBase N
  base (string b) = b
  base (number b) = b
  base (boolean b) = b
  base (date b variant) = b
  base (literal b value) = b
  base (enum b values) = b
  base (array b element) = b
  base (object b fields policy) = b
  base (union b options discriminator) = b
  base (recursive_ref b target version) = b
  base (transform b source id) = b

  unfoldable pub kind : SchemaNode N → String
  kind (string b) = "string"
  kind (number b) = "number"
  kind (boolean b) = "boolean"
  kind (date b variant) = "date"
  kind (literal b value) = "literal"
  kind (enum b values) = "enum"
  kind (array b element) = "array"
  kind (object b fields policy) = "object"
  kind (union b options discriminator) = "union"
  kind (recursive_ref b target version) = "recursiveRef"
  kind (transform b source id) = "transform"

  -- Object.keys(fields)
  unfoldable pub field_keys : Fields N → List String
  field_keys end = []
  field_keys (field k n fs) = k ∷ field_keys fs
