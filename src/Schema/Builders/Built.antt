-- ===== src/Schema/Builders/Built.antt =====
-- The schemas that calls of the builders of packages/schema give.
use neko_stack.Common.{String, ◌≡◌, Bool, Option, none, List}
use neko_stack.Js.Json.{Json}
use neko_stack.Js.Throws.{returned}
use neko_stack.Schema.Ir.{Refinement, UnknownKeysPolicy, EnumValue}
use neko_stack.Schema.Builders.{
  Schema, Shape, empty, entry, with_refinement, optional, nullable, nullish, default, id, version,
  describe, deprecated, s_enum, s_string, s_number, s_boolean, s_literal, s_array, s_object,
}
use neko_stack.Schema.Builders.Shapes.{Mask, own}
use neko_stack.Schema.Builders.Compose.{
  ObjectSchema, as_schema, with_unknown_keys, extend, pick, omit, partial, required, override,
}
use neko_stack.Schema.Builders.Merge.{MergeOptions, merge}

module _ {N : Type 0} where
  mutual
    -- The schemas that calls of the builders give: `s` and the methods of the classes, `refined`
    -- standing for all methods that append a refinement.
    pub data IsBuilt : Schema N → Type 0 where
      by_string : IsBuilt s_string
      by_number : IsBuilt s_number
      by_boolean : IsBuilt s_boolean
      by_literal : (value : Json N) → IsBuilt (s_literal value)
      by_enum :
          (values : List (EnumValue N)) {s : Schema N} → s_enum values ≡ returned s → IsBuilt s
      by_array : {s : Schema N} → IsBuilt s → IsBuilt (s_array s)
      by_object : {shape : Shape N} → IsBuiltShape shape → IsBuilt (s_object shape)
      by_optional : {s : Schema N} → IsBuilt s → IsBuilt (optional s)
      by_nullable : {s : Schema N} → IsBuilt s → IsBuilt (nullable s)
      by_nullish : {s : Schema N} → IsBuilt s → IsBuilt (nullish s)
      by_default : {s : Schema N} (value : Json N) → IsBuilt s → IsBuilt (default s value)
      by_id : {s : Schema N} (text : String) → IsBuilt s → IsBuilt (id s text)
      by_version : {s : Schema N} (text : String) → IsBuilt s → IsBuilt (version s text)
      by_describe : {s : Schema N} (text : String) → IsBuilt s → IsBuilt (describe s text)
      by_deprecated : {s : Schema N} (b : Bool) → IsBuilt s → IsBuilt (deprecated s b)
      by_refined : {s : Schema N} (r : Refinement N) → IsBuilt s → IsBuilt (with_refinement s r)
      by_unknown_keys :
          (o : ObjectSchema N) (policy : UnknownKeysPolicy)
          → IsBuilt (as_schema o)
          → IsBuilt (as_schema (with_unknown_keys policy o))
      by_extended :
          (o p : ObjectSchema N) (extension : Shape N)
          → IsBuilt (as_schema o)
          → IsBuiltShape extension
          → extend o extension ≡ returned p
          → IsBuilt (as_schema p)
      by_picked :
          (o p : ObjectSchema N) (mask : Mask)
          → IsBuilt (as_schema o)
          → pick o mask ≡ returned p
          → IsBuilt (as_schema p)
      by_omitted :
          (o p : ObjectSchema N) (mask : Mask)
          → IsBuilt (as_schema o)
          → omit o mask ≡ returned p
          → IsBuilt (as_schema p)
      by_made_partial :
          (o p : ObjectSchema N) (mask : Option Mask)
          → IsBuilt (as_schema o)
          → partial o mask ≡ returned p
          → IsBuilt (as_schema p)
      by_made_required :
          (o p : ObjectSchema N) (mask : Option Mask)
          → IsBuilt (as_schema o)
          → required o mask ≡ returned p
          → IsBuilt (as_schema p)
      by_overridden :
          (o p : ObjectSchema N) (overrides : Shape N)
          → IsBuilt (as_schema o)
          → IsBuiltShape overrides
          → override o overrides ≡ returned p
          → IsBuilt (as_schema p)
      by_merged :
          (o other p : ObjectSchema N) (options : MergeOptions)
          → IsBuilt (as_schema o)
          → IsBuilt (as_schema other)
          → merge o other options ≡ returned p
          → IsBuilt (as_schema p)

    -- The plain objects of such schemas.
    pub data IsBuiltShape : Shape N → Type 0 where
      by_empty : IsBuiltShape empty
      by_entry :
          {k : String} {s : Schema N} {shape : Shape N}
          → own k shape ≡ none
          → IsBuilt s
          → IsBuiltShape shape
          → IsBuiltShape (entry k s shape)
