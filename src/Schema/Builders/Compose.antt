-- ===== src/Schema/Builders/Compose.antt =====
-- builders/object.ts of packages/schema: `ObjectSchema` and its composition operators.
use neko_stack.Common.{String, Bool, true, Option, none, some, List, [], ◌∷◌, if◌then◌else◌}
use neko_stack.Js.JsMap.{keys}
use neko_stack.Js.Throws.{Outcome, returned}
use neko_stack.Schema.Ir.{NodeModifiers, NodeBase, UnknownKeysPolicy, Fields}
use neko_stack.Schema.Builders.{
  Schema, object_schema, Shape, empty, entry, node_base, clone, fields_of, modifiers_of, no_base,
}
use neko_stack.Schema.Builders.Shapes.{
  Mask, asks, own, shape_keys, put, keys_in, keys_not_in, spread,
}
use neko_stack.Schema.Builders.Causes.{extend_cause, mask_cause, override_cause, unless_some}

-- An instance of ObjectSchema: its shape and the parts of its node.
pub record ObjectSchema (N : Type 0) : Type 0 where
  pub shape : Shape N
  pub base : NodeBase N
  pub fields : Fields N
  pub unknown_keys : UnknownKeysPolicy

-- `keys === undefined || keys[key] === true`
unfoldable pub affects : Option Mask → String → Bool
unfolding asks
affects none k = true
affects (some mask) k = asks mask k

module _ {N : Type 0} where
  abbrev pub as_schema : ObjectSchema N → Schema N
  as_schema o = object_schema o.shape o.base o.fields o.unknown_keys

  -- composedObject
  unfoldable pub composed_object : Shape N → UnknownKeysPolicy → ObjectSchema N
  unfolding fields_of
  composed_object shape policy = record {
    shape = shape;
    base = no_base;
    fields = fields_of shape;
    unknown_keys = policy;
  }

  unfoldable pub with_unknown_keys : UnknownKeysPolicy → ObjectSchema N → ObjectSchema N
  with_unknown_keys policy o = record o { unknown_keys = policy }

  unfoldable pub extend : ObjectSchema N → Shape N → Outcome (ObjectSchema N)
  unfolding keys_in shape_keys spread composed_object extend_cause
  extend o extension =
      unless_some (keys_in (shape_keys extension) o.shape) extend_cause
        (composed_object (spread o.shape extension) o.unknown_keys)

  -- assertMaskKeysInShape, and what follows it
  unfoldable pub with_mask : String → Mask → Shape N → ObjectSchema N → Outcome (ObjectSchema N)
  unfolding keys_not_in keys mask_cause
  with_mask op mask shape result =
      unless_some (keys_not_in (keys mask) shape) (mask_cause op) result

  -- A round of the loop of `pick`. The mask's type admits only keys of the shape, so that no key
  -- finds a member of `Object.prototype`, which is no schema.
  unfoldable pub put_own : String → Option (Schema N) → Shape N → Shape N
  unfolding put
  put_own k none out = out
  put_own k (some s) out = put k s out

  unfoldable pub kept : String → Mask → Shape N → Shape N → Shape N
  unfolding asks own put_own
  kept k mask shape out = if asks mask k then put_own k (own k shape) out else out

  unfoldable pub picked : List String → Mask → Shape N → Shape N → Shape N
  unfolding kept
  picked [] mask shape out = out
  picked (k ∷ ks) mask shape out = picked ks mask shape (kept k mask shape out)

  unfoldable pub pick : ObjectSchema N → Mask → Outcome (ObjectSchema N)
  unfolding with_mask picked composed_object
  pick o mask =
      with_mask "pick" mask o.shape
        (composed_object (picked (keys mask) mask o.shape empty) o.unknown_keys)

  unfoldable pub omitted : Mask → Shape N → Shape N
  unfolding asks
  omitted mask empty = empty
  omitted mask (entry k s shape) =
      let rest = omitted mask shape in if asks mask k then rest else entry k s rest

  unfoldable pub omit : ObjectSchema N → Mask → Outcome (ObjectSchema N)
  unfolding with_mask omitted composed_object
  omit o mask =
      with_mask "omit" mask o.shape (composed_object (omitted mask o.shape) o.unknown_keys)

  -- withModifiers: no modifiers stand for none set
  unfoldable pub with_modifiers : NodeBase N → NodeModifiers N → NodeBase N
  with_modifiers b m =
      let set_ones = record b { modifiers = some m } in
      elim m.optional [
        | some o ↦ set_ones
        | none ↦ elim m.nullable [
          | some n ↦ set_ones
          | none ↦ elim m.default_value [ some d ↦ set_ones | none ↦ record b { modifiers = none } ]
        ]
      ]

  unfoldable pub make_partial : Schema N → Schema N
  unfolding clone node_base with_modifiers
  make_partial s =
      let b = node_base s in
      clone s
        (with_modifiers b (record (modifiers_of b) { optional = some true; default_value = none }))

  unfoldable pub make_required : Schema N → Schema N
  unfolding clone node_base with_modifiers
  make_required s =
      let b = node_base s in
      clone s (with_modifiers b (record (modifiers_of b) { optional = none; default_value = none }))

  unfoldable pub changed_where : (String → Bool) → (Schema N → Schema N) → Shape N → Shape N
  changed_where affected f empty = empty
  changed_where affected f (entry k s shape) =
      let rest = changed_where affected f shape in entry k (if affected k then f s else s) rest

  unfoldable pub with_keys :
      String → Option Mask → Shape N → ObjectSchema N → Outcome (ObjectSchema N)
  unfolding with_mask
  with_keys op none shape result = returned result
  with_keys op (some mask) shape result = with_mask op mask shape result

  unfoldable pub partial : ObjectSchema N → Option Mask → Outcome (ObjectSchema N)
  unfolding with_keys changed_where affects make_partial composed_object
  partial o mask =
      with_keys "partial" mask o.shape
        (composed_object (changed_where (affects mask) make_partial o.shape) o.unknown_keys)

  unfoldable pub required : ObjectSchema N → Option Mask → Outcome (ObjectSchema N)
  unfolding with_keys changed_where affects make_required composed_object
  required o mask =
      with_keys "required" mask o.shape
        (composed_object (changed_where (affects mask) make_required o.shape) o.unknown_keys)

  unfoldable pub override : ObjectSchema N → Shape N → Outcome (ObjectSchema N)
  unfolding keys_not_in shape_keys spread composed_object override_cause
  override o overrides =
      unless_some (keys_not_in (shape_keys overrides) o.shape) override_cause
        (composed_object (spread o.shape overrides) o.unknown_keys)
