-- ===== src/Schema/StripDefaults/Takes.antt =====
-- What a schema takes (runtime/zod-compile.ts and generators/zod-mapping.ts of packages/schema), over
-- a check of what is not a modifier or a nested node.
use neko_stack.Common.{
  ◌≡◌, String, Bool, true, false, Option, none, some, ◌||◌, ◌&&◌, ◌==◌, if◌then◌else◌,
}
use neko_stack.Js.Json.{Json, Items, nil, cons, Members, null, arr, obj, member}
use neko_stack.Schema.Ir.{
  NodeBase, SchemaNode, base, string, number, boolean, date, literal, enum, array, object, union,
  recursive_ref, transform, Fields, end, field,
}
use neko_stack.Schema.Diff.Compare.{is_true, modifiers_or_empty}

module _ {N : Type 0} where
  unfoldable pub all_items : (Json N → Bool) → Items N → Bool
  all_items f nil = true
  all_items f (cons x xs) = f x && all_items f xs

  -- An own property of a value.
  unfoldable pub property : String → Members N → Option (Json N)
  property k Members.end = none
  property k (member j v ms) = if j == k then some v else property k ms

  -- A node without its modifiers and without the nodes below it, of which the keys are kept.
  unfoldable pub bare : NodeBase N → NodeBase N
  bare b = record b { modifiers = none }

  unfoldable pub bare_fields : Fields N → Fields N
  unfolding bare
  bare_fields end = end
  bare_fields (field k n fs) =
      field k (string (record { metadata = none; modifiers = none; refinements = none }))
        (bare_fields fs)

  unfoldable pub outline : SchemaNode N → SchemaNode N
  unfolding bare bare_fields
  outline (string b) = string (bare b)
  outline (number b) = number (bare b)
  outline (boolean b) = boolean (bare b)
  outline (date b v) = date (bare b) v
  outline (literal b v) = literal (bare b) v
  outline (enum b v) = enum (bare b) v
  outline (array b e) = array (bare b) (string (bare b))
  outline (object b fs p) = object (bare b) (bare_fields fs) p
  outline (union b o d) = union (bare b) o d
  outline (recursive_ref b t v) = recursive_ref (bare b) t v
  outline (transform b s i) = transform (bare b) s i

  abbrev pub optional_of : NodeBase N → Bool
  optional_of b = is_true (modifiers_or_empty b.modifiers).optional

  abbrev pub nullable_of : NodeBase N → Bool
  nullable_of b = is_true (modifiers_or_empty b.modifiers).nullable

  abbrev pub default_of : NodeBase N → Option (Json N)
  default_of b = (modifiers_or_empty b.modifiers).default_value

  unfoldable pub is_null : Json N → Bool
  is_null null = true
  is_null _ = false

  -- What a node takes, in the order in which generators/zod-mapping.ts wraps its checks: a value where
  -- the check of the node's own kind, refinements and keys passes and those of the nodes below it,
  -- null where the node is nullable, and a missing value where the node takes its default or, without
  -- one, is optional.
  module _ (check : SchemaNode N → Json N → Bool) where
    unfoldable pub admits_value : SchemaNode N → (below : Json N → Bool) → Json N → Bool
    unfolding outline base is_null
    admits_value n below v = (is_null v && nullable_of (base n)) || (check (outline n) v && below v)

    abbrev pub admits_missing : SchemaNode N → (below : Json N → Bool) → Option (Json N) → Bool
    admits_missing n below none = optional_of (base n)
    admits_missing n below (some d) = admits_value n below d

    unfoldable pub admits : SchemaNode N → (below : Json N → Bool) → Option (Json N) → Bool
    unfolding admits_value
    admits n below none = admits_missing n below (default_of (base n))
    admits n below (some v) = admits_value n below v

    unfoldable mutual
      unfolding admits all_items property

      pub takes_below : SchemaNode N → Json N → Bool
      takes_below (array b e) (arr xs) = all_items (λ x. admits e (takes_below e) (some x)) xs
      takes_below (object b fs p) (obj ms) = takes_fields fs ms
      takes_below _ _ = true

      pub takes_fields : Fields N → Members N → Bool
      takes_fields end ms = true
      takes_fields (field k n fs) ms =
          admits n (takes_below n) (property k ms) && takes_fields fs ms

    unfoldable pub takes : SchemaNode N → Option (Json N) → Bool
    unfolding admits takes_below
    takes n v = admits n (takes_below n) v

    -- A default is one that its own node takes, at every depth of arrays and objects.
    abbrev pub IsTakenBy : SchemaNode N → Option (Json N) → Type 0
    IsTakenBy n none = Unit
    IsTakenBy n (some d) = takes n (some d) ≡ true

    unfoldable mutual
      unfolding base takes

      pub HasValidDefaults : SchemaNode N → Type 0
      HasValidDefaults (array b e) = IsTakenBy (array b e) (default_of b) × HasValidDefaults e
      HasValidDefaults (object b fs p) =
          IsTakenBy (object b fs p) (default_of b) × HaveValidDefaults fs
      HasValidDefaults n = IsTakenBy n (default_of (base n))

      pub HaveValidDefaults : Fields N → Type 0
      HaveValidDefaults end = Unit
      HaveValidDefaults (field k n fs) = HasValidDefaults n × HaveValidDefaults fs
