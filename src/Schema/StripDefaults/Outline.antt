-- ===== src/Schema/StripDefaults/Outline.antt =====
-- runtime/strip-defaults.ts of packages/schema: what of a node it keeps, and what it makes of the
-- modifiers.
use neko_stack.Common.{◌≡◌, refl, ap, none, ◌||◌, arith}
use neko_stack.Schema.Ir.{
  NodeBase, SchemaNode, base, string, number, boolean, date, literal, enum, array, object, union,
  recursive_ref, transform, Fields, end, field,
}
use neko_stack.Js.JsMap.{is_some}
use neko_stack.Schema.StripDefaults.{
  strip_modifiers, strip_base, strip_own_default, strip_defaults_for_validate, strip_fields,
}
use neko_stack.Schema.StripDefaults.Takes.{
  optional_of, nullable_of, default_of, bare, bare_fields, outline,
}

module _ {N : Type 0} where
  bare-strip_base : (b : NodeBase N) → bare (strip_base b) ≡ bare b
  unfolding bare strip_base
  bare-strip_base b = refl

  bare_fields-strip_fields : (fs : Fields N) → bare_fields (strip_fields fs) ≡ bare_fields fs
  unfolding bare_fields strip_fields
  bare_fields-strip_fields end = refl
  bare_fields-strip_fields (field k n fs) =
      ap (field k (string (record { metadata = none; modifiers = none; refinements = none })))
        (bare_fields-strip_fields fs)

  pub outline-strip_defaults_for_validate :
      (n : SchemaNode N) → outline (strip_defaults_for_validate n) ≡ outline n
  unfolding outline bare strip_defaults_for_validate strip_own_default strip_base
  outline-strip_defaults_for_validate (object b fs p) =
      ap (λ (f : Fields N). object (bare b) f p) (bare_fields-strip_fields fs)
  outline-strip_defaults_for_validate (string b) = refl
  outline-strip_defaults_for_validate (number b) = refl
  outline-strip_defaults_for_validate (boolean b) = refl
  outline-strip_defaults_for_validate (date b v) = refl
  outline-strip_defaults_for_validate (literal b v) = refl
  outline-strip_defaults_for_validate (enum b v) = refl
  outline-strip_defaults_for_validate (array b e) = refl
  outline-strip_defaults_for_validate (union b o d) = refl
  outline-strip_defaults_for_validate (recursive_ref b t v) = refl
  outline-strip_defaults_for_validate (transform b s i) = refl

  pub nullable_of-strip_base : (b : NodeBase N) → nullable_of (strip_base b) ≡ nullable_of b
  unfolding strip_base strip_modifiers
  nullable_of-strip_base b = ground arith

  pub default_of-strip_base : (b : NodeBase N) → default_of (strip_base b) ≡ none
  unfolding strip_base strip_modifiers
  default_of-strip_base b = ground arith

  pub optional_of-strip_base :
      (b : NodeBase N) → optional_of (strip_base b) ≡ (is_some (default_of b) || optional_of b)
  unfolding strip_base strip_modifiers
  optional_of-strip_base b = ground arith

  pub base-strip_defaults_for_validate :
      (n : SchemaNode N) → base (strip_defaults_for_validate n) ≡ strip_base (base n)
  unfolding base strip_defaults_for_validate strip_own_default
  base-strip_defaults_for_validate (string b) = refl
  base-strip_defaults_for_validate (number b) = refl
  base-strip_defaults_for_validate (boolean b) = refl
  base-strip_defaults_for_validate (date b v) = refl
  base-strip_defaults_for_validate (literal b v) = refl
  base-strip_defaults_for_validate (enum b v) = refl
  base-strip_defaults_for_validate (array b e) = refl
  base-strip_defaults_for_validate (object b fs p) = refl
  base-strip_defaults_for_validate (union b o d) = refl
  base-strip_defaults_for_validate (recursive_ref b t v) = refl
  base-strip_defaults_for_validate (transform b s i) = refl

  -- No default stands in a node, nor in the nodes below an array or an object.
  unfoldable mutual
    unfolding base

    pub HasNoDefaults : SchemaNode N → Type 0
    HasNoDefaults (array b e) = (default_of b ≡ none) × HasNoDefaults e
    HasNoDefaults (object b fs p) = (default_of b ≡ none) × HaveNoDefaults fs
    HasNoDefaults n = default_of (base n) ≡ none

    pub HaveNoDefaults : Fields N → Type 0
    HaveNoDefaults end = Unit
    HaveNoDefaults (field k n fs) = HasNoDefaults n × HaveNoDefaults fs

  mutual
    unfolding HasNoDefaults HaveNoDefaults strip_defaults_for_validate strip_fields
        strip_own_default base

    pub stripped : (n : SchemaNode N) → HasNoDefaults (strip_defaults_for_validate n)
    stripped (array b e) = (default_of-strip_base b, stripped e)
    stripped (object b fs p) = (default_of-strip_base b, stripped_fields fs)
    stripped (string b) = default_of-strip_base b
    stripped (number b) = default_of-strip_base b
    stripped (boolean b) = default_of-strip_base b
    stripped (date b _) = default_of-strip_base b
    stripped (literal b _) = default_of-strip_base b
    stripped (enum b _) = default_of-strip_base b
    stripped (union b _ _) = default_of-strip_base b
    stripped (recursive_ref b _ _) = default_of-strip_base b
    stripped (transform b _ _) = default_of-strip_base b

    stripped_fields : (fs : Fields N) → HaveNoDefaults (strip_fields fs)
    stripped_fields end = tt
    stripped_fields (field k n fs) = (stripped n, stripped_fields fs)
