-- ===== src/Schema/StripDefaults.antt =====
-- runtime/strip-defaults.ts of packages/schema: the variant of a node that `validate` compiles.
pub mod Takes
pub mod Outline
pub mod Acceptance
mod Tests
use neko_stack.Common.{
  ◌≡◌, refl, ap, ap₂, String, Bool, true, false, Option, none, some, List, ◌∷◌, ◌||◌, arith,
}
use neko_stack.Js.Json.{Json}
use neko_stack.Js.JsMap.{is_some}
use neko_stack.Schema.Ir.{
  NodeModifiers, NodeMetadata, Refinement, NodeBase, DateVariant, EnumValue, UnknownKeysPolicy,
  SchemaNode, string, number, boolean, date, literal, enum, array, object, union, recursive_ref,
  transform, Fields, end, field, Alternatives,
}
use neko_stack.Schema.Diff.Compare.{is_true, modifiers_or_empty}
use neko_stack.Schema.Diff.Acceptance.{Given, missing, null_value, value, modifiers_accept}

module _ {N : Type 0} where
  unfoldable pub strip_modifiers : NodeModifiers N → NodeModifiers N
  strip_modifiers m = elim m.default_value [
    | none ↦ m
    | some v ↦ record { optional = some true; nullable = m.nullable; default_value = none }
  ]

  unfoldable pub strip_base : NodeBase N → NodeBase N
  unfolding strip_modifiers
  strip_base b = record b {
    modifiers = elim b.modifiers [ none ↦ none | some m ↦ some (strip_modifiers m) ];
  }

  -- stripOwnDefault
  unfoldable pub strip_own_default : SchemaNode N → SchemaNode N
  unfolding strip_base
  strip_own_default (string b) = string (strip_base b)
  strip_own_default (number b) = number (strip_base b)
  strip_own_default (boolean b) = boolean (strip_base b)
  strip_own_default (date b variant) = date (strip_base b) variant
  strip_own_default (literal b v) = literal (strip_base b) v
  strip_own_default (enum b values) = enum (strip_base b) values
  strip_own_default (array b element) = array (strip_base b) element
  strip_own_default (object b fields policy) = object (strip_base b) fields policy
  strip_own_default (union b options discriminator) = union (strip_base b) options discriminator
  strip_own_default (recursive_ref b target version) = recursive_ref (strip_base b) target version
  strip_own_default (transform b source id) = transform (strip_base b) source id

  unfoldable mutual
    unfolding strip_own_default

    -- stripDefaultsForValidate, and recurseChildren by kind
    pub strip_defaults_for_validate : SchemaNode N → SchemaNode N
    strip_defaults_for_validate (array b element) =
        strip_own_default (array b (strip_defaults_for_validate element))
    strip_defaults_for_validate (object b fields policy) =
        strip_own_default (object b (strip_fields fields) policy)
    strip_defaults_for_validate (string b) = strip_own_default (string b)
    strip_defaults_for_validate (number b) = strip_own_default (number b)
    strip_defaults_for_validate (boolean b) = strip_own_default (boolean b)
    strip_defaults_for_validate (date b variant) = strip_own_default (date b variant)
    strip_defaults_for_validate (literal b v) = strip_own_default (literal b v)
    strip_defaults_for_validate (enum b values) = strip_own_default (enum b values)
    strip_defaults_for_validate (union b options discriminator) =
        strip_own_default (union b options discriminator)
    strip_defaults_for_validate (recursive_ref b target version) =
        strip_own_default (recursive_ref b target version)
    strip_defaults_for_validate (transform b source id) = strip_own_default (transform b source id)

    -- No field is named `__proto__`, to which an assignment would add no property.
    pub strip_fields : Fields N → Fields N
    strip_fields end = end
    strip_fields (field k node fields) =
        field k (strip_defaults_for_validate node) (strip_fields fields)

  strip_modifiers_twice :
      (m : NodeModifiers N) → strip_modifiers (strip_modifiers m) ≡ strip_modifiers m
  unfolding strip_modifiers
  strip_modifiers_twice m = go m.default_value
    where
      with : Option (Json N) → NodeModifiers N
      with d = record m { default_value = d }

      go :
          (d : Option (Json N))
          → strip_modifiers (strip_modifiers (with d)) ≡ strip_modifiers (with d)
      go none = refl
      go (some v) = refl

  strip_base_twice : (b : NodeBase N) → strip_base (strip_base b) ≡ strip_base b
  unfolding strip_base
  strip_base_twice b = go b.modifiers
    where
      with : Option (NodeModifiers N) → NodeBase N
      with m = record b { modifiers = m }

      go : (m : Option (NodeModifiers N)) → strip_base (strip_base (with m)) ≡ strip_base (with m)
      go none = refl
      go (some m) = ap (λ (n : NodeModifiers N). with (some n)) (strip_modifiers_twice m)

  strip_own_default_twice :
      (n : SchemaNode N) → strip_own_default (strip_own_default n) ≡ strip_own_default n
  unfolding strip_own_default
  strip_own_default_twice (string b) = ap string (strip_base_twice b)
  strip_own_default_twice (number b) = ap number (strip_base_twice b)
  strip_own_default_twice (boolean b) = ap boolean (strip_base_twice b)
  strip_own_default_twice (date b v) = ap (λ (c : NodeBase N). date c v) (strip_base_twice b)
  strip_own_default_twice (literal b v) = ap (λ (c : NodeBase N). literal c v) (strip_base_twice b)
  strip_own_default_twice (enum b v) = ap (λ (c : NodeBase N). enum c v) (strip_base_twice b)
  strip_own_default_twice (array b e) = ap (λ (c : NodeBase N). array c e) (strip_base_twice b)
  strip_own_default_twice (object b f p) =
      ap (λ (c : NodeBase N). object c f p) (strip_base_twice b)
  strip_own_default_twice (union b o d) = ap (λ (c : NodeBase N). union c o d) (strip_base_twice b)
  strip_own_default_twice (recursive_ref b t v) =
      ap (λ (c : NodeBase N). recursive_ref c t v) (strip_base_twice b)
  strip_own_default_twice (transform b s i) =
      ap (λ (c : NodeBase N). transform c s i) (strip_base_twice b)

  mutual
    unfolding strip_defaults_for_validate strip_fields strip_own_default

    -- Stripping the defaults of a node that is stripped changes nothing.
    pub strip_defaults_for_validate_twice :
        (n : SchemaNode N)
        → strip_defaults_for_validate (strip_defaults_for_validate n)
          ≡ strip_defaults_for_validate n
    strip_defaults_for_validate_twice (array b e) =
        ap₂ array (strip_base_twice b) (strip_defaults_for_validate_twice e)
    strip_defaults_for_validate_twice (object b fields policy) =
        ap₂ (λ (c : NodeBase N) (fs : Fields N). object c fs policy) (strip_base_twice b)
          (strip_fields_twice fields)
    strip_defaults_for_validate_twice (string b) = strip_own_default_twice (string b)
    strip_defaults_for_validate_twice (number b) = strip_own_default_twice (number b)
    strip_defaults_for_validate_twice (boolean b) = strip_own_default_twice (boolean b)
    strip_defaults_for_validate_twice (date b v) = strip_own_default_twice (date b v)
    strip_defaults_for_validate_twice (literal b v) = strip_own_default_twice (literal b v)
    strip_defaults_for_validate_twice (enum b v) = strip_own_default_twice (enum b v)
    strip_defaults_for_validate_twice (union b o d) = strip_own_default_twice (union b o d)
    strip_defaults_for_validate_twice (recursive_ref b t v) =
        strip_own_default_twice (recursive_ref b t v)
    strip_defaults_for_validate_twice (transform b s i) = strip_own_default_twice (transform b s i)

    strip_fields_twice : (fs : Fields N) → strip_fields (strip_fields fs) ≡ strip_fields fs
    strip_fields_twice end = refl
    strip_fields_twice (field k n fs) =
        ap₂ (field k) (strip_defaults_for_validate_twice n) (strip_fields_twice fs)
