-- ===== src/Schema/StripDefaults/Acceptance.antt =====
-- What the node that `validate` compiles takes (runtime/strip-defaults.ts of packages/schema).
use neko_stack.Common.{
  ◌≡◌, refl, sym, ap, ap₂, ◌∙◌, Bool, true, Option, none, some, ◌||◌, ◌&&◌, arith, fun_ext,
}
use neko_stack.Js.Json.{Json, Items, nil, cons, Members, null, bool, num, str, arr, obj}
use neko_stack.Schema.Ir.{
  SchemaNode, base, string, number, boolean, date, literal, enum, array, object, union,
  recursive_ref, transform, Fields, end, field,
}
use neko_stack.Js.JsMap.{is_some}
use neko_stack.Schema.StripDefaults.{strip_own_default, strip_defaults_for_validate, strip_fields}
use neko_stack.Schema.StripDefaults.Takes.{
  all_items, property, optional_of, nullable_of, default_of, is_null, admits_value, admits_missing,
  admits, takes_below, takes_fields, IsTakenBy, takes, HasValidDefaults, HaveValidDefaults,
}
use neko_stack.Schema.StripDefaults.Outline.{
  outline-strip_defaults_for_validate, nullable_of-strip_base, default_of-strip_base,
  optional_of-strip_base, base-strip_defaults_for_validate, HasNoDefaults, stripped,
}

and_split : (a b : Bool) → (a && b) ≡ true → (a ≡ true) × (b ≡ true)
and_split a b h = (ground arith, ground arith)

module _ {N : Type 0} where
  all_items_le :
      (f g : Json N → Bool)
      → ((x : Json N) → f x ≡ true → g x ≡ true)
      → (xs : Items N) → all_items f xs ≡ true
      → all_items g xs ≡ true
  unfolding all_items
  all_items_le f g le nil h = refl
  all_items_le f g le (cons x xs) h =
      let (here, later) = and_split (f x) (all_items f xs) h in
      ap₂ (λ (a c : Bool). a && c) (le x here) (all_items_le f g le xs later)

  module _ (check : SchemaNode N → Json N → Bool) where
    admits_value-strip :
        (n : SchemaNode N) (f : Json N → Bool) (v : Json N)
        → admits_value check (strip_defaults_for_validate n) f v ≡ admits_value check n f v
    unfolding admits_value
    admits_value-strip n f v =
        ap₂ (λ (a c : Bool). (is_null v && a) || (c && f v))
          (ap nullable_of (base-strip_defaults_for_validate n) ∙ nullable_of-strip_base (base n))
          (ap (λ (m : SchemaNode N). check m v) (outline-strip_defaults_for_validate n))

    admits-strip_missing :
        (n : SchemaNode N) (f : Json N → Bool)
        → admits check (strip_defaults_for_validate n) f none
          ≡ (is_some (default_of (base n)) || optional_of (base n))
    unfolding admits
    admits-strip_missing n f =
        let m = strip_defaults_for_validate n in
        let e = base-strip_defaults_for_validate n in
        ap (admits_missing check m f) (ap default_of e ∙ default_of-strip_base (base n))
        ∙ ap optional_of e
        ∙ optional_of-strip_base (base n)

    missing_le :
        (n : SchemaNode N) (f : Json N → Bool) (d : Option (Json N))
        → admits_missing check n f d ≡ true
        → (is_some d || optional_of (base n)) ≡ true
    missing_le n f none h = h
    missing_le n f (some d) h = refl

    admits_value_le :
        (n : SchemaNode N) (f g : Json N → Bool) (v : Json N)
        → (f v ≡ true → g v ≡ true)
        → admits_value check n f v ≡ true
        → admits_value check n g v ≡ true
    unfolding admits_value
    admits_value_le n f g v le h = ground arith

    -- What a node takes check is taken without its default.
    admits_le :
        (n : SchemaNode N) (f g : Json N → Bool)
        → ((x : Json N) → f x ≡ true → g x ≡ true)
        → (v : Option (Json N)) → admits check n f v ≡ true
        → admits check (strip_defaults_for_validate n) g v ≡ true
    unfolding admits
    admits_le n f g le none h = admits-strip_missing n g ∙ missing_le n f (default_of (base n)) h
    admits_le n f g le (some v) h = admits_value-strip n g v ∙ admits_value_le n f g v (le v) h

    mutual
      unfolding takes_below strip_defaults_for_validate strip_fields strip_own_default

      below_le :
          (n : SchemaNode N) (v : Json N)
          → takes_below check n v ≡ true
          → takes_below check (strip_defaults_for_validate n) v ≡ true
      below_le (array b e) (arr xs) h =
          all_items_le (λ x. admits check e (takes_below check e) (some x)) _
            (λ x. admits_le e _ _ (below_le e) (some x)) xs h
      below_le (array b e) null h = refl
      below_le (array b e) (bool _) h = refl
      below_le (array b e) (num _) h = refl
      below_le (array b e) (str _) h = refl
      below_le (array b e) (obj _) h = refl
      below_le (object b fs p) (obj ms) h = fields_le fs ms h
      below_le (object b fs p) null h = refl
      below_le (object b fs p) (bool _) h = refl
      below_le (object b fs p) (num _) h = refl
      below_le (object b fs p) (str _) h = refl
      below_le (object b fs p) (arr _) h = refl
      below_le (string b) v h = refl
      below_le (number b) v h = refl
      below_le (boolean b) v h = refl
      below_le (date b _) v h = refl
      below_le (literal b _) v h = refl
      below_le (enum b _) v h = refl
      below_le (union b _ _) v h = refl
      below_le (recursive_ref b _ _) v h = refl
      below_le (transform b _ _) v h = refl

      fields_le :
          (fs : Fields N) (ms : Members N)
          → takes_fields check fs ms ≡ true
          → takes_fields check (strip_fields fs) ms ≡ true
      fields_le end ms h = refl
      fields_le (field k n fs) ms h =
          let (here, later) = and_split _ _ h in
          ap₂ (λ (a c : Bool). a && c) (admits_le n _ _ (below_le n) (property k ms) here)
            (fields_le fs ms later)

    takes-le :
        (n : SchemaNode N) (v : Option (Json N))
        → takes check n v ≡ true
        → takes check (strip_defaults_for_validate n) v ≡ true
    unfolding takes
    takes-le n v h = admits_le n _ _ (below_le n) v h

    -- With valid defaults
    IsTakenBy-default :
        (n : SchemaNode N) → HasValidDefaults check n → IsTakenBy check n (default_of (base n))
    unfolding HasValidDefaults base
    IsTakenBy-default (array b e) h = h.0
    IsTakenBy-default (object b fs p) h = h.0
    IsTakenBy-default (string b) h = h
    IsTakenBy-default (number b) h = h
    IsTakenBy-default (boolean b) h = h
    IsTakenBy-default (date b _) h = h
    IsTakenBy-default (literal b _) h = h
    IsTakenBy-default (enum b _) h = h
    IsTakenBy-default (union b _ _) h = h
    IsTakenBy-default (recursive_ref b _ _) h = h
    IsTakenBy-default (transform b _ _) h = h

    missing_eq :
        (n : SchemaNode N) (d : Option (Json N))
        → IsTakenBy check n d
        → (is_some d || optional_of (base n)) ≡ admits_missing check n (takes_below check n) d
    unfolding takes
    missing_eq n none h = refl
    missing_eq n (some d) h = sym h

    admits_eq :
        (n : SchemaNode N) (f : Json N → Bool)
        → f ≡ takes_below check n
        → IsTakenBy check n (default_of (base n))
        → (v : Option (Json N)) → admits check (strip_defaults_for_validate n) f v ≡ takes check n v
    unfolding admits takes
    admits_eq n f e h none = admits-strip_missing n f ∙ missing_eq n (default_of (base n)) h
    admits_eq n f e h (some v) =
        admits_value-strip n f v ∙ ap (λ (g : Json N → Bool). admits_value check n g v) e

    mutual
      unfolding takes_below takes strip_defaults_for_validate strip_fields strip_own_default
          HasValidDefaults

      below_eq :
          (n : SchemaNode N)
          → HasValidDefaults check n
          → (v : Json N)
          → takes_below check (strip_defaults_for_validate n) v ≡ takes_below check n v
      below_eq (array b e) (own, h) (arr xs) =
          ap (λ (f : Json N → Bool). all_items f xs)
            (fun_ext (λ x. admits_eq e _ (fun_ext (below_eq e h)) (IsTakenBy-default e h) (some x)))
      below_eq (array b e) h null = refl
      below_eq (array b e) h (bool _) = refl
      below_eq (array b e) h (num _) = refl
      below_eq (array b e) h (str _) = refl
      below_eq (array b e) h (obj _) = refl
      below_eq (object b fs p) (own, h) (obj ms) = fields_eq fs h ms
      below_eq (object b fs p) h null = refl
      below_eq (object b fs p) h (bool _) = refl
      below_eq (object b fs p) h (num _) = refl
      below_eq (object b fs p) h (str _) = refl
      below_eq (object b fs p) h (arr _) = refl
      below_eq (string b) h v = refl
      below_eq (number b) h v = refl
      below_eq (boolean b) h v = refl
      below_eq (date b _) h v = refl
      below_eq (literal b _) h v = refl
      below_eq (enum b _) h v = refl
      below_eq (union b _ _) h v = refl
      below_eq (recursive_ref b _ _) h v = refl
      below_eq (transform b _ _) h v = refl

      fields_eq :
          (fs : Fields N)
          → HaveValidDefaults check fs
          → (ms : Members N) → takes_fields check (strip_fields fs) ms ≡ takes_fields check fs ms
      fields_eq end h ms = refl
      fields_eq (field k n fs) (here, later) ms =
          ap₂ (λ (a c : Bool). a && c)
            (admits_eq n _ (fun_ext (below_eq n here)) (IsTakenBy-default n here) (property k ms))
            (fields_eq fs later ms)

  -- Whatever checks a node's own kind, refinements and keys: what a schema takes, with its defaults
  -- for what is missing, is taken by the node that `validate` compiles, which has no default at any
  -- depth of arrays and objects.
  pub strip_defaults_for_validate_lem :
      (check : SchemaNode N → Json N → Bool) (n : SchemaNode N) (v : Option (Json N))
      → takes check n v ≡ true
      → HasNoDefaults (strip_defaults_for_validate n)
        × (takes check (strip_defaults_for_validate n) v ≡ true)
  strip_defaults_for_validate_lem check n v h = (stripped n, takes-le check n v h)

  -- Where each default of a schema is a value that its own node takes, the node that `validate`
  -- compiles takes exactly what the schema takes.
  pub takes-strip_defaults_for_validate :
      (check : SchemaNode N → Json N → Bool) (n : SchemaNode N)
      → HasValidDefaults check n
      → (v : Option (Json N)) → takes check (strip_defaults_for_validate n) v ≡ takes check n v
  unfolding takes
  takes-strip_defaults_for_validate check n h v =
      admits_eq check n _ (fun_ext (below_eq check n h)) (IsTakenBy-default check n h) v
