-- ===== src/Schema/Builders/Modifiers.antt =====
-- `partial` and `required` of builders/object.ts of packages/schema, by what the fields accept.
use neko_stack.Common.{
  String, ◌≡◌, refl, ap, ◌∙◌, sym, Bool-cases, inl, inr, Bool, true, false, Option, none, some,
  arith, if◌then◌else◌,
}
use neko_stack.Js.Json.{Json}
use neko_stack.Js.JsMap.{keys}
use neko_stack.Js.Throws.{returned, ◌>>=◌}
use neko_stack.Schema.Ir.{NodeModifiers, NodeBase}
use neko_stack.Schema.Diff.Compare.{modifiers_or_empty}
use neko_stack.Schema.Diff.Acceptance.{Given, missing, null_value, modifiers_accept}
use neko_stack.Schema.Builders.{
  Schema, string_schema, number_schema, boolean_schema, literal_schema, enum_schema, array_schema,
  object_schema, Shape, empty, entry, node_base, clone, no_modifiers, modifiers_of,
}
use neko_stack.Schema.Builders.Shapes.{Mask, own, keys_not_in}
use neko_stack.Schema.Builders.Causes.{mask_cause}
use neko_stack.Schema.Builders.Lookup.{own-changed_where, unless_some-returned}
use neko_stack.Schema.Builders.Compose.{
  ObjectSchema, composed_object, with_modifiers, make_partial, make_required, affects,
  changed_where, with_mask, with_keys, partial, required,
}

abbrev pub accepts : {N : Type 0} → Schema N → Given → Bool
unfolding node_base
accepts s g = modifiers_accept (node_base s).modifiers g

module _ {N : Type 0} where
  pub node_base-clone : (s : Schema N) (b : NodeBase N) → node_base (clone s b) ≡ b
  unfolding node_base clone
  node_base-clone (string_schema _) b = refl
  node_base-clone (number_schema _) b = refl
  node_base-clone (boolean_schema _) b = refl
  node_base-clone (literal_schema _ _) b = refl
  node_base-clone (enum_schema _ _) b = refl
  node_base-clone (array_schema _ _ _) b = refl
  node_base-clone (object_schema _ _ _ _) b = refl

  pub clone-clone : (s : Schema N) (b c : NodeBase N) → clone (clone s b) c ≡ clone s c
  unfolding clone
  clone-clone (string_schema _) b c = refl
  clone-clone (number_schema _) b c = refl
  clone-clone (boolean_schema _) b c = refl
  clone-clone (literal_schema _ _) b c = refl
  clone-clone (enum_schema _ _) b c = refl
  clone-clone (array_schema _ _ _) b c = refl
  clone-clone (object_schema _ _ _ _) b c = refl

  -- What withModifiers sets is read back, no modifiers standing for none set.
  pub modifiers_of-with_modifiers :
      (b : NodeBase N) (m : NodeModifiers N) → modifiers_of (with_modifiers b m) ≡ m
  unfolding with_modifiers
  modifiers_of-with_modifiers b m = go m.optional m.nullable m.default_value
    where
      go :
          (o n : Option Bool) (d : Option (Json N))
          → modifiers_of
              (with_modifiers b (record { optional = o; nullable = n; default_value = d }))
            ≡ record { optional = o; nullable = n; default_value = d }
      go (some o) n d = refl
      go none (some n) d = refl
      go none none (some d) = refl
      go none none none = refl

  pub with_modifiers-with_modifiers :
      (b : NodeBase N) (m n : NodeModifiers N)
      → with_modifiers (with_modifiers b m) n ≡ with_modifiers b n
  unfolding with_modifiers
  with_modifiers-with_modifiers b m n =
      go n.optional n.nullable n.default_value m.optional m.nullable m.default_value
    where
      with : Option Bool → Option Bool → Option (Json N) → NodeBase N → NodeBase N
      with o n d c = with_modifiers c (record { optional = o; nullable = n; default_value = d })

      go :
          (o n : Option Bool) (d : Option (Json N)) (p q : Option Bool) (e : Option (Json N))
          → with o n d (with p q e b) ≡ with o n d b
      go o n d p q e = ground arith

  pub modifiers_of-eq_empty : (b : NodeBase N) → modifiers_or_empty b.modifiers ≡ modifiers_of b
  modifiers_of-eq_empty b = go b.modifiers
    where
      go :
          (m : Option (NodeModifiers N))
          → modifiers_or_empty m ≡ elim m [ none ↦ no_modifiers | some m ↦ m ]
      go none = refl
      go (some m) = refl

  pub make_partial-modifiers :
      (s : Schema N)
      → modifiers_or_empty (node_base (make_partial s)).modifiers
        ≡ record (modifiers_or_empty (node_base s).modifiers) {
          optional = some true;
          default_value = none;
        }
  unfolding make_partial
  make_partial-modifiers s =
      rw
        (
          modifiers_of-eq_empty (node_base (make_partial s)),
          node_base-clone,
          modifiers_of-with_modifiers,
          modifiers_of-eq_empty (node_base s),
        )
        refl

  pub make_required-modifiers :
      (s : Schema N)
      → modifiers_or_empty (node_base (make_required s)).modifiers
        ≡ record (modifiers_or_empty (node_base s).modifiers) {
          optional = none;
          default_value = none;
        }
  unfolding make_required
  make_required-modifiers s =
      rw
        (
          modifiers_of-eq_empty (node_base (make_required s)),
          node_base-clone,
          modifiers_of-with_modifiers,
          modifiers_of-eq_empty (node_base s),
        )
        refl

  -- Modifiers set twice are those set last.
  clone-with_modifiers_twice :
      (s : Schema N) (m n : NodeModifiers N)
      → clone
          (clone s (with_modifiers (node_base s) m))
          (with_modifiers (node_base (clone s (with_modifiers (node_base s) m))) n)
        ≡ clone s (with_modifiers (node_base s) n)
  clone-with_modifiers_twice s m n =
      clone-clone s _ _
      ∙ ap (clone s) (
          ap (λ (c : NodeBase N). with_modifiers c n) (node_base-clone s _)
          ∙ with_modifiers-with_modifiers (node_base s) m n)

  nullable_kept :
      (s : Schema N) (m : NodeModifiers N)
      → (modifiers_of (node_base (clone s (with_modifiers (node_base s) m)))).nullable ≡ m.nullable
  nullable_kept s m =
      ap (λ (c : NodeBase N). (modifiers_of c).nullable) (node_base-clone s _)
      ∙ ap (λ (q : NodeModifiers N). q.nullable) (modifiers_of-with_modifiers (node_base s) m)

  -- A schema with other `optional` and `default` modifiers, its `nullable` kept.
  absent_as : Schema N → Option Bool → Option (Json N) → Schema N
  absent_as s o d = clone s (
      with_modifiers (node_base s) (record {
        optional = o;
        nullable = (modifiers_of (node_base s)).nullable;
        default_value = d;
      }))

  absent_as-absent_as :
      (s : Schema N) (o p : Option Bool) (d e : Option (Json N))
      → absent_as (absent_as s o d) p e ≡ absent_as s p e
  unfolding absent_as
  absent_as-absent_as s o p d e =
      let nul = (modifiers_of (node_base s)).nullable in
      let m : NodeModifiers N = record { optional = o; nullable = nul; default_value = d } in
      let n : NodeModifiers N = record { optional = p; nullable = nul; default_value = e } in
      ap
        (λ (x : Option Bool). clone (clone s (with_modifiers (node_base s) m)) (
          with_modifiers (node_base (clone s (with_modifiers (node_base s) m)))
            (record { optional = p; nullable = x; default_value = e })))
        {y = nul} (nullable_kept s m)
      ∙ clone-with_modifiers_twice s m n

  pub make_required-make_partial : (s : Schema N) → make_required (make_partial s) ≡ make_required s
  unfolding make_required make_partial absent_as
  make_required-make_partial s = absent_as-absent_as s (some true) none none none

  pub make_partial-make_required : (s : Schema N) → make_partial (make_required s) ≡ make_partial s
  unfolding make_required make_partial absent_as
  make_partial-make_required s = absent_as-absent_as s none (some true) none none

  pub with_keys-returned :
      (op : String) (mask : Option Mask) (shape : Shape N) (r p : ObjectSchema N)
      → with_keys op mask shape r ≡ returned p
      → r ≡ p
  unfolding with_keys with_mask
  with_keys-returned op none shape r p h = cc
  with_keys-returned op (some mask) shape r p h =
      (unless_some-returned (keys_not_in (keys mask) shape) (mask_cause op) r p h).1

  -- The field that a call of `partial` or `required` leaves at a key.
  changed_field :
      (f : Schema N → Schema N) (mask : Option Mask) (o p : ObjectSchema N) (j : String)
      (s : Schema N)
      → composed_object (changed_where (affects mask) f o.shape) o.unknown_keys ≡ p
      → own j o.shape ≡ some s
      → own j p.shape ≡ some (if affects mask j then f s else s)
  unfolding composed_object
  changed_field f mask o p j s h m = rw (sym h) (own-changed_where j (affects mask) f o.shape s m)

  -- Where `partial` returns, a field that it affects, and no other, is replaced by one that accepts
  -- that the value is missing, has no default and accepts null exactly when it did.
  pub partial-accepts :
      (o p : ObjectSchema N) (mask : Option Mask)
      → partial o mask ≡ returned p
      → (j : String) (s : Schema N) → own j o.shape ≡ some s
      → (t : Schema N) × (own j p.shape ≡ some t)
        × (affects mask j ≡ false → t ≡ s)
        × (affects mask j ≡ true
            → (accepts t missing ≡ true)
              × (accepts t null_value ≡ accepts s null_value)
              × ((modifiers_or_empty (node_base t).modifiers).default_value ≡ none))
  unfolding partial
  partial-accepts o p mask h j s m =
      let r = composed_object (changed_where (affects mask) make_partial o.shape) o.unknown_keys in
      (
        if affects mask j then make_partial s else s,
        changed_field make_partial mask o p j s (with_keys-returned "partial" mask o.shape r p h) m,
        λ e. rw e refl,
        λ e. rw (e, make_partial-modifiers s) (refl, refl, refl),
      )

  -- Where `required` returns, a field that it affects, and no other, is replaced by one that refuses
  -- that the value is missing, has no default and accepts null exactly when it did.
  pub required-accepts :
      (o p : ObjectSchema N) (mask : Option Mask)
      → required o mask ≡ returned p
      → (j : String) (s : Schema N) → own j o.shape ≡ some s
      → (t : Schema N) × (own j p.shape ≡ some t)
        × (affects mask j ≡ false → t ≡ s)
        × (affects mask j ≡ true
            → (accepts t missing ≡ false)
              × (accepts t null_value ≡ accepts s null_value)
              × ((modifiers_or_empty (node_base t).modifiers).default_value ≡ none))
  unfolding required
  required-accepts o p mask h j s m =
      let r = composed_object (changed_where (affects mask) make_required o.shape) o.unknown_keys in
      (
        if affects mask j then make_required s else s,
        changed_field make_required mask o p j s (with_keys-returned "required" mask o.shape r p h)
            m,
        λ e. rw e refl,
        λ e. rw (e, make_required-modifiers s) (refl, refl, refl),
      )

  changed_where_twice :
      (affected : String → Bool) (f g : Schema N → Schema N)
      → ((s : Schema N) → g (f s) ≡ g s)
      → (shape : Shape N)
      → changed_where affected g (changed_where affected f shape) ≡ changed_where affected g shape
  unfolding changed_where
  changed_where_twice affected f g e empty = refl
  changed_where_twice affected f g e (entry k s shape) = elim (Bool-cases (affected k)) [
    | inl y ↦ rw (y, e s, changed_where_twice affected f g e shape) refl
    | inr n ↦ rw (n, changed_where_twice affected f g e shape) refl
  ]

  -- `required` after `partial`, both without a mask, gives what `required` alone gives, and
  -- `partial` after `required` what `partial` alone gives.
  pub required-partial :
      (o : ObjectSchema N)
      → (partial o none >>= (λ p. required p none) ≡ required o none)
        × (required o none >>= (λ p. partial p none) ≡ partial o none)
  unfolding partial required with_keys composed_object
  required-partial o = (
    rw
        (changed_where_twice (affects none) make_partial make_required make_required-make_partial
          o.shape)
        refl,
    rw
        (changed_where_twice (affects none) make_required make_partial make_partial-make_required
          o.shape)
        refl,
  )
