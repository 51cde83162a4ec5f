-- ===== src/Schema/Builders/Nodes.antt =====
-- The node of an array's element and those of an object's fields are the nodes of the schemas that
-- stand there: what the parts of the operators of builders/object.ts of packages/schema keep.
use neko_stack.Common.{
  String, ◌≡◌, refl, subst, ◌∙◌, Bool, Option, none, some, true, false, List, [], ◌∷◌, arith, ◌==◌,
  eq_iff, Bool-cases, inl, inr,
}
use neko_stack.Schema.Ir.{NodeBase}
use neko_stack.Schema.Builders.{
  Schema, string_schema, number_schema, boolean_schema, literal_schema, enum_schema, array_schema,
  object_schema, Shape, empty, entry, node, clone, fields_of,
}
use neko_stack.Schema.Builders.Shapes.{Mask, own, is_in, put, spread, asks}
use neko_stack.Schema.Builders.Compose.{put_own, kept, picked, omitted, changed_where}
use neko_stack.Schema.Builders.Merge.{
  Conflict, Merging, merge_present, merge_absent, merge_round, merge_fields,
}
use neko_stack.Schema.Builders.Lookup.{own-put, own-omitted-none, own-changed_where-none}

module _ {N : Type 0} where
  unfoldable mutual
    unfolding node fields_of own

    pub IsCoherent : Schema N → Type 0
    IsCoherent (string_schema b) = Unit
    IsCoherent (number_schema b) = Unit
    IsCoherent (boolean_schema b) = Unit
    IsCoherent (literal_schema b value) = Unit
    IsCoherent (enum_schema b values) = Unit
    IsCoherent (array_schema element b inner) = (inner ≡ node element) × IsCoherent element
    IsCoherent (object_schema shape b fields policy) =
        (fields ≡ fields_of shape) × IsCoherentShape shape

    -- No key stands twice, and each schema is coherent.
    pub IsCoherentShape : Shape N → Type 0
    IsCoherentShape empty = Unit
    IsCoherentShape (entry k s shape) = (own k shape ≡ none) × IsCoherent s × IsCoherentShape shape

  pub IsCoherent-clone : (s : Schema N) (b : NodeBase N) → IsCoherent s → IsCoherent (clone s b)
  unfolding IsCoherent clone
  IsCoherent-clone (string_schema _) b h = h
  IsCoherent-clone (number_schema _) b h = h
  IsCoherent-clone (boolean_schema _) b h = h
  IsCoherent-clone (literal_schema _ _) b h = h
  IsCoherent-clone (enum_schema _ _) b h = h
  IsCoherent-clone (array_schema _ _ _) b h = h
  IsCoherent-clone (object_schema _ _ _ _) b h = h

  own-put_other :
      (j k : String) (s : Schema N) (shape : Shape N)
      → (k == j) ≡ false
      → own j shape ≡ none
      → own j (put k s shape) ≡ none
  own-put_other j k s shape n h = own-put j k s shape ∙ rw (n, h) refl

  IsCoherentShape-put :
      (k : String) (s : Schema N) (shape : Shape N)
      → IsCoherent s
      → IsCoherentShape shape
      → IsCoherentShape (put k s shape)
  unfolding IsCoherentShape put own
  IsCoherentShape-put k s empty c h = (refl, c, tt)
  IsCoherentShape-put k s (entry j t shape) c (fresh, d, h) = elim (Bool-cases (j == k)) [
    | inl e ↦ rw e (fresh, c, h)
    | inr e ↦
        let n : (k == j) ≡ false = ground (arith, eq_iff j k, eq_iff k j) in
        rw e (own-put_other j k s shape n fresh, d, IsCoherentShape-put k s shape c h)
  ]

  pub IsCoherentShape-spread :
      (shape extension : Shape N)
      → IsCoherentShape shape
      → IsCoherentShape extension
      → IsCoherentShape (spread shape extension)
  unfolding IsCoherentShape spread
  IsCoherentShape-spread shape empty h g = h
  IsCoherentShape-spread shape (entry k s extension) h (fresh, c, g) =
      IsCoherentShape-spread (put k s shape) extension (IsCoherentShape-put k s shape c h) g

  pub IsCoherentShape-omitted :
      (mask : Mask) (shape : Shape N) → IsCoherentShape shape → IsCoherentShape (omitted mask shape)
  unfolding IsCoherentShape omitted
  IsCoherentShape-omitted mask empty h = h
  IsCoherentShape-omitted mask (entry k s shape) (fresh, c, h) = elim (Bool-cases (asks mask k)) [
    | inl e ↦ rw e (IsCoherentShape-omitted mask shape h)
    | inr e ↦ rw e (own-omitted-none k mask shape fresh, c, IsCoherentShape-omitted mask shape h)
  ]

  pub IsCoherentShape-changed_where :
      (affected : String → Bool) (f : Schema N → Schema N)
      → ((s : Schema N) → IsCoherent s → IsCoherent (f s))
      → (shape : Shape N) → IsCoherentShape shape
      → IsCoherentShape (changed_where affected f shape)
  unfolding IsCoherentShape changed_where
  IsCoherentShape-changed_where affected f g empty h = h
  IsCoherentShape-changed_where affected f g (entry k s shape) (fresh, c, h) =
      let h' = IsCoherentShape-changed_where affected f g shape h in
      let fresh' = own-changed_where-none k affected f shape fresh in
      elim (Bool-cases (affected k)) [
        | inl e ↦ rw e (fresh', g s c, h')
        | inr e ↦ rw e (fresh', c, h')
      ]

  -- A schema that stands in a coherent shape is coherent.
  IsCoherent-own :
      (k : String) (shape : Shape N)
      → IsCoherentShape shape
      → (s : Schema N) → own k shape ≡ some s
      → IsCoherent s
  unfolding IsCoherentShape own
  IsCoherent-own k empty h s e = cc
  IsCoherent-own k (entry j t shape) (fresh, c, h) s e = elim (Bool-cases (j == k)) [
    | inl y ↦ let p : t ≡ s = ground arith in subst IsCoherent p c
    | inr n ↦ IsCoherent-own k shape h s (ground arith)
  ]

  IsCoherentShape-kept :
      (k : String) (mask : Mask) (shape out : Shape N)
      → IsCoherentShape shape
      → IsCoherentShape out
      → IsCoherentShape (kept k mask shape out)
  unfolding kept put_own
  IsCoherentShape-kept k mask shape out h g = elim (Bool-cases (asks mask k)) [
    | inl y ↦ rw y (go (own k shape) refl)
    | inr n ↦ rw n g
  ]
    where
      go : (o : Option (Schema N)) → own k shape ≡ o → IsCoherentShape (put_own k o out)
      go none e = g
      go (some s) e = IsCoherentShape-put k s out (IsCoherent-own k shape h s e) g

  IsCoherentShape-picked :
      (ks : List String) (mask : Mask) (shape out : Shape N)
      → IsCoherentShape shape
      → IsCoherentShape out
      → IsCoherentShape (picked ks mask shape out)
  unfolding picked
  IsCoherentShape-picked [] mask shape out h g = g
  IsCoherentShape-picked (k ∷ ks) mask shape out h g =
      IsCoherentShape-picked ks mask shape (kept k mask shape out) h
        (IsCoherentShape-kept k mask shape out h g)

  pub IsCoherentShape-picked_keys :
      (ks : List String) (mask : Mask) (shape : Shape N)
      → IsCoherentShape shape
      → IsCoherentShape (picked ks mask shape empty)
  unfolding IsCoherentShape
  IsCoherentShape-picked_keys ks mask shape h = IsCoherentShape-picked ks mask shape empty h tt

  IsCoherentShape-merge_round :
      (c : Conflict) (present : Bool) (k : String) (s : Schema N) (m : Merging N)
      → IsCoherent s
      → IsCoherentShape m.new_shape
      → IsCoherentShape (merge_round c present k s m).new_shape
  unfolding merge_round merge_present merge_absent
  IsCoherentShape-merge_round Conflict.throws true k s m c h = h
  IsCoherentShape-merge_round Conflict.left true k s m c h = h
  IsCoherentShape-merge_round Conflict.right true k s m c h =
      IsCoherentShape-put k s m.new_shape c h
  IsCoherentShape-merge_round _ false k s m c h = IsCoherentShape-put k s m.new_shape c h

  pub IsCoherentShape-merge_fields :
      (c : Conflict) (shape other : Shape N) (m : Merging N)
      → IsCoherentShape other
      → IsCoherentShape m.new_shape
      → IsCoherentShape (merge_fields c shape other m).new_shape
  unfolding merge_fields IsCoherentShape
  IsCoherentShape-merge_fields c shape empty m g h = h
  IsCoherentShape-merge_fields c shape (entry k s other) m (fresh, d, g) h =
      IsCoherentShape-merge_fields c shape other (merge_round c (is_in k shape) k s m) g
        (IsCoherentShape-merge_round c (is_in k shape) k s m d h)
