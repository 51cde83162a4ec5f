-- ===== src/Schema/Builders/Operators.antt =====
-- `extend`, `pick`, `omit` and `merge` of builders/object.ts of packages/schema, by what they leave
-- at each key.
use neko_stack.Common.{
  String, ◌≡◌, ◌≢◌, ◌↔◌, refl, ap, ◌∙◌, sym, Bool, true, false, ◌||◌, Option, none, some, List, [],
  ◌∷◌, ◌++◌, arith, if◌then◌else◌, Bool-cases, inl, inr, In, append-nil, append_assoc, eq_of_==,
  ◌==◌,
}
use neko_stack.Js.JsMap.{keys, includes, is_some}
use neko_stack.Js.Throws.{Outcome, returned, threw, ◌>>=◌}
use neko_stack.Schema.Ir.{UnknownKeysPolicy}
use neko_stack.Schema.Diff.Walk.{prototype_members}
use neko_stack.Schema.Builders.{Schema, Shape, empty, entry, no_base, fields_of}
use neko_stack.Schema.Builders.Shapes.{
  Mask, filtered, asks, own, is_in, shape_keys, keys_in, keys_not_in, spread,
}
use neko_stack.Schema.Builders.Causes.{extend_cause, mask_cause, merge_cause, unless_some}
use neko_stack.Schema.Builders.Compose.{
  ObjectSchema, composed_object, with_mask, extend, picked, pick, omitted, omit,
}
use neko_stack.Schema.Builders.Merge.{
  Conflict, MergeOptions, or_throws, Merging, merge_present, merge_absent, merge_fields,
  merge_round, merge_policy, merge,
}
use neko_stack.Schema.Builders.Lookup.{
  or_else, IsDistinct, own-put, own-spread, own-omitted, own-picked, includes_of_asks, keys_in-nil,
  unless_some-returned, unless_some-threw,
}

or-false : (a b : Bool) → b ≡ false → (a || b) ≡ a
or-false a b h = ground arith

or-true : (a b : Bool) → b ≡ true → (a || b) ≡ true
or-true a b h = ground arith

module _ {N : Type 0} where
  -- `extend` throws exactly where a key of the extension is in the base, `Object.prototype` included.
  -- Where it returns, a field of the result is that of the extension, and otherwise that of the base.
  -- The policy for unknown keys is kept, and nothing of the base's metadata is.
  pub extend_lem :
      (o : ObjectSchema N) (extension : Shape N)
      → IsDistinct extension
      → ((keys_in (shape_keys extension) o.shape ≢ [])
          ↔ (extend o extension ≡ threw (extend_cause (keys_in (shape_keys extension) o.shape))))
        × ((p : ObjectSchema N)
            → extend o extension ≡ returned p
            → ((k : String) → In k (shape_keys extension) → is_in k o.shape ≡ false)
              × ((j : String) → own j p.shape ≡ or_else (own j extension) (own j o.shape))
              × (p.unknown_keys ≡ o.unknown_keys)
              × (p.base ≡ no_base))
  unfolding extend composed_object
  extend_lem o extension d =
      let ks = keys_in (shape_keys extension) o.shape in
      let r = composed_object (spread o.shape extension) o.unknown_keys in
      (
        unless_some-threw ks extend_cause r,
        λ p h.
            let (e, q) = unless_some-returned ks extend_cause r p h in
            (
              keys_in-nil (shape_keys extension) o.shape e,
              λ j. rw (sym q) (own-spread j o.shape extension d),
              rw (sym q) refl,
              rw (sym q) refl,
            ),
      )

  picked_at :
      (j : String) (mask : Mask) (shape : Shape N)
      → own j (picked (keys mask) mask shape empty) ≡ (if asks mask j then own j shape else none)
  unfolding own
  picked_at j mask shape =
      own-picked j (keys mask) mask shape empty ∙ elim (Bool-cases (asks mask j)) [
        | inl e ↦ rw (e, includes_of_asks j mask e) (go (own j shape))
        | inr e ↦ ground arith
      ]
    where
      go : (o : Option (Schema N)) → (if is_some o then o else none) ≡ o
      go none = refl
      go (some s) = refl

  -- Of a mask, `pick` keeps the fields that it asks for and `omit` the others.
  pub pick-omit :
      (o p q : ObjectSchema N) (mask : Mask)
      → pick o mask ≡ returned p
      → omit o mask ≡ returned q
      → (j : String)
      → (own j p.shape ≡ (if asks mask j then own j o.shape else none))
        × (own j q.shape ≡ (if asks mask j then none else own j o.shape))
  unfolding pick omit with_mask
  pick-omit o p q mask hp hq j =
      let ks = keys_not_in (keys mask) o.shape in
      let kept = composed_object (picked (keys mask) mask o.shape empty) o.unknown_keys in
      let left = composed_object (omitted mask o.shape) o.unknown_keys in
      let (_, e) = unless_some-returned ks (mask_cause "pick") kept p hp in
      let (_, f) = unless_some-returned ks (mask_cause "omit") left q hq in
      (rw (sym e) (picked_at j mask o.shape), rw (sym f) (own-omitted j mask o.shape))

  -- What the loop of `merge` leaves at a key: the other object's field there, and the one so far.
  abbrev merged_at :
      Conflict → (present : Bool) → Option (Schema N) → Option (Schema N) → Option (Schema N)
  merged_at c present none so_far = so_far
  merged_at Conflict.right present (some s) so_far = some s
  merged_at _ true (some s) so_far = so_far
  merged_at _ false (some s) so_far = some s

  own-merge_round :
      (c : Conflict) (present : Bool) (j k : String) (s : Schema N) (m : Merging N)
      → own j (merge_round c present k s m).new_shape
        ≡ (if k == j then merged_at c present (some s) (own j m.new_shape) else own j m.new_shape)
  unfolding merge_round merge_present merge_absent
  own-merge_round c present j k s m = ground (arith, own-put j k s m.new_shape)

  own-merge_fields :
      (c : Conflict) (shape other : Shape N) (m : Merging N) (j : String)
      → IsDistinct other
      → own j (merge_fields c shape other m).new_shape
        ≡ merged_at c (is_in j shape) (own j other) (own j m.new_shape)
  unfolding merge_fields own IsDistinct
  own-merge_fields c shape empty m j d = refl
  own-merge_fields c shape (entry k s other) m j (fresh, d) =
      own-merge_fields c shape other (merge_round c (is_in k shape) k s m) j d
      ∙ ap (merged_at c (is_in j shape) (own j other)) (own-merge_round c (is_in k shape) j k s m)
      ∙ elim (Bool-cases (k == j)) [
        | inl e ↦
            let p : k ≡ j = eq_of_== k j e in
            let none_left : own j other ≡ none = rw (sym p) fresh in rw (e, none_left, p) refl
        | inr e ↦ rw e refl
      ]

  collisions-merge_round :
      (present : Bool) (k : String) (s : Schema N) (m : Merging N)
      → (merge_round Conflict.throws present k s m).collisions
        ≡ m.collisions ++ (if present then k ∷ [] else [])
  unfolding merge_round merge_present merge_absent
  collisions-merge_round true k s m = refl
  collisions-merge_round false k s m = sym (append-nil m.collisions)

  collisions-merge_fields :
      (shape other : Shape N) (m : Merging N)
      → (merge_fields Conflict.throws shape other m).collisions
        ≡ m.collisions ++ keys_in (shape_keys other) shape
  unfolding merge_fields keys_in filtered shape_keys
  collisions-merge_fields shape empty m = sym (append-nil m.collisions)
  collisions-merge_fields shape (entry k s other) m =
      collisions-merge_fields shape other (merge_round Conflict.throws (is_in k shape) k s m)
      ∙ ap (λ (l : List String). l ++ keys_in (shape_keys other) shape)
          (collisions-merge_round (is_in k shape) k s m)
      ∙ elim (Bool-cases (is_in k shape)) [
        | inl e ↦ rw (e, append_assoc) refl
        | inr e ↦ rw (e, append-nil) refl
      ]

  collisions-round_kept :
      (c : Conflict) (present : Bool) (k : String) (s : Schema N) (m : Merging N)
      → c ≢ Conflict.throws
      → (merge_round c present k s m).collisions ≡ m.collisions
  unfolding merge_round merge_present merge_absent
  collisions-round_kept Conflict.throws present k s m n = elim (n refl) [ ]
  collisions-round_kept Conflict.left true k s m n = refl
  collisions-round_kept Conflict.left false k s m n = refl
  collisions-round_kept Conflict.right true k s m n = refl
  collisions-round_kept Conflict.right false k s m n = refl

  collisions-kept :
      (c : Conflict) (shape other : Shape N) (m : Merging N)
      → c ≢ Conflict.throws
      → (merge_fields c shape other m).collisions ≡ m.collisions
  unfolding merge_fields
  collisions-kept c shape empty m n = refl
  collisions-kept c shape (entry k s other) m n =
      collisions-kept c shape other (merge_round c (is_in k shape) k s m) n
      ∙ collisions-round_kept c (is_in k shape) k s m n

  unfoldable pub started : ObjectSchema N → Merging N
  started o = record { new_shape = o.shape; collisions = [] }

  merged-returned :
      (collisions : List String) (shape : Shape N) (policy : Outcome UnknownKeysPolicy)
      (p : ObjectSchema N)
      → (unless_some collisions merge_cause shape
          >>= (λ shape. policy >>= (λ y. returned (composed_object shape y))))
        ≡ returned p
      → (collisions ≡ []) × (p.shape ≡ shape) × (p.fields ≡ fields_of shape)
  unfolding composed_object
  merged-returned [] shape (returned y) p e =
      let q : composed_object shape y ≡ p = cc in
      (
        refl,
        sym (ap (λ (o : ObjectSchema N). o.shape) q),
        sym (ap (λ (o : ObjectSchema N). o.fields) q),
      )
  merged-returned [] shape (threw c) p e = cc
  merged-returned (k ∷ ks) shape policy p e = cc

  -- A merge that returns has merged the shapes.
  pub merge-returned :
      (o other p : ObjectSchema N) (options : MergeOptions)
      → merge o other options ≡ returned p
      → ((merge_fields (or_throws options.conflict) o.shape other.shape (started o)).collisions
          ≡ [])
        × (p.shape
            ≡ (merge_fields (or_throws options.conflict) o.shape other.shape (started o)).new_shape)
        × (p.fields
            ≡ fields_of
                (merge_fields
                  (or_throws options.conflict)
                  o.shape
                  other.shape
                  (started o)).new_shape)
  unfolding merge started
  merge-returned o other p options h =
      let m = merge_fields (or_throws options.conflict) o.shape other.shape (started o) in
      merged-returned m.collisions m.new_shape
        (merge_policy (or_throws options.unknown_keys) o.unknown_keys other.unknown_keys) p h

  -- The field that a merge that returns has at a key.
  merge-own :
      (o other p : ObjectSchema N) (options : MergeOptions)
      → IsDistinct other.shape
      → merge o other options ≡ returned p
      → (j : String)
      → own j p.shape
        ≡ merged_at
            (or_throws options.conflict)
            (is_in j o.shape)
            (own j other.shape)
            (own j o.shape)
  unfolding started
  merge-own o other p options d h j =
      ap (own j) (merge-returned o other p options h).1
      ∙ own-merge_fields (or_throws options.conflict) o.shape other.shape (started o) j d

  merged_right :
      (present : Bool) (other so_far : Option (Schema N))
      → merged_at Conflict.right present other so_far ≡ or_else other so_far
  merged_right present none so_far = refl
  merged_right present (some s) so_far = refl

  merged_left :
      (other so_far : Option (Schema N))
      → merged_at Conflict.left (is_some so_far) other so_far ≡ or_else so_far other
  merged_left none none = refl
  merged_left none (some t) = refl
  merged_left (some s) none = refl
  merged_left (some s) (some t) = refl

  none_left : (other : Option (Schema N)) → merged_at Conflict.left true other none ≡ none
  none_left none = refl
  none_left (some s) = refl

  is_in-eq_own :
      (j : String) (shape : Shape N)
      → includes j prototype_members ≡ false
      → is_in j shape ≡ is_some (own j shape)
  unfolding is_in
  is_in-eq_own j shape n = or-false (is_some (own j shape)) (includes j prototype_members) n

  is_in_of_prototype :
      (j : String) (shape : Shape N) → includes j prototype_members ≡ true → is_in j shape ≡ true
  unfolding is_in
  is_in_of_prototype j shape m = or-true (is_some (own j shape)) (includes j prototype_members) m

  lost_left :
      (o other p : ObjectSchema N) (options : MergeOptions)
      → IsDistinct other.shape
      → merge o other options ≡ returned p
      → or_throws options.conflict ≡ Conflict.left
      → (j : String) → includes j prototype_members ≡ true
      → own j o.shape ≡ none
      → own j p.shape ≡ none
  lost_left o other p options d h e j m n =
      merge-own o other p options d h j
      ∙ rw (e, n, is_in_of_prototype j o.shape m) (none_left (own j other.shape))

  -- Where `merge` returns: without a choice of conflict, no field of the other object is in this one.
  -- A field is this object's under "left", else the other's, for a name that is none of the members
  -- of `Object.prototype`; for those there is none where this object has none. It is the other's
  -- under "right", else this object's.
  pub merge_lem :
      (o other p : ObjectSchema N) (options : MergeOptions)
      → IsDistinct other.shape
      → merge o other options ≡ returned p
      → (or_throws options.conflict ≡ Conflict.throws
          → (k : String) → In k (shape_keys other.shape)
          → is_in k o.shape ≡ false)
        × (or_throws options.conflict ≡ Conflict.left
            → (j : String) → includes j prototype_members ≡ false
            → own j p.shape ≡ or_else (own j o.shape) (own j other.shape))
        × (or_throws options.conflict ≡ Conflict.left
            → (j : String) → includes j prototype_members ≡ true
            → own j o.shape ≡ none
            → own j p.shape ≡ none)
        × (or_throws options.conflict ≡ Conflict.right
            → (j : String) → own j p.shape ≡ or_else (own j other.shape) (own j o.shape))
  unfolding keys_in started
  merge_lem o other p options d h =
      let own_p = merge-own o other p options d h in
      (
        λ e. keys_in-nil (shape_keys other.shape) o.shape (
            sym (collisions-merge_fields o.shape other.shape (started o))
            ∙ ap (λ (c : Conflict). (merge_fields c o.shape other.shape (started o)).collisions)
                (sym e)
            ∙ (merge-returned o other p options h).0),
        λ e j n.
            own_p j
            ∙ rw (e, is_in-eq_own j o.shape n) (merged_left (own j other.shape) (own j o.shape)),
        λ e j m n. lost_left o other p options d h e j m n,
        λ e j. own_p j ∙ rw e (merged_right (is_in j o.shape) (own j other.shape) (own j o.shape)),
      )
