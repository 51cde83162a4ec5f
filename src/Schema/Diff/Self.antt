-- ===== src/Schema/Diff/Self.antt =====
-- registry/diff.ts of packages/schema: `diffNodes` of a schema and itself.
use neko_stack.Common.{
  String, ◌≡◌, refl, Bool, true, false, none, some, List, [], ◌∷◌, ◌++◌, arith, eq_refl, eq_iff, In,
  inl, inr,
}
use neko_stack.Js.JsMap.{In-includes}
use neko_stack.Js.Json.{JsNumber, stringify}
use neko_stack.Schema.Issues.{IssuePath, key}
use neko_stack.Schema.Ir.{
  SchemaNode, string, number, boolean, date, literal, enum, array, object, union, recursive_ref,
  transform, Fields, end, field, EnumValue, UnknownKeysPolicy,
}
use neko_stack.Schema.Diff.Axes.{diff_enum, enum_added, enum_removed, enum_texts, enum_json}
use neko_stack.Schema.Diff.Absence.{policy_text}
use neko_stack.Schema.Diff.Walk.{
  ok, Slot, slot_of, own_field, field_at, diff_policy, walk_added, walk, walk_fields, diff_nodes,
  ensure_supported,
}
use neko_stack.Schema.Diff.Identity.{diff_base_self, diff_literal_self}

unfoldable mutual
  -- Every kind below the node is one that the classifier supports, and no object has two fields of
  -- one name (an object of the engine never has).
  pub IsDiffable : {N : Type 0} → SchemaNode N → Type 0
  IsDiffable (string b) = Unit
  IsDiffable (number b) = Unit
  IsDiffable (boolean b) = Unit
  IsDiffable (literal b v) = Unit
  IsDiffable (enum b vs) = Unit
  IsDiffable (array b element) = IsDiffable element
  IsDiffable (object b fields policy) = AreDiffable fields
  IsDiffable (date b v) = ⊥
  IsDiffable (union b os d) = ⊥
  IsDiffable (recursive_ref b t v) = ⊥
  IsDiffable (transform b s i) = ⊥

  pub AreDiffable : {N : Type 0} → Fields N → Type 0
  AreDiffable end = Unit
  AreDiffable (field k n fs) = (own_field k fs ≡ none) × IsDiffable n × AreDiffable fs

module _ {N : Type 0} where
  -- Each field of the list is the one that `full` has under its name.
  abbrev pub AreFiled : Fields N → Fields N → Type 0
  AreFiled full end = Unit
  AreFiled full (field k n fs) = (own_field k full ≡ some n) × AreFiled full fs

  AreFiled-cons :
      (k : String) (n : SchemaNode N) (full fs : Fields N)
      → own_field k full ≡ none
      → AreFiled full fs
      → AreFiled (field k n full) fs
  unfolding own_field
  AreFiled-cons k n full end fresh h = tt
  AreFiled-cons k n full (field j m fs) fresh (here, later) =
      (ground (arith, eq_iff k j), AreFiled-cons k n full fs fresh later)

  pub AreFiled-self : (fs : Fields N) → AreDiffable fs → AreFiled fs fs
  unfolding own_field IsDiffable
  AreFiled-self end h = tt
  AreFiled-self (field k n fs) (fresh, _, later) =
      (rw eq_refl, AreFiled-cons k n fs fs fresh (AreFiled-self fs later))

  slot_of-some : (b : Bool) (n : SchemaNode N) → slot_of b (some n) ≡ Slot.own n
  slot_of-some true n = refl
  slot_of-some false n = refl

  pub field_at_of_own :
      (k : String) (n : SchemaNode N) (fs : Fields N)
      → own_field k fs ≡ some n
      → field_at k fs ≡ Slot.own n
  unfolding field_at
  field_at_of_own k n fs h = rw (h, slot_of-some)

  walk_added_of_AreFiled :
      (full fs : Fields N) (path : IssuePath) → AreFiled full fs → walk_added full fs path ≡ []
  unfolding walk_added
  walk_added_of_AreFiled full end path h = refl
  walk_added_of_AreFiled full (field k n fs) path (here, later) =
      rw (field_at_of_own k n full here) (walk_added_of_AreFiled full fs path later)

  pub diff_policy_self :
      (p : UnknownKeysPolicy) (path : IssuePath) → diff_policy {N = N} p p path ≡ []
  unfolding diff_policy
  diff_policy_self p path = rw (eq_refl (policy_text p))

module _ {N : Type 0} ⦃js : JsNumber N⦄ where
  enum_text-In :
      (v : EnumValue N) (vs : List (EnumValue N))
      → In v vs
      → In (stringify (enum_json v)) (enum_texts vs)
  enum_text-In v [] h = elim h [ ]
  enum_text-In v (w ∷ vs) (inl e) = inl (cc)
  enum_text-In v (w ∷ vs) (inr h) = inr (enum_text-In v vs h)

  enum_added_of_In :
      (known vs : List (EnumValue N)) (path : IssuePath)
      → ((v : EnumValue N) → In v vs → In v known)
      → (enum_added (enum_texts known) vs path ≡ [])
        × (enum_removed (enum_texts known) vs path ≡ [])
  unfolding enum_added enum_removed
  enum_added_of_In known [] path h = (refl, refl)
  enum_added_of_In known (v ∷ vs) path h =
      let seen = In-includes _ _ (enum_text-In v known (h v (inl refl))) in
      let (a, r) = enum_added_of_In known vs path (λ w m. h w (inr m)) in (rw seen a, rw seen r)

  diff_enum_self : (vs : List (EnumValue N)) (path : IssuePath) → diff_enum vs vs path ≡ []
  unfolding diff_enum
  diff_enum_self vs path = let (a, r) = enum_added_of_In vs vs path (λ v m. m) in rw (a, r)

  mutual
    unfolding walk IsDiffable

    walk_self : (n : SchemaNode N) (path : IssuePath) → IsDiffable n → walk n n path ≡ ok []
    walk_self (string b) path h = rw (diff_base_self b path)
    walk_self (number b) path h = rw (diff_base_self b path)
    walk_self (boolean b) path h = rw (diff_base_self b path)
    walk_self (literal b v) path h = rw (diff_base_self b path, diff_literal_self v path)
    walk_self (enum b vs) path h = rw (diff_base_self b path, diff_enum_self vs path)
    walk_self (array b e) path h =
        rw (walk_self e (path ++ key "[]" ∷ []) h) (rw (diff_base_self b path))
    walk_self (object b fs p) path h = rw (walk_fields_self fs fs path h (AreFiled-self fs h)) (
        rw (
          diff_base_self b path,
          diff_policy_self p path,
          walk_added_of_AreFiled fs fs path (AreFiled-self fs h),
        ))
    walk_self (date b v) path h = elim h [ ]
    walk_self (union b os d) path h = elim h [ ]
    walk_self (recursive_ref b t v) path h = elim h [ ]
    walk_self (transform b s i) path h = elim h [ ]

    pub walk_fields_self :
        (fs full : Fields N) (path : IssuePath)
        → AreDiffable fs
        → AreFiled full fs
        → walk_fields fs full path ≡ ok []
    walk_fields_self end full path h filed = refl
    walk_fields_self (field k n fs) full path (_, here, later) (at_k, rest) = rw (
      field_at_of_own k n full at_k,
      walk_self n (path ++ key k ∷ []) here,
      walk_fields_self fs full path later rest,
    )

  ensure_of_IsDiffable : (n : SchemaNode N) → IsDiffable n → ensure_supported n ≡ ok tt
  unfolding ensure_supported IsDiffable
  ensure_of_IsDiffable (date b v) h = elim h [ ]
  ensure_of_IsDiffable (union b v d) h = elim h [ ]
  ensure_of_IsDiffable (recursive_ref b v d) h = elim h [ ]
  ensure_of_IsDiffable (transform b v d) h = elim h [ ]
  ensure_of_IsDiffable _ h = refl

  -- Comparing a schema with itself throws nothing and finds no change, where every node of it has a
  -- kind that the classifier supports and no object has two fields of one name.
  pub diff_nodes_self : (n : SchemaNode N) → IsDiffable n → diff_nodes n n ≡ ok []
  unfolding diff_nodes
  diff_nodes_self n h = rw (ensure_of_IsDiffable n h) (walk_self n [] h)
