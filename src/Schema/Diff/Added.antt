-- ===== src/Schema/Diff/Added.antt =====
-- registry/diff.ts of packages/schema: an object schema and the same with one more field.
use neko_stack.Common.{
  String, ◌≡◌, ◌↔◌, ◌⊎◌, refl, ap, ◌∙◌, Bool, true, false, none, some, [], ◌∷◌, ◌++◌, ◌||◌, arith,
  inl, inr, append-nil,
}
use neko_stack.Js.Json.{JsNumber}
use neko_stack.Js.JsMap.{includes, is_some}
use neko_stack.Schema.Issues.{IssuePath, key}
use neko_stack.Schema.Ir.{NodeBase, SchemaNode, base, object, Fields, end, field, UnknownKeysPolicy}
use neko_stack.Schema.Diff.Changes.{DiffChange, DiffKind, breaking, additive}
use neko_stack.Schema.Diff.Compare.{is_true, modifiers_or_empty}
use neko_stack.Schema.Diff.Absence.{new_field_severity}
use neko_stack.Schema.Diff.Identity.{diff_base_self}
use neko_stack.Schema.Diff.Walk.{
  ok, Slot, slot_of, own_field, field_at, prototype_members, type_changed_at, walk_from_inherited,
  added_field, added_at, walk_added, walk, diff_nodes,
}
use neko_stack.Schema.Diff.Self.{
  AreDiffable, AreFiled, AreFiled-self, field_at_of_own, diff_policy_self, walk_fields_self,
}

module _ {N : Type 0} where
  -- The fields with one more behind them.
  unfoldable pub with_last : Fields N → String → SchemaNode N → Fields N
  with_last end k a = field k a end
  with_last (field j n fs) k a = field j n (with_last fs k a)

  -- A missing value is one that the modifiers of the node provide for.
  abbrev pub may_be_missing : SchemaNode N → Bool
  may_be_missing a =
      is_true (modifiers_or_empty (base a).modifiers).optional
      || is_some (modifiers_or_empty (base a).modifiers).default_value

  own_field-with_last :
      (j k : String) (n a : SchemaNode N) (fs : Fields N)
      → own_field j fs ≡ some n
      → own_field j (with_last fs k a) ≡ some n
  unfolding own_field with_last
  own_field-with_last j k n a end h = cc
  own_field-with_last j k n a (field i m fs) h = ground (arith, own_field-with_last j k n a fs)

  AreFiled-with_last :
      (k : String) (a : SchemaNode N) (full fs : Fields N)
      → AreFiled full fs
      → AreFiled (with_last full k a) fs
  AreFiled-with_last k a full end h = tt
  AreFiled-with_last k a full (field j n fs) (here, later) =
      (own_field-with_last j k n a full here, AreFiled-with_last k a full fs later)

  walk_added-with_last :
      (k : String) (a : SchemaNode N) (full fs : Fields N) (path : IssuePath)
      → AreFiled full fs
      → walk_added full (with_last fs k a) path
        ≡ added_at (field_at k full) k a (path ++ key k ∷ [])
  unfolding walk_added with_last
  walk_added-with_last k a full end path h = append-nil _
  walk_added-with_last k a full (field j n fs) path (here, later) =
      rw (field_at_of_own j n full here) (walk_added-with_last k a full fs path later)

  -- What the change says of a field `a` that is added as `k`, by whether that is the name of a member
  -- of `Object.prototype`.
  abbrev pub IsAddition : Bool → String → SchemaNode N → DiffChange N → Type 0
  IsAddition is_member k a change =
      (change.path ≡ key k ∷ [])
      × ((change.kind ≡ DiffKind.type_changed) ↔ (is_member ≡ true))
      × ((change.kind ≡ DiffKind.field_added) ↔ (is_member ≡ false))
      × ((change.severity ≡ additive) ↔ ((is_member ≡ false) × (may_be_missing a ≡ true)))
      × ((change.severity ≡ breaking) ↔ ((is_member ≡ true) ⊎ (may_be_missing a ≡ false)))

  added_at-IsAddition :
      (is_member : Bool) (k : String) (a : SchemaNode N)
      → (change : DiffChange N) × (added_at (slot_of is_member none) k a (key k ∷ []) ≡ change ∷ [])
        × IsAddition is_member k a change
  unfolding walk_from_inherited type_changed_at added_field new_field_severity
  added_at-IsAddition true k a = (
    _,
    refl,
    (
      refl,
      ((λ h. refl), (λ h. refl)),
      ((λ h. cc), (λ h. cc)),
      ((λ h. cc), (λ (h, g). cc)),
      ((λ h. inl refl), (λ h. refl)),
    ),
  )
  added_at-IsAddition false k a = (
    added_field k a (key k ∷ []),
    refl,
    (
      refl,
      ((λ h. cc), (λ h. cc)),
      ((λ h. refl), (λ h. refl)),
      ((λ h. (refl, ground arith)), (λ (_, h). ground arith)),
      ((λ h. inr (ground arith)), (λ h. elim h [ inl e ↦ cc | inr e ↦ ground arith ])),
    ),
  )

module _ {N : Type 0} ⦃js : JsNumber N⦄ where
  extended_object :
      (b : NodeBase N) (fs : Fields N) (p : UnknownKeysPolicy) (k : String) (a : SchemaNode N)
      → AreDiffable fs
      → diff_nodes (object b fs p) (object b (with_last fs k a) p)
        ≡ ok (added_at (field_at k fs) k a (key k ∷ []))
  unfolding diff_nodes walk
  extended_object b fs p k a h =
      let filed = AreFiled-self fs h in
      rw (walk_fields_self fs (with_last fs k a) [] h (AreFiled-with_last k a fs fs filed)) (
        rw
          (
            diff_base_self b [],
            diff_policy_self {N = N} p [],
            walk_added-with_last k a fs fs [] filed,
          )
          refl)

  -- An object schema and the same with a field behind the others, which the first has not, differ in
  -- one change, at that field. It says that the type changed where the field's name is that of a
  -- member of `Object.prototype`, and that a field was added everywhere else. It is additive where
  -- the name is no such member and the field is optional or has a default, and breaking everywhere
  -- else. The fields of the first have kinds that the classifier supports and distinct names.
  pub diff_nodes-with_last :
      (b : NodeBase N) (fs : Fields N) (p : UnknownKeysPolicy) (k : String) (a : SchemaNode N)
      → AreDiffable fs
      → own_field k fs ≡ none
      → (change : DiffChange N) × (diff_nodes (object b fs p) (object b (with_last fs k a) p)
          ≡ ok (change ∷ []))
        × IsAddition (includes k prototype_members) k a change
  unfolding field_at
  diff_nodes-with_last b fs p k a h absent =
      let (change, e, r) = added_at-IsAddition (includes k prototype_members) k a in
      (
        change,
        extended_object b fs p k a h
            ∙ ap (λ (s : Slot N). ok (added_at s k a (key k ∷ [])))
                (ap (slot_of (includes k prototype_members)) absent)
            ∙ ap ok e,
        r,
      )
