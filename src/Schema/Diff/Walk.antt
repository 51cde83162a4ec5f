-- ===== src/Schema/Diff/Walk.antt =====
-- `walk`, `diffObject` and `diffNodes` of registry/diff.ts of packages/schema. A thrown
-- `UnsupportedNodeKindError` is the `unsupported` result with the node's kind.
use neko_stack.Common.{
  ◌≡◌, ◌⊎◌, refl, inl, inr, String, Bool, true, false, Option, none, some, List, [], ◌∷◌, ◌++◌,
  ◌==◌, if◌then◌else◌,
}
use neko_stack.Js.Text.{template}
use neko_stack.Js.JsMap.{includes, is_some}
use neko_stack.Js.Json.{JsNumber}
use neko_stack.Schema.Issues.{IssuePath, key}
use neko_stack.Schema.Ir.{
  SchemaNode, NodeBase, UnknownKeysPolicy, string, number, boolean, date, literal, enum, array,
  object, union, recursive_ref, transform, Fields, end, field, base, kind,
}
use neko_stack.Schema.Diff.Changes.{
  breaking, DiffChange, Shown, type_changed, unknown_keys_changed, field_added, field_removed,
}
use neko_stack.Schema.Diff.Axes.{diff_metadata, diff_default, diff_enum, diff_literal}
use neko_stack.Schema.Diff.Compare.{modifiers_or_empty}
use neko_stack.Schema.Diff.Absence.{
  diff_absence, new_field_severity, unknown_keys_severity, policy_text, absence_state_of,
  absence_text,
}
use neko_stack.Schema.Diff.Refinements.{diff_refinements}

-- A value, or a thrown `UnsupportedNodeKindError`.
pub data Diffed (A : Type 0) : Type 0 where
  ok : A → Diffed A
  unsupported : String → Diffed A

infixl 5 ◌>>=◌
abbrev pub ◌>>=◌ : {A B : Type 0} → Diffed A → (A → Diffed B) → Diffed B
ok a >>= f = f a
unsupported k >>= f = unsupported k

pub Diffed-cases :
    {A : Type 0} (d : Diffed A) → ((a : A) × (d ≡ ok a)) ⊎ ((k : String) × (d ≡ unsupported k))
Diffed-cases (ok a) = inl (a, refl)
Diffed-cases (unsupported k) = inr (k, refl)

-- What `fields[key]` gives: an own field, a member of `Object.prototype`, or undefined.
pub data Slot (N : Type 0) : Type 0 where
  own : SchemaNode N → Slot N
  inherited absent : Slot N

abbrev pub prototype_members : List String
prototype_members =
    "constructor" ∷ "__defineGetter__" ∷ "__defineSetter__" ∷ "hasOwnProperty" ∷ "__lookupGetter__"
    ∷ "__lookupSetter__" ∷ "isPrototypeOf" ∷ "propertyIsEnumerable" ∷ "toString" ∷ "valueOf"
    ∷ "__proto__" ∷ "toLocaleString" ∷ []

abbrev pub default_label : Bool → String
default_label true = ", default-bearing"
default_label false = ""

module _ {N : Type 0} where
  unfoldable pub own_field : String → Fields N → Option (SchemaNode N)
  own_field k end = none
  own_field k (field j n fs) = if j == k then some n else own_field k fs

  abbrev pub slot_of : Bool → Option (SchemaNode N) → Slot N
  slot_of true none = Slot.inherited
  slot_of false none = Slot.absent
  slot_of b (some n) = Slot.own n

  unfoldable pub field_at : String → Fields N → Slot N
  unfolding own_field includes
  field_at k fs = slot_of (includes k prototype_members) (own_field k fs)

  unfoldable pub type_changed_at :
      String → Shown N → String → Shown N → IssuePath → List (DiffChange N)
  unfolding template
  type_changed_at b b_shown a a_shown path =
      record {
        severity = breaking;
        path = path;
        kind = type_changed;
        before = some b_shown;
        after = some a_shown;
        message = template ("Type changed from `" ∷ b ∷ "` to `" ∷ a ∷ "`" ∷ []);
      }
      ∷ []

  unfoldable pub type_change : SchemaNode N → SchemaNode N → IssuePath → List (DiffChange N)
  unfolding kind type_changed_at
  type_change before after path =
      type_changed_at (kind before) (Shown.text (kind before)) (kind after)
        (Shown.text (kind after)) path

  -- `walk` where one side is a member of `Object.prototype`, whose `kind` is undefined.
  unfoldable pub walk_to_inherited : SchemaNode N → IssuePath → List (DiffChange N)
  unfolding kind type_changed_at
  walk_to_inherited before path =
      type_changed_at (kind before) (Shown.text (kind before)) "undefined" Shown.undefined path

  unfoldable pub walk_from_inherited : SchemaNode N → IssuePath → List (DiffChange N)
  unfolding kind type_changed_at
  walk_from_inherited after path =
      type_changed_at "undefined" Shown.undefined (kind after) (Shown.text (kind after)) path

  unfoldable pub diff_policy :
      UnknownKeysPolicy → UnknownKeysPolicy → IssuePath → List (DiffChange N)
  unfolding unknown_keys_severity template
  diff_policy before after path =
      if policy_text before == policy_text after
      then []
      else record {
        severity = unknown_keys_severity before after;
        path = path;
        kind = unknown_keys_changed;
        before = some (Shown.text (policy_text before));
        after = some (Shown.text (policy_text after));
        message =
            template (
              "unknownKeys policy changed: " ∷ policy_text before ∷ " → " ∷ policy_text after ∷ []);
      }
        ∷ []

  unfoldable pub added_field : String → SchemaNode N → IssuePath → DiffChange N
  unfolding new_field_severity absence_state_of template base
  added_field k node path =
      let m = (base node).modifiers in
      record {
        severity = new_field_severity node;
        path = path;
        kind = field_added;
        before = none;
        after = some (Shown.node node);
        message = template (
            "Field `"
            ∷ k
            ∷ "` added ("
            ∷ absence_text (absence_state_of m)
            ∷ default_label (is_some (modifiers_or_empty m).default_value)
            ∷ ")"
            ∷ []);
      }

  unfoldable pub removed_field : String → SchemaNode N → IssuePath → DiffChange N
  unfolding template
  removed_field k node path = record {
    severity = breaking;
    path = path;
    kind = field_removed;
    before = some (Shown.node node);
    after = none;
    message = template ("Field `" ∷ k ∷ "` removed" ∷ []);
  }

  abbrev pub added_at : Slot N → String → SchemaNode N → IssuePath → List (DiffChange N)
  added_at (Slot.own b) k a path = []
  added_at Slot.inherited k a path = walk_from_inherited a path
  added_at Slot.absent k a path = added_field k a path ∷ []

  -- The rounds of the loop of `diffObject` over the keys that only `after` has.
  unfoldable pub walk_added : Fields N → Fields N → IssuePath → List (DiffChange N)
  unfolding field_at walk_from_inherited added_field
  walk_added before end path = []
  walk_added before (field k a fs) path =
      added_at (field_at k before) k a (path ++ key k ∷ []) ++ walk_added before fs path

module _ {N : Type 0} ⦃js : JsNumber N⦄ where
  -- The axes that every node has.
  unfoldable pub diff_base : NodeBase N → NodeBase N → IssuePath → List (DiffChange N)
  unfolding diff_metadata diff_default diff_absence diff_refinements
  diff_base before after path =
      diff_metadata before.metadata after.metadata path
      ++ diff_default before.modifiers after.modifiers path
      ++ diff_absence before.modifiers after.modifiers path
      ++ diff_refinements before.refinements after.refinements path

  -- A round of the loop of `diffObject` for a key that `before` has; `rec` is `walk` on its field.
  abbrev pub walk_field_at :
      Slot N
      → String
      → SchemaNode N
      → (SchemaNode N → IssuePath → Diffed (List (DiffChange N)))
      → IssuePath
      → Diffed (List (DiffChange N))
  walk_field_at (Slot.own a) k b rec path = rec a path
  walk_field_at Slot.inherited k b rec path = ok (walk_to_inherited b path)
  walk_field_at Slot.absent k b rec path = ok (removed_field k b path ∷ [])

  unfoldable mutual
    unfolding diff_base diff_enum diff_literal diff_policy type_change walk_added walk_to_inherited
        removed_field field_at

    pub walk : SchemaNode N → SchemaNode N → IssuePath → Diffed (List (DiffChange N))
    walk (string b) (string a) path = ok (diff_base b a path)
    walk (number b) (number a) path = ok (diff_base b a path)
    walk (boolean b) (boolean a) path = ok (diff_base b a path)
    walk (literal b v) (literal a w) path = ok (diff_base b a path ++ diff_literal v w path)
    walk (enum b vs) (enum a ws) path = ok (diff_base b a path ++ diff_enum vs ws path)
    walk (array b e) (array a f) path = do
      inner ← walk e f (path ++ key "[]" ∷ [])
      ok (diff_base b a path ++ inner)
    walk (object b fs p) (object a gs q) path = do
      inner ← walk_fields fs gs path
      ok (diff_base b a path ++ diff_policy p q path ++ inner ++ walk_added fs gs path)
    walk (date b v) (date a w) path = unsupported "date"
    walk (union b os d) (union a ps e) path = unsupported "union"
    walk (recursive_ref b t v) (recursive_ref a u w) path = unsupported "recursiveRef"
    walk (transform b s i) (transform a t j) path = unsupported "transform"
    walk before after path = ok (type_change before after path)

    -- The rounds of the loop of `diffObject` over the keys of `before`.
    pub walk_fields : Fields N → Fields N → IssuePath → Diffed (List (DiffChange N))
    walk_fields end after path = ok []
    walk_fields (field k b fs) after path = do
      here ← walk_field_at (field_at k after) k b (walk b) (path ++ key k ∷ [])
      later ← walk_fields fs after path
      ok (here ++ later)

  abbrev pub is_supported : SchemaNode N → Bool
  is_supported (date b v) = false
  is_supported (union b os d) = false
  is_supported (recursive_ref b t v) = false
  is_supported (transform b s i) = false
  is_supported node = true

  unfoldable pub ensure_supported : SchemaNode N → Diffed (Unit {0})
  unfolding kind
  ensure_supported node = if is_supported node then ok tt else unsupported (kind node)

  unfoldable pub diff_nodes : SchemaNode N → SchemaNode N → Diffed (List (DiffChange N))
  unfolding walk ensure_supported
  diff_nodes before after = do
    _ ← ensure_supported before
    _ ← ensure_supported after
    walk before after []
