-- ===== src/Schema/Diff/Absence.antt =====
-- registry/diff.ts of packages/schema: whether a field may be left out or null, and what an object does
-- with keys that it does not list.
use neko_stack.Common.{
  String, Bool, true, false, not, ◌&&◌, Option, some, List, [], ◌∷◌, if◌then◌else◌,
}
use neko_stack.Js.Text.{template}
use neko_stack.Js.JsMap.{is_some}
use neko_stack.Schema.Issues.{IssuePath}
use neko_stack.Schema.Ir.{
  NodeModifiers, UnknownKeysPolicy, strict, strip_unknown, passthrough, SchemaNode, base,
}
use neko_stack.Schema.Diff.Compare.{is_true, modifiers_or_empty}
use neko_stack.Schema.Diff.Changes.{
  DiffSeverity, breaking, additive, cosmetic, DiffChange, Shown, absence_modifier_changed,
}

pub data AbsenceState : Type 0 where
  required optional nullable nullish : AbsenceState

abbrev pub absence_text : AbsenceState → String
absence_text required = "required"
absence_text optional = "optional"
absence_text nullable = "nullable"
absence_text nullish = "nullish"

-- `SUPERSET[to].has(from)`
abbrev pub is_superset : AbsenceState → AbsenceState → Bool
is_superset required required = true
is_superset optional required = true
is_superset optional optional = true
is_superset nullable required = true
is_superset nullable nullable = true
is_superset nullish from = true
is_superset _ _ = false

unfoldable pub absence_severity : AbsenceState → AbsenceState → DiffSeverity
absence_severity from to = if is_superset to from then additive else breaking

abbrev pub same_absence : AbsenceState → AbsenceState → Bool
same_absence required required = true
same_absence optional optional = true
same_absence nullable nullable = true
same_absence nullish nullish = true
same_absence _ _ = false

module _ {N : Type 0} where
  unfoldable pub absence_state_of : Option (NodeModifiers N) → AbsenceState
  absence_state_of modifiers =
      let m = modifiers_or_empty modifiers in
      let opt = is_true m.optional && not (is_some m.default_value) in
      let nul = is_true m.nullable in
      if opt && nul then nullish else if opt then optional else if nul then nullable else required

  unfoldable pub diff_absence :
      Option (NodeModifiers N) → Option (NodeModifiers N) → IssuePath → List (DiffChange N)
  unfolding absence_state_of absence_severity template
  diff_absence before after path =
      let b = absence_state_of before in
      let a = absence_state_of after in
      if same_absence b a
      then []
      else record {
        severity = absence_severity b a;
        path = path;
        kind = absence_modifier_changed;
        before = some (Shown.text (absence_text b));
        after = some (Shown.text (absence_text a));
        message =
            template ("Absence modifier changed: " ∷ absence_text b ∷ " → " ∷ absence_text a ∷ []);
      }
        ∷ []

  unfoldable pub new_field_severity : SchemaNode N → DiffSeverity
  unfolding base
  new_field_severity node =
      let m = modifiers_or_empty (base node).modifiers in
      if is_some m.default_value
      then additive
      else if is_true m.optional && is_true m.nullable
      then additive
      else if is_true m.optional
      then additive
      else if is_true m.nullable
      then breaking
      else breaking

abbrev pub is_strict : UnknownKeysPolicy → Bool
is_strict strict = true
is_strict _ = false

abbrev pub policy_text : UnknownKeysPolicy → String
policy_text strict = "strict"
policy_text strip_unknown = "stripUnknown"
policy_text passthrough = "passthrough"

unfoldable pub unknown_keys_severity : UnknownKeysPolicy → UnknownKeysPolicy → DiffSeverity
unknown_keys_severity before after =
    if is_strict before && not (is_strict after)
    then additive
    else if is_strict after && not (is_strict before)
    then breaking
    else cosmetic
