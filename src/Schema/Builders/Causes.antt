-- ===== src/Schema/Builders/Causes.antt =====
-- What the operators of builders/object.ts of packages/schema throw.
use neko_stack.Common.{String, Bool, true, false, List, [], ◌∷◌, map, if◌then◌else◌}
use neko_stack.Js.Text.{template, join}
use neko_stack.Js.Throws.{Cause, Outcome, returned, threw}
use neko_stack.Schema.Ir.{UnknownKeysPolicy}
use neko_stack.Schema.Diff.Absence.{policy_text}

abbrev pub is_several : List String → Bool
is_several (k ∷ []) = false
is_several _ = true

unfoldable pub format_keys : List String → String
unfolding template join
format_keys ks = join ", " (map (λ k. template ("'" ∷ k ∷ "'" ∷ [])) ks)

abbrev pub plural_s : List String → String
plural_s ks = if is_several ks then "s" else ""

unfoldable pub extend_cause : List String → Cause
unfolding template format_keys
extend_cause ks = Cause.error (
    template (
      "ObjectSchema.extend: key"
      ∷ plural_s ks
      ∷ " already exists in base — "
      ∷ format_keys ks
      ∷ ". Use .override() to replace deliberately, or .merge() with an explicit conflict policy."
      ∷ []))

unfoldable pub mask_cause : String → List String → Cause
unfolding template format_keys
mask_cause op ks = Cause.error (
    template (
      "ObjectSchema."
      ∷ op
      ∷ ": key"
      ∷ plural_s ks
      ∷ " "
      ∷ format_keys ks
      ∷ " "
      ∷ (if is_several ks then "do" else "does")
      ∷ " not exist in base shape."
      ∷ []))

unfoldable pub override_cause : List String → Cause
unfolding template format_keys
override_cause ks = Cause.error (
    template (
      "ObjectSchema.override: key"
      ∷ plural_s ks
      ∷ " "
      ∷ format_keys ks
      ∷ " "
      ∷ (if is_several ks then "do" else "does")
      ∷ " not exist in base. Use .extend() to add new fields."
      ∷ []))

unfoldable pub merge_cause : List String → Cause
unfolding template format_keys
merge_cause ks = Cause.error (
    template (
      "ObjectSchema.merge: field"
      ∷ plural_s ks
      ∷ " "
      ∷ format_keys ks
      ∷ " "
      ∷ (if is_several ks then "exist" else "exists")
      ∷ " in both operands. Pass { conflict: \"left\" } or { conflict: \"right\" } to resolve."
      ∷ []))

unfoldable pub policy_cause : UnknownKeysPolicy → UnknownKeysPolicy → Cause
unfolding template
policy_cause left right = Cause.error (
    template (
      "ObjectSchema.merge: unknownKeys policies differ — left is \""
      ∷ policy_text left
      ∷ "\", right is \""
      ∷ policy_text right
      ∷ "\". Pass { unknownKeys: \"left\" } or { unknownKeys: \"right\" } to resolve."
      ∷ []))

-- `if (keys.length > 0) throw …`, and what follows
abbrev pub unless_some : {A : Type 0} → List String → (List String → Cause) → A → Outcome A
unless_some [] cause a = returned a
unless_some (k ∷ ks) cause a = threw (cause (k ∷ ks))
