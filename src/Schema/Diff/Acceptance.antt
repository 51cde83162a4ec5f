-- ===== src/Schema/Diff/Acceptance.antt =====
-- registry/diff.ts of packages/schema, through the lens of its header: whether the new schema
-- accepts what the old one did, for the absence of a value and for unknown keys. A default is taken to
-- be a value that its node accepts.
use neko_stack.Common.{
  refl, ◌≡◌, ◌≢◌, ◌↔◌, Bool, true, false, ◌||◌, Option, arith, All, String, List, [], ◌∷◌, ◌&&◌,
}
use neko_stack.Js.JsMap.{is_some, includes}
use neko_stack.Js.Json.{JsNumber}
use neko_stack.Schema.Issues.{IssuePath}
use neko_stack.Schema.Ir.{
  NodeModifiers, UnknownKeysPolicy, strict, strip_unknown, passthrough, SchemaNode, base,
}
use neko_stack.Schema.Diff.Changes.{breaking, additive, cosmetic, DiffChange}
use neko_stack.Schema.Diff.Axes.{diff_default}
use neko_stack.Schema.Diff.Compare.{modifiers_or_empty, is_true}
use neko_stack.Schema.Diff.Absence.{
  AbsenceState, required, optional, nullable, nullish, absence_severity, diff_absence,
  new_field_severity, unknown_keys_severity,
}

-- What an input gives for a node: nothing, null, or another value.
pub data Given : Type 0 where
  missing null_value value : Given

abbrev pub state_accepts : AbsenceState → Given → Bool
state_accepts s value = true
state_accepts required g = false
state_accepts optional missing = true
state_accepts optional null_value = false
state_accepts nullable missing = false
state_accepts nullable null_value = true
state_accepts nullish g = true

-- What a node with these modifiers takes: a default stands in for what is missing.
abbrev pub modifiers_accept : {N : Type 0} → Option (NodeModifiers N) → Given → Bool
modifiers_accept m value = true
modifiers_accept m missing =
    is_true (modifiers_or_empty m).optional || is_some (modifiers_or_empty m).default_value
modifiers_accept m null_value = is_true (modifiers_or_empty m).nullable

-- A transition between absence states is additive exactly when the new state accepts all that the
-- old one did.
pub absence_severity-additive_iff :
    (from to : AbsenceState)
    → (absence_severity from to ≡ additive)
      ↔ ((g : Given) → state_accepts from g ≡ true → state_accepts to g ≡ true)
unfolding absence_severity
absence_severity-additive_iff from to =
    (λ h g a. ground arith, λ f. ground (arith, f missing, f null_value, f value))

-- A new field is additive exactly when its node accepts that the value is missing.
pub new_field_severity-additive_iff :
    {N : Type 0} (node : SchemaNode N)
    → (new_field_severity node ≡ additive) ↔ (modifiers_accept (base node).modifiers missing ≡ true)
unfolding new_field_severity
new_field_severity-additive_iff node = (λ h. ground arith, λ h. ground arith)

-- Whether an object with these keys is taken by a schema that lists the keys `known`, as the README
-- says: `strict` refuses keys that are not listed, `stripUnknown` drops them and `passthrough` keeps
-- them.
abbrev pub policy_accepts : UnknownKeysPolicy → (known given : List String) → Bool
policy_accepts strict known [] = true
policy_accepts strict known (k ∷ given) = includes k known && policy_accepts strict known given
policy_accepts strip_unknown known given = true
policy_accepts passthrough known given = true

-- Keys that the first policy takes and the second refuses, for some list of known keys.
abbrev pub DoesLose : UnknownKeysPolicy → UnknownKeysPolicy → Type 0
DoesLose before after =
    (known : List String) × (given : List String) × (policy_accepts before known given ≡ true)
    × (policy_accepts after known given ≡ false)

-- A change of the policy for unknown keys is breaking exactly when the old policy takes some keys
-- that the new one refuses, additive exactly when the new one takes some that the old one refuses,
-- and cosmetic exactly when both take the same.
pub unknown_keys_severity_iff :
    (before after : UnknownKeysPolicy)
    → ((unknown_keys_severity before after ≡ breaking) ↔ DoesLose before after)
      × ((unknown_keys_severity before after ≡ additive) ↔ DoesLose after before)
      × ((unknown_keys_severity before after ≡ cosmetic) ↔ (
          (known given : List String)
          → policy_accepts before known given ≡ policy_accepts after known given))
unfolding unknown_keys_severity includes
unknown_keys_severity_iff strict strict = (
  ((λ h. cc), (λ (_, _, a, r). cc)),
  ((λ h. cc), (λ (_, _, a, r). cc)),
  ((λ h known given. refl), (λ h. refl)),
)
unknown_keys_severity_iff strict strip_unknown = (
  ((λ h. cc), (λ (_, _, a, r). cc)),
  ((λ h. ([], "k" ∷ [], refl, refl)), (λ h. refl)),
  ((λ h. cc), (λ h. let e = h [] ("k" ∷ []) in cc)),
)
unknown_keys_severity_iff strict passthrough = (
  ((λ h. cc), (λ (_, _, a, r). cc)),
  ((λ h. ([], "k" ∷ [], refl, refl)), (λ h. refl)),
  ((λ h. cc), (λ h. let e = h [] ("k" ∷ []) in cc)),
)
unknown_keys_severity_iff strip_unknown strict = (
  ((λ h. ([], "k" ∷ [], refl, refl)), (λ h. refl)),
  ((λ h. cc), (λ (_, _, a, r). cc)),
  ((λ h. cc), (λ h. let e = h [] ("k" ∷ []) in cc)),
)
unknown_keys_severity_iff passthrough strict = (
  ((λ h. ([], "k" ∷ [], refl, refl)), (λ h. refl)),
  ((λ h. cc), (λ (_, _, a, r). cc)),
  ((λ h. cc), (λ h. let e = h [] ("k" ∷ []) in cc)),
)
unknown_keys_severity_iff _ _ = (
  ((λ h. cc), (λ (_, _, a, r). cc)),
  ((λ h. cc), (λ (_, _, a, r). cc)),
  ((λ h known given. refl), (λ h. refl)),
)

abbrev pub IsBenign : {N : Type 0} → DiffChange N → Type 0
IsBenign c = c.severity ≢ breaking

module _ {N : Type 0} ⦃js : JsNumber N⦄ where
  -- Where neither the default nor the absence modifiers have a breaking change, the new modifiers
  -- accept all that the old ones did.
  pub benign_modifiers_accept :
      (before after : Option (NodeModifiers N)) (path : IssuePath)
      → All IsBenign (diff_default before after path)
      → All IsBenign (diff_absence before after path)
      → (g : Given) → modifiers_accept before g ≡ true
      → modifiers_accept after g ≡ true
  unfolding diff_default diff_absence
  benign_modifiers_accept before after path d a missing h = ground arith
  benign_modifiers_accept before after path d a _ h = ground arith
