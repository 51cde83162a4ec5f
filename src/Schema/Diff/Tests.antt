-- ===== src/Schema/Diff/Tests.antt =====
-- Tests of the diff classifier.
use neko_stack.Common.{ℕ, String, ◌≡◌, ◌↔◌, refl, true, Option, none, some, List, [], ◌∷◌, map, All}
use neko_stack.Samples.{nat_number, plain, optional_base, user1, user2, user3}
use neko_stack.Js.Json.{Json, num}
use neko_stack.Schema.Issues.{key}
use neko_stack.Schema.Ir.{SchemaNode, object, string, strict, passthrough}
use neko_stack.Schema.Diff.Changes.{
  DiffKind, DiffSeverity, breaking, additive, cosmetic, DiffChange, compute_worst_severity,
}
use neko_stack.Schema.Diff.Axes.{diff_default}
use neko_stack.Schema.Diff.Absence.{
  required, optional, absence_severity, unknown_keys_severity, diff_absence,
}
use neko_stack.Js.Json.{Members}
use neko_stack.Js.JsMap.{includes}
use neko_stack.Schema.Ir.{portable, PortableRefinement, PortableRefinementName, end, field}
use neko_stack.Schema.Diff.Refinements.{diff_refinements}
use neko_stack.Schema.Diff.Hidden.{diff_refinements_shadowed}
use neko_stack.Schema.Diff.Added.{with_last, IsAddition, diff_nodes-with_last}
use neko_stack.Schema.Diff.Walk.{ok, unsupported, own_field, diff_nodes}
use neko_stack.Schema.Diff.Self.{IsDiffable, diff_nodes_self}
use neko_stack.Schema.Diff.Severity.{Occurs, IsAtMost, compute_worst_severity_max}
use neko_stack.Schema.Diff.Acceptance.{
  Given, value, state_accepts, modifiers_accept, DoesLose, policy_accepts,
  absence_severity-additive_iff, unknown_keys_severity_iff, benign_modifiers_accept,
}

abbrev severities : List (DiffChange ℕ) → List DiffSeverity
severities = map (λ c. c.severity)

abbrev severities_of : SchemaNode ℕ → SchemaNode ℕ → Option (List DiffSeverity)
unfolding diff_nodes
severities_of before after = elim (diff_nodes before after) [
  | ok changes ↦ some (severities changes)
  | unsupported k ↦ none
]

diff_tests :
    (severities_of user1 user2 ≡ some (breaking ∷ []))
    × (severities_of user2 user3 ≡ some (additive ∷ []))
    × (severities_of user3 user1 ≡ some (breaking ∷ breaking ∷ []))
    × (severities_of user1 (string plain) ≡ some (breaking ∷ []))
unfolding diff_nodes
diff_tests = (refl, refl, refl, refl)

diff_nodes_self_example : diff_nodes user3 user3 ≡ ok []
unfolding IsDiffable own_field
diff_nodes_self_example = diff_nodes_self user3 (refl, tt, (refl, tt, (refl, tt, tt)))

abbrev change : DiffSeverity → DiffChange ℕ
change severity = record {
  severity = severity;
  path = key "name" ∷ [];
  kind = DiffKind.metadata_changed;
  before = none;
  after = none;
  message = "";
}

abbrev changes : List (DiffChange ℕ)
changes = change cosmetic ∷ change additive ∷ change cosmetic ∷ []

compute_worst_severity_max_example :
    ((compute_worst_severity changes ≡ none) ↔ (changes ≡ []))
    × ((worst : DiffSeverity)
        → compute_worst_severity changes ≡ some worst
        → Occurs worst changes × All (IsAtMost worst) changes)
compute_worst_severity_max_example = compute_worst_severity_max changes

absence_severity-additive_iff_example :
    (absence_severity required optional ≡ additive)
    ↔ ((g : Given) → state_accepts required g ≡ true → state_accepts optional g ≡ true)
absence_severity-additive_iff_example = absence_severity-additive_iff required optional

unknown_keys_severity_iff_example :
    ((unknown_keys_severity strict passthrough ≡ breaking) ↔ DoesLose strict passthrough)
    × ((unknown_keys_severity strict passthrough ≡ additive) ↔ DoesLose passthrough strict)
    × ((unknown_keys_severity strict passthrough ≡ cosmetic) ↔ (
        (known given : List String)
        → policy_accepts strict known given ≡ policy_accepts passthrough known given))
unknown_keys_severity_iff_example = unknown_keys_severity_iff strict passthrough

abbrev seven : Json ℕ
seven = num 7

benign_modifiers_accept_example :
    modifiers_accept
      (some (record { optional = none; nullable = none; default_value = some seven }))
      value
    ≡ true
unfolding diff_default diff_absence
benign_modifiers_accept_example =
    benign_modifiers_accept none
      (some (record { optional = none; nullable = none; default_value = some seven })) [] (cc, tt)
      tt value refl

abbrev at_least : ℕ → PortableRefinement ℕ
at_least n = record {
  name = PortableRefinementName.min;
  params = some (Members.member "value" (num n) Members.end);
}

abbrev at_most : ℕ → PortableRefinement ℕ
at_most n = record {
  name = PortableRefinementName.max;
  params = some (Members.member "value" (num n) Members.end);
}

diff_refinements_shadowed_example :
    diff_refinements
      (some (
        portable (at_most 20)
        ∷ portable (at_least 1)
        ∷ portable (at_most 30)
        ∷ portable (at_least 5)
        ∷ []))
      (some (
        portable (at_most 20)
        ∷ portable (at_least 9)
        ∷ portable (at_most 30)
        ∷ portable (at_least 5)
        ∷ []))
      []
    ≡ []
diff_refinements_shadowed_example =
    diff_refinements_shadowed (at_least 1) (at_least 9) (at_least 5) (portable (at_most 20) ∷ [])
      (portable (at_most 30) ∷ []) [] [] refl refl

diff_nodes-with_last_example :
    (change : DiffChange ℕ) × (diff_nodes (object plain (field "name" (string plain) end) strict) (
        object plain
          (field "name" (string plain) (field "toString" (string optional_base) end))
          strict)
      ≡ ok (change ∷ []))
    × IsAddition true "toString" (string optional_base) change
unfolding own_field IsDiffable with_last includes
diff_nodes-with_last_example =
    diff_nodes-with_last plain (field "name" (string plain) end) strict "toString"
      (string optional_base) (refl, tt, tt) refl
