-- ===== src/Schema/Builders/Tests.antt =====
-- Runs of the builders of packages/schema, and the instances of the theorems about them.
use neko_stack.Common.{ℕ, ◌≡◌, refl, true, false, Option, none, some, [], ◌∷◌}
use neko_stack.Js.Json.{num}
use neko_stack.Js.JsMap.{includes}
use neko_stack.Js.Throws.{returned, ◌>>=◌}
use neko_stack.Schema.Ir.{strict}
use neko_stack.Schema.Diff.Compare.{modifiers_or_empty}
use neko_stack.Schema.Diff.Acceptance.{missing, null_value}
use neko_stack.Schema.Builders.{
  Schema, Shape, empty, entry, node_base, s_string, s_number, s_object, optional, default,
}
use neko_stack.Schema.Builders.Shapes.{Mask, asks, own}
use neko_stack.Schema.Builders.Compose.{
  ObjectSchema, affects, as_schema, composed_object, extend, pick, omit, partial, required,
}
use neko_stack.Schema.Builders.Merge.{Conflict, MergeOptions, merge}
use neko_stack.Schema.Builders.Lookup.{IsDistinct}
use neko_stack.Schema.Builders.Modifiers.{accepts, partial-accepts, required-partial}
use neko_stack.Schema.Builders.Operators.{extend_lem, pick-omit, merge_lem}
use neko_stack.Schema.Builders.Nodes.{IsCoherent}
use neko_stack.Schema.Builders.Built.{
  IsBuilt, by_string, by_number, by_default, by_object, by_made_partial, by_empty, by_entry,
}
use neko_stack.Schema.Builders.Coherence.{IsBuilt-IsCoherent}

abbrev name_and_age : Shape ℕ
unfolding default
name_and_age = entry "name" s_string (entry "age" (default s_number (num 7)) empty)

abbrev user : ObjectSchema ℕ
unfolding composed_object default
user = composed_object name_and_age strict

abbrev email_only : Shape ℕ
email_only = entry "email" s_string empty

abbrev name_only : Mask
name_only = ("name", true) ∷ []

abbrev with_email : ObjectSchema ℕ
unfolding composed_object default
with_email =
    composed_object (entry "name" s_string (entry "age" (default s_number (num 7)) email_only))
      strict

extended_user : extend user email_only ≡ returned with_email
unfolding extend user with_email
extended_user = refl

IsDistinct-email : IsDistinct email_only
unfolding IsDistinct
IsDistinct-email = (refl, tt)

extend_lem_example : own "email" with_email.shape ≡ some s_string
unfolding own user with_email
extend_lem_example =
    ((extend_lem user email_only IsDistinct-email).1 with_email extended_user).1 "email"

abbrev just_name : ObjectSchema ℕ
unfolding composed_object
just_name = composed_object (entry "name" s_string empty) strict

abbrev just_age : ObjectSchema ℕ
unfolding composed_object default
just_age = composed_object (entry "age" (default s_number (num 7)) empty) strict

picked_user : pick user name_only ≡ returned just_name
unfolding pick user just_name
picked_user = refl

omitted_user : omit user name_only ≡ returned just_age
unfolding omit user just_age
omitted_user = refl

pick-omit_example :
    (own "name" just_name.shape ≡ some s_string) × (own "name" just_age.shape ≡ none)
unfolding own asks user just_name just_age
pick-omit_example = pick-omit user just_name just_age name_only picked_user omitted_user "name"

abbrev partial_user : ObjectSchema ℕ
unfolding composed_object optional
partial_user =
    composed_object (entry "name" s_string (entry "age" (optional s_number) empty)) strict

abbrev required_user : ObjectSchema ℕ
unfolding composed_object
required_user = composed_object (entry "name" s_string (entry "age" s_number empty)) strict

abbrev age_only : Option Mask
age_only = some (("age", true) ∷ [])

partial_run : partial user age_only ≡ returned partial_user
unfolding partial user partial_user
partial_run = refl

required_run : required user age_only ≡ returned required_user
unfolding required user required_user
required_run = refl

partial-accepts_example :
    (t : Schema ℕ) × (own "age" partial_user.shape ≡ some t)
    × (affects age_only "age" ≡ false → t ≡ default s_number (num 7))
    × (affects age_only "age" ≡ true
        → (accepts t missing ≡ true)
          × (accepts t null_value ≡ accepts {N = ℕ} (default s_number (num 7)) null_value)
          × ((modifiers_or_empty (node_base t).modifiers).default_value ≡ none))
unfolding own user
partial-accepts_example =
    partial-accepts user partial_user age_only partial_run "age" (default s_number (num 7)) refl

required-partial_example :
    (partial user none >>= (λ p. required p none) ≡ required user none)
    × (required user none >>= (λ p. partial p none) ≡ partial user none)
required-partial_example = required-partial user

-- Another object with an age, and a field named like a member of `Object.prototype`.
abbrev aged : ObjectSchema ℕ
unfolding composed_object
aged = composed_object (entry "age" s_string (entry "toString" s_string empty)) strict

abbrev left_wins : MergeOptions
left_wins = record { conflict = some Conflict.left; unknown_keys = none }

merged_run : merge user aged left_wins ≡ returned user
unfolding merge user aged
merged_run = refl

IsDistinct-aged : IsDistinct aged.shape
unfolding IsDistinct own aged
IsDistinct-aged = (refl, (refl, tt))

merge_lem_example : own "age" user.shape ≡ some (default s_number (num 7))
unfolding own includes user aged
merge_lem_example =
    (merge_lem user aged user left_wins IsDistinct-aged merged_run).1 refl "age" refl

IsBuilt-user : IsBuilt (as_schema user)
unfolding user s_object own
IsBuilt-user =
    by_object (by_entry refl by_string (by_entry refl (by_default (num 7) by_number) by_empty))

IsBuilt-IsCoherent_example : IsCoherent (as_schema partial_user)
IsBuilt-IsCoherent_example =
    IsBuilt-IsCoherent (as_schema partial_user)
      (by_made_partial user partial_user age_only IsBuilt-user partial_run)
