-- ===== src/Schema/StripDefaults/Tests.antt =====
-- Runs of the stripping of defaults of packages/schema, and the instances of the theorems about it.
use neko_stack.Common.{ℕ, ◌≡◌, refl, Bool, true, false, none, some}
use neko_stack.Js.Json.{Json, num, str, obj, Members}
use neko_stack.Schema.Ir.{NodeBase, SchemaNode, number, object, end, field, strict}
use neko_stack.Schema.StripDefaults.{strip_defaults_for_validate}
use neko_stack.Schema.StripDefaults.Takes.{takes, HasValidDefaults}
use neko_stack.Schema.StripDefaults.Outline.{HasNoDefaults}
use neko_stack.Schema.StripDefaults.Acceptance.{
  strip_defaults_for_validate_lem, takes-strip_defaults_for_validate,
}

abbrev plain : NodeBase ℕ
plain = record { metadata = none; modifiers = none; refinements = none }

abbrev defaulted : NodeBase ℕ
defaulted = record plain {
  modifiers = some (record { optional = some true; nullable = none; default_value = some (num 7) });
}

abbrev person : SchemaNode ℕ
person = object plain (field "age" (number defaulted) end) strict

-- The check of a node of any kind but an object: numbers.
abbrev kind_check : SchemaNode ℕ → Json ℕ → Bool
kind_check (object b fs p) (obj ms) = true
kind_check (number b) (num n) = true
kind_check _ _ = false

strip_defaults_for_validate_lem_example :
    HasNoDefaults (strip_defaults_for_validate person)
    × (takes kind_check (strip_defaults_for_validate person) (some (obj Members.end)) ≡ true)
unfolding takes
strip_defaults_for_validate_lem_example =
    strip_defaults_for_validate_lem kind_check person (some (obj Members.end)) refl

takes-strip_defaults_for_validate_example :
    takes kind_check (strip_defaults_for_validate person) none ≡ takes kind_check person none
unfolding HasValidDefaults
takes-strip_defaults_for_validate_example =
    takes-strip_defaults_for_validate kind_check person (tt, (refl, tt)) none

-- A default that its node refuses: nothing is taken with it, but without it.
abbrev refused : SchemaNode ℕ
refused = number (record plain {
  modifiers =
      some (record { optional = some true; nullable = none; default_value = some (str "x") });
})

refused_tests :
    (takes kind_check refused none ≡ false)
    × (takes kind_check (strip_defaults_for_validate refused) none ≡ true)
unfolding takes strip_defaults_for_validate
refused_tests = (refl, refl)
