-- ===== src/Migration/Stub/Path.antt =====
-- `suggestedMigrationPathFor` of migrations/stub.ts of packages/schema. `toLowerCase` follows the
-- Unicode tables and is a parameter.
use Prim.Native.Char.{Char, code}
use neko_stack.Common.{
  String, Bool, false, not, ◌&&◌, ◌||◌, Option, none, some, List, [], ◌∷◌, leb, nat_eq,
  if◌then◌else◌,
}
use neko_stack.Js.Text.{template}
use neko_stack.Js.JsMap.{includes}
use neko_stack.Schema.Jsdoc.{is_empty, has_terminator}

-- sourcePath.replace(/\\/g, "/")
abbrev forward : Char → Char
forward c = if nat_eq (code c) 0x5c then "/" else c

forward_slashes : String → String
forward_slashes String.[] = ""
forward_slashes (String.◌∷◌ c s) = String.◌∷◌ (forward c) (forward_slashes s)

-- A text before and behind the last occurrence of a character.
at_last : Char → String → Option (String × String)
at_last d String.[] = none
at_last d (String.◌∷◌ c s) = elim (at_last d s) [
  | some p ↦ some (String.◌∷◌ c p.0, p.1)
  | none ↦ if nat_eq (code c) (code d) then some ("", s) else none
]

abbrev dir_of : String → String
unfolding at_last
dir_of path = elim (at_last "/" path) [ none ↦ "" | some p ↦ p.0 ]

abbrev filename_of : String → String
unfolding at_last
filename_of path = elim (at_last "/" path) [ none ↦ path | some p ↦ p.1 ]

abbrev schema_suffixes : List String
schema_suffixes = ".schema.ts" ∷ ".schema.js" ∷ ".schema.mts" ∷ ".schema.cts" ∷ []

-- The text before the end that a suffix of a schema file makes up.
before_suffix : String → Option String
unfolding includes
before_suffix String.[] = none
before_suffix (String.◌∷◌ c s) =
    let rest = before_suffix s in
    if includes (String.◌∷◌ c s) schema_suffixes
    then some ""
    else elim rest [ none ↦ none | some t ↦ some (String.◌∷◌ c t) ]

abbrev minus_extension : String → String
unfolding at_last
minus_extension filename = elim (at_last "." filename) [
  | none ↦ filename
  | some p ↦ if is_empty p.0 then filename else p.0
]

unfoldable pub basename_of : String → String
unfolding before_suffix has_terminator minus_extension
basename_of filename = elim (before_suffix filename) [
  | none ↦ minus_extension filename
  | some t ↦ if is_empty t || has_terminator t then minus_extension filename else t
]

abbrev is_slug : Char → Bool
is_slug c = (leb b'a' (code c) && leb (code c) b'z') || (leb b'0' (code c) && leb (code c) b'9')

-- Runs of other characters become one dash, but at the two ends: `pending` tells that a run stands
-- before the text, `started` that something stands before the run.
slugged : (started pending : Bool) → String → String
slugged started pending String.[] = ""
slugged started pending (String.◌∷◌ c s) =
    let rest = slugged (started || is_slug c) (not (is_slug c)) s in
    let kept = String.◌∷◌ c rest in
    if is_slug c then (if started && pending then String.◌∷◌ "-" kept else kept) else rest

unfoldable pub slugify : (to_lower_case : String → String) → String → String
unfolding slugged
slugify to_lower_case s = slugged false false (to_lower_case s)

unfoldable pub suggested_migration_path_for :
    (to_lower_case : String → String) → (source_path from_version to_version : String) → String
unfolding template forward_slashes dir_of filename_of basename_of slugify
suggested_migration_path_for to_lower_case source_path from_version to_version =
    let normalized = forward_slashes source_path in
    let dir = dir_of normalized in
    template (
      (if is_empty dir then "migrations" else template (dir ∷ "/migrations" ∷ []))
      ∷ "/"
      ∷ basename_of (filename_of normalized)
      ∷ "."
      ∷ slugify to_lower_case from_version
      ∷ "-to-"
      ∷ slugify to_lower_case to_version
      ∷ ".migration.ts"
      ∷ [])
