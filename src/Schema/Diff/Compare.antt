-- ===== src/Schema/Diff/Compare.antt =====
-- registry/diff.ts of packages/schema: `===` and the texts of values that may be undefined.
use neko_stack.Common.{String, Bool, true, false, not, Option, none, some, ◌==◌}
use neko_stack.Schema.Ir.{NodeMetadata, NodeModifiers}

-- `===` on strings that may be undefined
abbrev pub same_text : Option String → Option String → Bool
same_text none none = true
same_text (some a) (some b) = a == b
same_text _ _ = false

abbrev pub or_null : Option String → String
or_null none = "null"
or_null (some a) = a

abbrev pub flag_text : Bool → String
flag_text true = "true"
flag_text false = "false"

abbrev pub same_flag : Bool → Bool → Bool
same_flag true b = b
same_flag false b = not b

-- `flag === true`, and `flag ?? false`
abbrev pub is_true : Option Bool → Bool
is_true none = false
is_true (some b) = b

-- `metadata ?? {}`, and optional chaining on the modifiers
abbrev pub metadata_or_empty : Option NodeMetadata → NodeMetadata
metadata_or_empty none = record { id = none; version = none; description = none; deprecated = none }
metadata_or_empty (some m) = m

abbrev pub modifiers_or_empty : {N : Type 0} → Option (NodeModifiers N) → NodeModifiers N
modifiers_or_empty none = record { optional = none; nullable = none; default_value = none }
modifiers_or_empty (some m) = m
