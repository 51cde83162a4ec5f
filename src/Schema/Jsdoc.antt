-- ===== src/Schema/Jsdoc.antt =====
-- The JSDoc headers of packages/schema, as registry/parse-provenance.ts and
-- migrations/parse-provenance.ts read them: both have the same two regular expressions. A match is
-- written out as the search that it does.
pub mod Searches
pub mod Texts
pub mod Rendered
use Prim.Native.Char.{Char, code}
use Prim.Native.String
use neko_stack.Common.{
  ℕ, zero, suc, ◌+◌, String, Bool, true, false, not, ◌&&◌, ◌||◌, Option, none, some, List, [], ◌∷◌,
  ltb, leb, nat_eq, if◌then◌else◌,
}
use neko_stack.Js.JsMap.{JsMap, set}

-- \s, and what `.` does not match
unfoldable pub is_terminator : ℕ → Bool
is_terminator c = nat_eq c 0xa || nat_eq c 0xd || nat_eq c 0x2028 || nat_eq c 0x2029

unfoldable pub is_space : ℕ → Bool
is_space c =
    (leb 9 c && leb c 13)
    || nat_eq c 0x20
    || nat_eq c 0xa0
    || nat_eq c 0x1680
    || (leb 0x2000 c && leb c 0x200a)
    || nat_eq c 0x2028
    || nat_eq c 0x2029
    || nat_eq c 0x202f
    || nat_eq c 0x205f
    || nat_eq c 0x3000
    || nat_eq c 0xfeff

-- \w
unfoldable pub is_word : ℕ → Bool
is_word c =
    (leb b'a' c && leb c b'z')
    || (leb b'A' c && leb c b'Z')
    || (leb b'0' c && leb c b'9')
    || nat_eq c b'_'

unfoldable pub trim_start : String → String
trim_start String.[] = ""
trim_start (String.◌∷◌ c s) = if is_space (code c) then trim_start s else String.◌∷◌ c s

abbrev pub is_empty : String → Bool
is_empty String.[] = true
is_empty (String.◌∷◌ c s) = false

-- A character before a text that has been trimmed at its end.
abbrev pub trimmed_before : Char → String → String
trimmed_before c s = if is_empty s && is_space (code c) then "" else String.◌∷◌ c s

unfoldable pub trim_end : String → String
trim_end String.[] = ""
trim_end (String.◌∷◌ c s) = trimmed_before c (trim_end s)

-- What follows a prefix.
unfoldable pub strip_prefix : String → String → Option String
strip_prefix String.[] s = some s
strip_prefix (String.◌∷◌ c p) String.[] = none
strip_prefix (String.◌∷◌ c p) (String.◌∷◌ d s) =
    let rest = strip_prefix p s in if nat_eq (code c) (code d) then rest else none

-- The text behind the first occurrence of a word, and the text before it.
unfoldable pub after_first : String → String → Option String
unfolding strip_prefix
after_first word String.[] = strip_prefix word ""
after_first word (String.◌∷◌ c s) = elim (strip_prefix word (String.◌∷◌ c s)) [
  | some rest ↦ some rest
  | none ↦ after_first word s
]

abbrev pub prepend : Char → Option String → Option String
prepend c none = none
prepend c (some s) = some (String.◌∷◌ c s)

unfoldable pub before_first : String → String → Option String
unfolding strip_prefix
before_first word String.[] = elim (strip_prefix word "") [ none ↦ none | some rest ↦ some "" ]
before_first word (String.◌∷◌ c s) = elim (strip_prefix word (String.◌∷◌ c s)) [
  | some rest ↦ some ""
  | none ↦ prepend c (before_first word s)
]

-- JSDOC_BLOCK, /\/\*\*([\s\S]*?)\*\//: what it captures
unfoldable pub jsdoc_block : String → Option String
unfolding after_first before_first
jsdoc_block content = elim (after_first "/**" content) [
  | none ↦ none
  | some rest ↦ before_first "*/" rest
]

abbrev starts_newline : String → Bool
starts_newline String.[] = false
starts_newline (String.◌∷◌ c s) = nat_eq (code c) 0xa

abbrev pub before_head : Char → List String → List String
before_head c [] = String.◌∷◌ c "" ∷ []
before_head c (l ∷ ls) = String.◌∷◌ c l ∷ ls

-- text.split(/\r?\n/)
unfoldable pub lines : String → List String
lines String.[] = "" ∷ []
lines (String.◌∷◌ c s) =
    let rest = lines s in
    if nat_eq (code c) 0xa
    then "" ∷ rest
    else if nat_eq (code c) 0xd && starts_newline s
    then rest
    else before_head c rest

unfoldable pub word_of : String → String
word_of String.[] = ""
word_of (String.◌∷◌ c s) =
    let rest = word_of s in if is_word (code c) then String.◌∷◌ c rest else ""

unfoldable pub after_word : String → String
after_word String.[] = ""
after_word (String.◌∷◌ c s) =
    let rest = after_word s in if is_word (code c) then rest else String.◌∷◌ c s

unfoldable pub has_terminator : String → Bool
has_terminator String.[] = false
has_terminator (String.◌∷◌ c s) = is_terminator (code c) || has_terminator s

-- The last character of a blank text that `.` matches.
unfoldable pub last_inline : String → Option String
last_inline String.[] = none
last_inline (String.◌∷◌ c s) = elim (last_inline s) [
  | some found ↦ some found
  | none ↦ if is_terminator (code c) then none else some (String.◌∷◌ c "")
]

-- `\s*(.+?)\s*$`: what it captures. On a blank text the first part gives back what the second needs.
unfoldable pub field_value : String → Option String
unfolding trim_start trim_end has_terminator last_inline
field_value s =
    let rest = trim_start s in
    let found = trim_end rest in
    if is_empty rest then last_inline s else if has_terminator found then none else some found

abbrev valued : String → Option String → Option (String × String)
valued key none = none
valued key (some v) = some (key, v)

-- `(\w+):`, and the rest
abbrev named : String → String → Option (String × String)
unfolding field_value
named key rest = elim (strip_prefix ":" rest) [
  | none ↦ none
  | some v ↦ if is_empty key then none else valued key (field_value v)
]

abbrev starts_space : String → Bool
starts_space String.[] = false
starts_space (String.◌∷◌ c s) = is_space (code c)

-- JSDOC_FIELD, /^\s*\*\s+(\w+):\s*(.+?)\s*$/: what it captures
unfoldable pub jsdoc_field : String → Option (String × String)
unfolding trim_start strip_prefix named word_of after_word
jsdoc_field line = elim (strip_prefix "*" (trim_start line)) [
  | none ↦ none
  | some rest ↦
      let inner = trim_start rest in
      if starts_space rest then named (word_of inner) (after_word inner) else none
]

abbrev pub with_field : JsMap String → Option (String × String) → JsMap String
unfolding set
with_field fields none = fields
with_field fields (some kv) = set kv.0 kv.1 fields

-- The loop of parseJsdocHeader.
unfoldable pub read_fields : List String → JsMap String → JsMap String
unfolding jsdoc_field with_field
read_fields [] fields = fields
read_fields (l ∷ ls) fields = read_fields ls (with_field fields (jsdoc_field l))

abbrev is_hex : ℕ → Bool
is_hex c = (leb b'0' c && leb c b'9') || (leb b'a' c && leb c b'f')

abbrev are_hex : ℕ → String → Bool
are_hex zero String.[] = true
are_hex zero (String.◌∷◌ c s) = false
are_hex (suc n) String.[] = false
are_hex (suc n) (String.◌∷◌ c s) = is_hex (code c) && are_hex n s

-- SHA256_PATTERN.test(value)
unfoldable pub is_sha256 : String → Bool
unfolding strip_prefix
is_sha256 value = elim (strip_prefix "sha256:" value) [
  | none ↦ false
  | some digest ↦ are_hex 64 digest
]
