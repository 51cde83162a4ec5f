-- ===== src/Js/Json.antt =====
-- JSON values and `JSON.stringify`. Numbers are those of the engine: their type is a parameter,
-- with the order `<` and the text that `JSON.stringify` gives them.
use Prim.Native.Char.{Char, code}
use Prim.Native.String
use neko_stack.Common.{
  ℕ, ◌/◌, ◌%◌, String, Bool, true, false, Option, none, some, List, [], ◌∷◌, ◌==◌, ltb, nat_eq,
  if◌then◌else◌,
}
use neko_stack.Js.Text.{template, join}

-- `a < b` on the engine's numbers, and a number's JSON text.
pub record JsNumber (N : Type 0) : Type 0 where
  pub lt : N → N → Bool
  pub number_text : N → String

mutual
  pub data Json (N : Type 0) : Type 0 where
    null : Json N
    bool : Bool → Json N
    num : N → Json N
    str : String → Json N
    arr : Items N → Json N
    obj : Members N → Json N

  pub data Items (N : Type 0) : Type 0 where
    nil : Items N
    cons : Json N → Items N → Items N

  pub data Members (N : Type 0) : Type 0 where
    end : Members N
    member : String → Json N → Members N → Members N

abbrev hex_digit : ℕ → String
hex_digit d =
    if ltb d 10
    then (if nat_eq d 0
        then "0"
        else if nat_eq d 1
        then "1"
        else if nat_eq d 2
        then "2"
        else if nat_eq d 3
        then "3"
        else if nat_eq d 4
        then "4"
        else if nat_eq d 5
        then "5"
        else if nat_eq d 6
        then "6"
        else if nat_eq d 7
        then "7"
        else if nat_eq d 8
        then "8"
        else "9")
    else (if nat_eq d 10
        then "a"
        else if nat_eq d 11
        then "b"
        else if nat_eq d 12
        then "c"
        else if nat_eq d 13
        then "d"
        else if nat_eq d 14
        then "e"
        else "f")

-- The escapes of `JSON.stringify`; a string of this model holds no lone surrogate.
escape : Char → String
escape c =
    if nat_eq (code c) 0x22
    then "\\\""
    else if nat_eq (code c) 0x5c
    then "\\\\"
    else if nat_eq (code c) 8
    then "\\b"
    else if nat_eq (code c) 9
    then "\\t"
    else if nat_eq (code c) 10
    then "\\n"
    else if nat_eq (code c) 12
    then "\\f"
    else if nat_eq (code c) 13
    then "\\r"
    else if ltb (code c) 0x20
    then template ("\\u00" ∷ hex_digit (code c / 16) ∷ hex_digit (code c % 16) ∷ [])
    else String.◌∷◌ c String.[]

escapes : String → String
unfolding escape
escapes String.[] = ""
escapes (String.◌∷◌ c s) = String.◌++◌ (escape c) (escapes s)

unfoldable pub quote : String → String
unfolding escapes template
quote s = template ("\"" ∷ escapes s ∷ "\"" ∷ [])

module _ {N : Type 0} ⦃number : JsNumber N⦄ where
  unfoldable mutual
    unfolding quote template join

    pub stringify : Json N → String
    stringify null = "null"
    stringify (bool true) = "true"
    stringify (bool false) = "false"
    stringify (num n) = number.number_text n
    stringify (str s) = quote s
    stringify (arr xs) = template ("[" ∷ join "," (stringify_items xs) ∷ "]" ∷ [])
    stringify (obj ms) = template ("{" ∷ join "," (stringify_members ms) ∷ "}" ∷ [])

    pub stringify_items : Items N → List String
    stringify_items nil = []
    stringify_items (cons x xs) = stringify x ∷ stringify_items xs

    pub stringify_members : Members N → List String
    stringify_members end = []
    stringify_members (member k v ms) =
        template (quote k ∷ ":" ∷ stringify v ∷ []) ∷ stringify_members ms

  -- An own property of an object.
  unfoldable pub member_at : String → Members N → Option (Json N)
  member_at k end = none
  member_at k (member j v ms) = if j == k then some v else member_at k ms
