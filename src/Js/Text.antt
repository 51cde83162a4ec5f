-- ===== src/Js/Text.antt =====
-- Strings: template literals, `join`, decimal numerals, and the default order of `Array.sort`,
-- which compares UTF-16 code units.
use Prim.Native.Char.{code}
use Prim.Native.String
use neko_stack.Common.{
  ℕ, zero, suc, ◌+◌, ◌-◌, ◌/◌, ◌%◌, String, Bool, true, false, List, [], ◌∷◌, ltb, nat_eq,
  if◌then◌else◌,
}

-- A template literal: its parts one after the other.
unfoldable pub template : List String → String
template [] = ""
template (part ∷ parts) = String.◌++◌ part (template parts)

-- parts.join(separator)
unfoldable pub join : String → List String → String
join separator [] = ""
join separator (part ∷ []) = part
join separator (part ∷ more ∷ parts) =
    String.◌++◌ part (String.◌++◌ separator (join separator (more ∷ parts)))

abbrev digit_text : ℕ → String
digit_text zero = "0"
digit_text (suc zero) = "1"
digit_text (suc (suc zero)) = "2"
digit_text (suc (suc (suc zero))) = "3"
digit_text (suc (suc (suc (suc zero)))) = "4"
digit_text (suc (suc (suc (suc (suc zero))))) = "5"
digit_text (suc (suc (suc (suc (suc (suc zero)))))) = "6"
digit_text (suc (suc (suc (suc (suc (suc (suc zero))))))) = "7"
digit_text (suc (suc (suc (suc (suc (suc (suc (suc zero)))))))) = "8"
digit_text _ = "9"

-- The digits of `n`, the last one first in the recursion; `n + 1` rounds are more than its digits.
digits : ℕ → ℕ → String → String
digits zero n acc = acc
digits (suc fuel) n acc =
    let here = String.◌++◌ (digit_text (n % 10)) acc in
    let rest = digits fuel (n / 10) here in if ltb n 10 then here else rest

unfoldable pub nat_text : ℕ → String
unfolding digits
nat_text n = digits (n + 1) n ""

-- The UTF-16 code units of a string.
units : String → List ℕ
units String.[] = []
units (String.◌∷◌ c s) =
    let rest = units s in
    if ltb (code c) 0x10000
    then code c ∷ rest
    else (0xd800 + (code c - 0x10000) / 0x400) ∷ (0xdc00 + (code c - 0x10000) % 0x400) ∷ rest

units_lt : List ℕ → List ℕ → Bool
units_lt [] [] = false
units_lt [] (y ∷ ys) = true
units_lt (x ∷ xs) [] = false
units_lt (x ∷ xs) (y ∷ ys) =
    let rest = units_lt xs ys in if ltb x y then true else if nat_eq x y then rest else false

-- a < b, as JavaScript compares strings.
unfoldable pub text_lt : String → String → Bool
unfolding units units_lt
text_lt a b = units_lt (units a) (units b)

unfoldable pub insert : String → List String → List String
unfolding text_lt
insert s [] = s ∷ []
insert s (t ∷ ts) = if text_lt t s then t ∷ insert s ts else s ∷ t ∷ ts

-- texts.sort()
unfoldable pub sort : List String → List String
unfolding insert
sort [] = []
sort (s ∷ ts) = insert s (sort ts)
