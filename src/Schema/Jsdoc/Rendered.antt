-- ===== src/Schema/Jsdoc/Rendered.antt =====
-- How the readers of Schema/Jsdoc.antt read a text that is put together from known parts.
use Prim.Native.Char.{code}
use Prim.Native.String
use text.Mathlib.TextLemmas.{nil-append, cons-append, append_assoc}
use neko_stack.Common.{
  ℕ, String, ◌≡◌, refl, sym, ap, ◌∙◌, Bool, true, false, not, Option, none, some, List, [], ◌∷◌,
  ◌++◌, All, arith, if◌then◌else◌,
}
use neko_stack.Js.Text.{join}
use neko_stack.Schema.Jsdoc.{
  is_terminator, is_space, is_word, trim_start, is_empty, strip_prefix, before_first, lines,
  word_of, after_word, has_terminator, field_value, valued, jsdoc_block, named, jsdoc_field,
}
use neko_stack.Schema.Jsdoc.Searches.{
  strip_prefix-append, after_first-append, before_first-append, before_first-quiet, lines-append,
  lines_last, trim_start-blank, trim_start-plain, trim_end-plain, word_of-append, after_word-append,
}
use neko_stack.Schema.Jsdoc.Texts.{lacks, starts_other, is_quiet, starts_plain, ends_plain}

has_terminator-lacks : (v : String) → lacks is_terminator v ≡ true → has_terminator v ≡ false
unfolding has_terminator lacks
has_terminator-lacks String.[] h = refl
has_terminator-lacks (String.◌∷◌ c v) h = ground (arith, has_terminator-lacks v)

-- A value that a header line can hold: it has no line break, neither begins nor ends with a blank,
-- and closes no comment.
pub record IsTidy (v : String) : Type 0 where
  pub inline : lacks is_terminator v ≡ true
  pub starts : starts_plain v ≡ true
  pub ends : ends_plain v ≡ true
  pub quiet : is_quiet (String.◌++◌ v "\n") ≡ true

starts_full : (v : String) → starts_plain v ≡ true → is_empty v ≡ false
unfolding starts_plain
starts_full String.[] h = cc
starts_full (String.◌∷◌ c v) h = refl

pub tidy_full : {v : String} → IsTidy v → is_empty v ≡ false
tidy_full {v} t = starts_full v t.starts

field_value-tidy :
    (sp v : String)
    → lacks (λ c. not (is_space c)) sp ≡ true
    → IsTidy v
    → field_value (String.◌++◌ sp v) ≡ some v
unfolding field_value
field_value-tidy sp v b t =
    let p : trim_start (String.◌++◌ sp v) ≡ v =
      trim_start-blank sp v b ∙ trim_start-plain v t.starts in
    rw (p, trim_end-plain v t.ends, tidy_full t, has_terminator-lacks v t.inline) refl

named_eq :
    (k rest v : String)
    → is_empty k ≡ false
    → field_value rest ≡ some v
    → named k (String.◌++◌ ":" rest) ≡ some (k, v)
unfolding named strip_prefix
named_eq k rest v e f =
    ap
      (λ (o : Option String). elim o as (λ x. Option (String × String)) [
        | none ↦ none
        | some s ↦ if is_empty k then none else valued k (field_value s)
      ])
      (strip_prefix-append ":" rest)
    ∙ rw (e, f) refl

word_plain : (c : ℕ) → is_word c ≡ true → not (is_space c) ≡ true
unfolding is_word is_space
word_plain c h = ground arith

word_start :
    (k s : String)
    → is_empty k ≡ false
    → lacks (λ c. not (is_word c)) k ≡ true
    → starts_plain (String.◌++◌ k s) ≡ true
unfolding lacks starts_plain
word_start String.[] s e h = cc
word_start (String.◌∷◌ c k) s e h = rw (cons-append c k s) (word_plain (code c) (ground arith))

colon_head :
    (s : String)
    → (word_of (String.◌++◌ ":" s) ≡ "") × (after_word (String.◌++◌ ":" s) ≡ String.◌++◌ ":" s)
unfolding word_of after_word is_word
colon_head s = rw (cons-append ":" "" s) (refl, refl)

jsdoc_field_head :
    (s : String)
    → jsdoc_field (String.◌∷◌ " " (String.◌∷◌ "*" (String.◌∷◌ " " s)))
      ≡ named (word_of (trim_start s)) (after_word (trim_start s))
unfolding jsdoc_field is_space trim_start strip_prefix
jsdoc_field_head s = refl

three_heads :
    (s : String) → String.◌++◌ " * " s ≡ String.◌∷◌ " " (String.◌∷◌ "*" (String.◌∷◌ " " s))
three_heads s =
    cons-append " " "* " s
    ∙ ap (String.◌∷◌ " ") (
        cons-append "*" " " s
        ∙ ap (String.◌∷◌ "*") (cons-append " " "" s ∙ ap (String.◌∷◌ " ") (nil-append s)))

-- A line with a key, its colon, blanks and a value is read as the field.
pub jsdoc_field_line :
    (k sp v : String)
    → is_empty k ≡ false
    → lacks (λ c. not (is_word c)) k ≡ true
    → lacks (λ c. not (is_space c)) sp ≡ true
    → IsTidy v
    → jsdoc_field (String.◌++◌ " * " (String.◌++◌ k (String.◌++◌ ":" (String.◌++◌ sp v))))
      ≡ some (k, v)
jsdoc_field_line k sp v e w b t =
    let rest = String.◌++◌ sp v in
    let colon = String.◌++◌ ":" rest in
    let inner = String.◌++◌ k colon in
    let trimmed : trim_start inner ≡ inner = trim_start-plain inner (word_start k colon e w) in
    let word : word_of inner ≡ k = word_of-append k colon w (colon_head rest).0 in
    let after : after_word inner ≡ colon = after_word-append k colon w (colon_head rest).1 in
    ap jsdoc_field (three_heads inner)
    ∙ jsdoc_field_head inner
    ∙ ap (λ (s : String). named (word_of s) (after_word s)) trimmed
    ∙ ap (λ (s : String). named s (after_word inner)) word
    ∙ ap (named k) after
    ∙ named_eq k rest v e (field_value-tidy sp v b t)

starts_other-append : (p q : String) → starts_other p ≡ true → starts_other (String.◌++◌ p q) ≡ true
starts_other-append String.[] q h = cc
starts_other-append (String.◌∷◌ c p) q h = rw (cons-append c p q) h

pub is_quiet-append :
    (p q : String) → is_quiet p ≡ true → is_quiet q ≡ true → is_quiet (String.◌++◌ p q) ≡ true
unfolding is_quiet
is_quiet-append String.[] q h g = rw (nil-append q) g
is_quiet-append (String.◌∷◌ c p) q h g =
    rw (cons-append c p q) (ground (arith, is_quiet-append p q, starts_other-append p q))

pub lacks-append :
    (test : ℕ → Bool) (p q : String)
    → lacks test p ≡ true
    → lacks test q ≡ true
    → lacks test (String.◌++◌ p q) ≡ true
unfolding lacks
lacks-append test String.[] q h g = rw (nil-append q) g
lacks-append test (String.◌∷◌ c p) q h g =
    rw (cons-append c p q) (ground (arith, lacks-append test p q))

abbrev pub IsInline : String → Type 0
IsInline l = lacks is_terminator l ≡ true

-- Splitting what was joined gives the lines back.
pub lines-join :
    (l : String) (ls : List String) → All IsInline (l ∷ ls) → lines (join "\n" (l ∷ ls)) ≡ l ∷ ls
unfolding join
lines-join l [] (h, r) = lines_last l h
lines-join l (k ∷ ls) (h, r) =
    lines-append l (join "\n" (k ∷ ls)) h ∙ ap (◌∷◌ l) (lines-join k ls r)

-- With its line break, a line closes no comment.
abbrev pub IsQuiet : String → Type 0
IsQuiet l = is_quiet (String.◌++◌ l "\n") ≡ true

blank_quiet : is_quiet " " ≡ true
unfolding is_quiet
blank_quiet = refl

one_more :
    (l tail found rest : String)
    → IsQuiet l
    → before_first "*/" (String.◌++◌ tail rest) ≡ some found
    → before_first "*/" (String.◌++◌ (String.◌++◌ l (String.◌++◌ "\n" tail)) rest)
      ≡ some (String.◌++◌ l (String.◌++◌ "\n" found))
one_more l tail found rest h ends =
    let line = String.◌++◌ l "\n" in
    ap (before_first "*/") (
      ap (λ (s : String). String.◌++◌ s rest) (sym (append_assoc l "\n" tail))
      ∙ append_assoc line tail rest)
    ∙ before_first-quiet line (String.◌++◌ tail rest) found h ends
    ∙ ap some (append_assoc l "\n" found)

-- Of quiet lines, a last one that closes the comment and what stands behind it, the comment ends
-- where it is closed.
pub before_first-join :
    (ls : List String) (rest : String)
    → All IsQuiet ls
    → before_first "*/" (String.◌++◌ (join "\n" (ls ++ " */" ∷ [])) rest)
      ≡ some (join "\n" (ls ++ " " ∷ []))
unfolding join
before_first-join [] rest h =
    ap (before_first "*/") (append_assoc " " "*/" rest)
    ∙ before_first-quiet " " (String.◌++◌ "*/" rest) "" blank_quiet
        (before_first-append "*" "/" rest)
before_first-join (l ∷ []) rest (h, r) = one_more l " */" " " rest h (before_first-join [] rest r)
before_first-join (l ∷ k ∷ ls) rest (h, r) =
    one_more l (join "\n" (k ∷ ls ++ " */" ∷ [])) (join "\n" (k ∷ ls ++ " " ∷ [])) rest h
      (before_first-join (k ∷ ls) rest r)

newline-IsQuiet : IsQuiet ""
unfolding is_quiet
newline-IsQuiet = refl

-- The first line of a header, and the others behind it.
header_join :
    (ls : List String) (last : String)
    → join "\n" ("" ∷ ls ++ last ∷ []) ≡ String.◌++◌ "\n" (join "\n" (ls ++ last ∷ []))
unfolding join
header_join [] last = nil-append (String.◌++◌ "\n" last)
header_join (l ∷ ls) last = nil-append (String.◌++◌ "\n" (join "\n" (l ∷ ls ++ last ∷ [])))

pub open_join :
    (ls : List String) (last : String)
    → join "\n" ("/**" ∷ ls ++ last ∷ []) ≡ String.◌++◌ "/**" (join "\n" ("" ∷ ls ++ last ∷ []))
unfolding join
open_join [] last = ap (String.◌++◌ "/**") (sym (header_join [] last))
open_join (l ∷ ls) last = ap (String.◌++◌ "/**") (sym (header_join (l ∷ ls) last))

-- What the reader takes of a comment that is joined from quiet lines.
pub jsdoc_block-join :
    (ls : List String) (rest : String)
    → All IsQuiet ls
    → jsdoc_block (String.◌++◌ (join "\n" ("/**" ∷ ls ++ " */" ∷ [])) rest)
      ≡ some (join "\n" ("" ∷ ls ++ " " ∷ []))
unfolding jsdoc_block
jsdoc_block-join ls rest h =
    let tail = join "\n" ("" ∷ ls ++ " */" ∷ []) in
    ap (λ (s : String). jsdoc_block (String.◌++◌ s rest)) (open_join ls " */")
    ∙ ap jsdoc_block (append_assoc "/**" tail rest)
    ∙ ap
        (λ (o : Option String). elim o as (λ x. Option String) [
          | none ↦ none
          | some r ↦ before_first "*/" r
        ])
        (after_first-append "/" "**" (String.◌++◌ tail rest))
    ∙ before_first-join ("" ∷ ls) rest (newline-IsQuiet, h)
