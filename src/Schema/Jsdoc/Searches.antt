-- ===== src/Schema/Jsdoc/Searches.antt =====
-- What the searches of Schema/Jsdoc.antt find in a text that is put together from known parts.
use Prim.Native.Char.{Char, code}
use Prim.Native.String
use text.Mathlib.TextLemmas.{nil-append, cons-append}
use neko_stack.Common.{
  String, ◌≡◌, refl, sym, ap, ◌∙◌, true, false, not, ◌||◌, Option, none, some, [], ◌∷◌, arith,
}
use neko_stack.Schema.Jsdoc.Texts.{lacks, is_star, starts_other, is_quiet, starts_plain, ends_plain}
use neko_stack.Schema.Jsdoc.{
  is_terminator, is_space, is_word, trim_start, trimmed_before, trim_end, strip_prefix, after_first,
  prepend, before_first, before_head, lines, word_of, after_word,
}

pub strip_prefix-append : (p s : String) → strip_prefix p (String.◌++◌ p s) ≡ some s
unfolding strip_prefix
strip_prefix-append String.[] s = ap some (nil-append s)
strip_prefix-append (String.◌∷◌ c p) s =
    rw (cons-append c p s) (ground (arith, strip_prefix-append p s))

-- A round of the two searches, by what the prefix gives there.
after_first_here :
    (w : String) (c : Char) (s r : String)
    → strip_prefix w (String.◌∷◌ c s) ≡ some r
    → after_first w (String.◌∷◌ c s) ≡ some r
unfolding after_first
after_first_here w c s r h =
    ap
      (λ (o : Option String). elim o as (λ x. Option String) [
        | some rest ↦ some rest
        | none ↦ after_first w s
      ])
      h

before_first_here :
    (w : String) (c : Char) (s r : String)
    → strip_prefix w (String.◌∷◌ c s) ≡ some r
    → before_first w (String.◌∷◌ c s) ≡ some ""
unfolding before_first
before_first_here w c s r h =
    ap
      (λ (o : Option String). elim o as (λ x. Option String) [
        | some rest ↦ some ""
        | none ↦ prepend c (before_first w s)
      ])
      h

before_first_later :
    (w : String) (c : Char) (s : String)
    → strip_prefix w (String.◌∷◌ c s) ≡ none
    → before_first w (String.◌∷◌ c s) ≡ prepend c (before_first w s)
unfolding before_first
before_first_later w c s h =
    ap
      (λ (o : Option String). elim o as (λ x. Option String) [
        | some rest ↦ some ""
        | none ↦ prepend c (before_first w s)
      ])
      h

pub after_first-append :
    (c : Char) (w s : String)
    → after_first (String.◌∷◌ c w) (String.◌++◌ (String.◌∷◌ c w) s) ≡ some s
after_first-append c w s =
    ap (after_first (String.◌∷◌ c w)) (cons-append c w s)
    ∙ after_first_here (String.◌∷◌ c w) c (String.◌++◌ w s) s (
        ap (strip_prefix (String.◌∷◌ c w)) (sym (cons-append c w s))
        ∙ strip_prefix-append (String.◌∷◌ c w) s)

pub before_first-append :
    (c : Char) (w s : String)
    → before_first (String.◌∷◌ c w) (String.◌++◌ (String.◌∷◌ c w) s) ≡ some ""
before_first-append c w s =
    ap (before_first (String.◌∷◌ c w)) (cons-append c w s)
    ∙ before_first_here (String.◌∷◌ c w) c (String.◌++◌ w s) s (
        ap (strip_prefix (String.◌∷◌ c w)) (sym (cons-append c w s))
        ∙ strip_prefix-append (String.◌∷◌ c w) s)

quiet_head :
    (c : Char) (p s : String)
    → (not (is_star (code c)) || starts_other p) ≡ true
    → strip_prefix "*/" (String.◌∷◌ c (String.◌++◌ p s)) ≡ none
unfolding strip_prefix
quiet_head c String.[] s h = ground arith
quiet_head c (String.◌∷◌ d p) s h = rw (cons-append d p s) (ground arith)

pub before_first-quiet :
    (p s t : String)
    → is_quiet p ≡ true
    → before_first "*/" s ≡ some t
    → before_first "*/" (String.◌++◌ p s) ≡ some (String.◌++◌ p t)
unfolding before_first is_quiet
before_first-quiet String.[] s t q h = rw (nil-append s, nil-append t) h
before_first-quiet (String.◌∷◌ c p) s t q h =
    let rest = before_first-quiet p s t (ground arith) h in
    let head = quiet_head c p s (ground arith) in
    ap (before_first "*/") (cons-append c p s)
    ∙ before_first_later "*/" c (String.◌++◌ p s) head
    ∙ ap (prepend c) rest
    ∙ ap some (sym (cons-append c p t))

lines_nil : lines "" ≡ "" ∷ []
unfolding lines
lines_nil = refl

lines_newline : (s : String) → lines (String.◌++◌ "\n" s) ≡ "" ∷ lines s
unfolding lines
lines_newline s = ap lines (cons-append "\n" "" s ∙ ap (String.◌∷◌ "\n") (nil-append s))

lines_inline :
    (c : Char) (s : String)
    → is_terminator (code c) ≡ false
    → lines (String.◌∷◌ c s) ≡ before_head c (lines s)
unfolding lines is_terminator
lines_inline c s h = ground arith

-- A line without a line break, and what stands behind it.
pub lines-append :
    (p s : String)
    → lacks is_terminator p ≡ true
    → lines (String.◌++◌ p (String.◌++◌ "\n" s)) ≡ p ∷ lines s
unfolding lacks
lines-append String.[] s h = ap lines (nil-append (String.◌++◌ "\n" s)) ∙ lines_newline s
lines-append (String.◌∷◌ c p) s h =
    let rest = lines-append p s (ground arith) in
    ap lines (cons-append c p (String.◌++◌ "\n" s))
    ∙ lines_inline c (String.◌++◌ p (String.◌++◌ "\n" s)) (ground arith)
    ∙ ap (before_head c) rest

pub lines_last : (p : String) → lacks is_terminator p ≡ true → lines p ≡ p ∷ []
unfolding lacks
lines_last String.[] h = lines_nil
lines_last (String.◌∷◌ c p) h =
    lines_inline c p (ground arith) ∙ ap (before_head c) (lines_last p (ground arith))

pub trim_start-blank :
    (p s : String)
    → lacks (λ c. not (is_space c)) p ≡ true
    → trim_start (String.◌++◌ p s) ≡ trim_start s
unfolding trim_start lacks
trim_start-blank String.[] s h = ap trim_start (nil-append s)
trim_start-blank (String.◌∷◌ c p) s h =
    rw (cons-append c p s) (ground (arith, trim_start-blank p s))

pub trim_start-plain : (v : String) → starts_plain v ≡ true → trim_start v ≡ v
unfolding trim_start starts_plain
trim_start-plain String.[] h = refl
trim_start-plain (String.◌∷◌ c v) h = ground arith

pub trim_end-plain : (v : String) → ends_plain v ≡ true → trim_end v ≡ v
unfolding trim_end ends_plain
trim_end-plain String.[] h = refl
trim_end-plain (String.◌∷◌ c String.[]) h = ground arith
trim_end-plain (String.◌∷◌ c (String.◌∷◌ d v)) h =
    ap (trimmed_before c) (trim_end-plain (String.◌∷◌ d v) h)

pub word_of-append :
    (w s : String)
    → lacks (λ c. not (is_word c)) w ≡ true
    → word_of s ≡ ""
    → word_of (String.◌++◌ w s) ≡ w
unfolding word_of lacks
word_of-append String.[] s h e = ap word_of (nil-append s) ∙ e
word_of-append (String.◌∷◌ c w) s h e = rw (cons-append c w s) (ground (arith, word_of-append w s))

pub after_word-append :
    (w s : String)
    → lacks (λ c. not (is_word c)) w ≡ true
    → after_word s ≡ s
    → after_word (String.◌++◌ w s) ≡ s
unfolding after_word lacks
after_word-append String.[] s h e = ap after_word (nil-append s) ∙ e
after_word-append (String.◌∷◌ c w) s h e =
    rw (cons-append c w s) (ground (arith, after_word-append w s))
