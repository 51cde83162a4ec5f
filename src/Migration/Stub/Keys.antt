-- ===== src/Migration/Stub/Keys.antt =====
-- The lines of the header that migrations/stub.ts of packages/schema renders, key by key.
use Prim.Native.String
use text.Mathlib.TextLemmas.{append-nil, append_assoc}
use neko_stack.Common.{ℕ, String, ◌≡◌, refl, sym, ap, subst, ◌∙◌, true, false, not, some}
use neko_stack.Js.Text.{template}
use neko_stack.Schema.Jsdoc.{is_space, is_word, is_terminator, is_empty, jsdoc_field}
use neko_stack.Schema.Jsdoc.Rendered.{
  IsTidy, IsInline, IsQuiet, is_quiet-append, lacks-append, jsdoc_field_line,
}
use neko_stack.Schema.Jsdoc.Texts.{lacks, is_quiet}
use neko_stack.Migration.Stub.{spaces, label, header_line}

-- A key whose line the reader takes apart again: the padding is `n` blanks.
pub record IsKey (k : String) (n : ℕ) : Type 0 where
  pub padded : label k ≡ String.◌++◌ k (String.◌++◌ ":" (spaces n))
  pub full : is_empty k ≡ false
  pub word : lacks (λ c. not (is_word c)) k ≡ true
  pub blank : lacks (λ c. not (is_space c)) (spaces n) ≡ true
  pub inline : IsInline (label k)
  pub quiet : is_quiet (label k) ≡ true

pub schema_id-IsKey : IsKey "schemaId" 9
unfolding lacks is_word is_space is_terminator is_quiet
schema_id-IsKey = record {
  padded = refl;
  full = refl;
  word = refl;
  blank = refl;
  inline = refl;
  quiet = refl;
}

pub from_version-IsKey : IsKey "fromVersion" 6
unfolding lacks is_word is_space is_terminator is_quiet
from_version-IsKey = record {
  padded = refl;
  full = refl;
  word = refl;
  blank = refl;
  inline = refl;
  quiet = refl;
}

pub to_version-IsKey : IsKey "toVersion" 8
unfolding lacks is_word is_space is_terminator is_quiet
to_version-IsKey = record {
  padded = refl;
  full = refl;
  word = refl;
  blank = refl;
  inline = refl;
  quiet = refl;
}

pub from_ir_hash-IsKey : IsKey "fromIrHash" 7
unfolding lacks is_word is_space is_terminator is_quiet
from_ir_hash-IsKey = record {
  padded = refl;
  full = refl;
  word = refl;
  blank = refl;
  inline = refl;
  quiet = refl;
}

pub to_ir_hash-IsKey : IsKey "toIrHash" 9
unfolding lacks is_word is_space is_terminator is_quiet
to_ir_hash-IsKey = record {
  padded = refl;
  full = refl;
  word = refl;
  blank = refl;
  inline = refl;
  quiet = refl;
}

pub from_source_hash-IsKey : IsKey "fromSourceHash" 3
unfolding lacks is_word is_space is_terminator is_quiet
from_source_hash-IsKey = record {
  padded = refl;
  full = refl;
  word = refl;
  blank = refl;
  inline = refl;
  quiet = refl;
}

pub to_source_hash-IsKey : IsKey "toSourceHash" 5
unfolding lacks is_word is_space is_terminator is_quiet
to_source_hash-IsKey = record {
  padded = refl;
  full = refl;
  word = refl;
  blank = refl;
  inline = refl;
  quiet = refl;
}

pub generator-IsKey : IsKey "generator" 8
unfolding lacks is_word is_space is_terminator is_quiet
generator-IsKey = record {
  padded = refl;
  full = refl;
  word = refl;
  blank = refl;
  inline = refl;
  quiet = refl;
}

pub generator_version-IsKey : IsKey "generatorVersion" 1
unfolding lacks is_word is_space is_terminator is_quiet
generator_version-IsKey = record {
  padded = refl;
  full = refl;
  word = refl;
  blank = refl;
  inline = refl;
  quiet = refl;
}

-- A line of the header is read as its field, holds no line break and closes no comment.
pub jsdoc_field-header_line :
    (k : String) (n : ℕ) (v : String)
    → IsKey k n
    → IsTidy v
    → jsdoc_field (header_line k v) ≡ some (k, v)
unfolding header_line template
jsdoc_field-header_line k n v h t =
    ap (λ (s : String). jsdoc_field (String.◌++◌ " * " s))
      (ap (String.◌++◌ (label k)) (append-nil v)
        ∙ ap (λ (l : String). String.◌++◌ l v) h.padded
        ∙ append_assoc k (String.◌++◌ ":" (spaces n)) v
        ∙ ap (String.◌++◌ k) (append_assoc ":" (spaces n) v))
    ∙ jsdoc_field_line k (spaces n) v h.full h.word h.blank t

star_quiet : is_quiet " * " ≡ true
unfolding is_quiet
star_quiet = refl

star-IsInline : IsInline " * "
unfolding lacks is_terminator
star-IsInline = refl

pub IsQuiet-header_line :
    (k : String) (n : ℕ) (v : String) → IsKey k n → IsTidy v → IsQuiet (header_line k v)
unfolding header_line template
IsQuiet-header_line k n v h t =
    subst (λ (s : String). is_quiet s ≡ true)
      (sym (
        append_assoc " * " (String.◌++◌ (label k) (String.◌++◌ v "")) "\n"
        ∙ ap (String.◌++◌ " * ") (
            append_assoc (label k) (String.◌++◌ v "") "\n"
            ∙ ap (λ (s : String). String.◌++◌ (label k) (String.◌++◌ s "\n")) (append-nil v))))
      (is_quiet-append " * " (String.◌++◌ (label k) (String.◌++◌ v "\n")) star_quiet
        (is_quiet-append (label k) (String.◌++◌ v "\n") h.quiet t.quiet))

pub IsInline-header_line :
    (k : String) (n : ℕ) (v : String) → IsKey k n → IsTidy v → IsInline (header_line k v)
unfolding header_line template
IsInline-header_line k n v h t =
    lacks-append is_terminator " * " (String.◌++◌ (label k) (String.◌++◌ v "")) star-IsInline (
      lacks-append is_terminator (label k) (String.◌++◌ v "") h.inline
        (subst IsInline (sym (append-nil v)) t.inline))
