-- ===== src/Js/Throws.antt =====
-- Exceptions: what `catch (cause)` binds, and a call that returns or throws.
use neko_stack.Common.{String, Option}

-- An `Error` with its message, a string, or another value with the text of `JSON.stringify` (none
-- where that throws) and that of `String`.
pub data Cause : Type 0 where
  error text : String → Cause
  other : Option String → String → Cause

pub data Outcome (A : Type 0) : Type 0 where
  returned : A → Outcome A
  threw : Cause → Outcome A

infixl 5 ◌>>=◌
abbrev pub ◌>>=◌ : {A B : Type 0} → Outcome A → (A → Outcome B) → Outcome B
returned a >>= f = f a
threw cause >>= f = threw cause
