-- ===== src/Schema/Jsdoc/Texts.antt =====
-- Tests on the texts that the searches of Schema/Jsdoc.antt run over.
use Prim.Native.Char.{code}
use neko_stack.Common.{ℕ, String, Bool, true, false, not, ◌&&◌, ◌||◌, nat_eq, if◌then◌else◌}
use neko_stack.Schema.Jsdoc.{is_space, is_empty}

-- No character passes a test.
unfoldable pub lacks : (ℕ → Bool) → String → Bool
lacks test String.[] = true
lacks test (String.◌∷◌ c s) = not (test (code c)) && lacks test s

abbrev pub is_star : ℕ → Bool
is_star c = nat_eq c b'*'

abbrev pub starts_other : String → Bool
starts_other String.[] = false
starts_other (String.◌∷◌ d t) = not (nat_eq b'/' (code d))

-- No "*/" stands in a text, nor a star at its end.
unfoldable pub is_quiet : String → Bool
is_quiet String.[] = true
is_quiet (String.◌∷◌ c s) = (not (is_star (code c)) || starts_other s) && is_quiet s

unfoldable pub starts_plain : String → Bool
starts_plain String.[] = false
starts_plain (String.◌∷◌ c s) = not (is_space (code c))

unfoldable pub ends_plain : String → Bool
ends_plain String.[] = false
ends_plain (String.◌∷◌ c s) = if is_empty s then not (is_space (code c)) else ends_plain s
