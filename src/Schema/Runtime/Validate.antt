-- ===== src/Schema/Runtime/Validate.antt =====
-- `parse` and `validate` of runtime/parse.ts of packages/schema. The variant that `validate` compiles
-- is memoized by the identity of the node in the source; it is a function of the node.
use neko_stack.Common.{List}
use neko_stack.Js.Throws.{Outcome, returned, ◌>>=◌}
use neko_stack.Schema.Issues.{Issue, Result}
use neko_stack.Schema.Ir.{SchemaNode}
use neko_stack.Schema.Registry.{AnySchema}
use neko_stack.Schema.StripDefaults.{strip_defaults_for_validate}
use neko_stack.Schema.Runtime.{Validator, ZodResult, parsed, rejected, result_of}

-- What `parse` returns, or the issues of the ParseError that it throws.
pub data Parse (V : Type 0) : Type 0 where
  output : V → Parse V
  parse_error : List Issue → Parse V

module _ {N V E : Type 0} where
  abbrev pub output_of : Validator N V E → SchemaNode N → ZodResult V E → Parse V
  output_of validator node (parsed value) = output value
  output_of validator node (rejected error) = parse_error (validator.normalize_issues error node)

  unfoldable pub parse : Validator N V E → AnySchema N → V → Outcome (Parse V)
  parse validator schema input = do
    zod ← validator.compile schema.node
    returned (output_of validator schema.node (zod input))

  unfoldable pub validate : Validator N V E → AnySchema N → V → Outcome (Result V)
  unfolding strip_defaults_for_validate
  validate validator schema input = do
    zod ← validator.compile (strip_defaults_for_validate schema.node)
    returned (result_of validator schema.node (zod input))
