-- ===== src/Schema/Runtime.antt =====
-- `safeParse` of runtime/parse.ts of packages/schema. What `compile` makes of a node is a Zod
-- validator, or an error that it throws where the node has no Zod form. It, and the issues that
-- `normalizeIssues` makes of a Zod error, are parameters.
pub mod Validate
use neko_stack.Common.{List}
use neko_stack.Js.Throws.{Outcome, returned, ◌>>=◌}
use neko_stack.Schema.Issues.{Issue, Result, success, failure}
use neko_stack.Schema.Ir.{SchemaNode}
use neko_stack.Schema.Registry.{AnySchema}

-- What `zod.safeParse(input)` returns.
pub data ZodResult (V E : Type 0) : Type 0 where
  parsed : V → ZodResult V E
  rejected : E → ZodResult V E

pub record Validator (N V E : Type 0) : Type 0 where
  pub compile : SchemaNode N → Outcome (V → ZodResult V E)
  pub normalize_issues : E → SchemaNode N → List Issue

module _ {N V E : Type 0} where
  abbrev pub result_of : Validator N V E → SchemaNode N → ZodResult V E → Result V
  result_of validator node (parsed value) = success value
  result_of validator node (rejected error) = failure (validator.normalize_issues error node)

  unfoldable pub safe_parse : Validator N V E → AnySchema N → V → Outcome (Result V)
  safe_parse validator schema input = do
    zod ← validator.compile schema.node
    returned (result_of validator schema.node (zod input))
