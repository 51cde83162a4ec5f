-- ===== src/Schema/Builders/Refine.antt =====
-- The refinements that the methods of builders/primitives.ts and array.ts of packages/schema append.
use neko_stack.Common.{String, none, some}
use neko_stack.Js.Json.{str, num, end, member}
use neko_stack.Schema.Ir.{portable, PortableRefinementName}
use neko_stack.Schema.Builders.{Schema, with_refinement}

module _ {N : Type 0} where
  unfoldable pub bounded : PortableRefinementName → N → Schema N → Schema N
  unfolding with_refinement
  bounded name value s =
      with_refinement s
        (portable (record { name = name; params = some (member "value" (num value) end) }))

  unfoldable pub marked : PortableRefinementName → Schema N → Schema N
  unfolding with_refinement
  marked name s = with_refinement s (portable (record { name = name; params = none }))

  -- StringSchema; a pattern is given by its source and its flags
  unfoldable pub string_min : Schema N → N → Schema N
  unfolding bounded
  string_min s n = bounded PortableRefinementName.min_length n s

  unfoldable pub string_max : Schema N → N → Schema N
  unfolding bounded
  string_max s n = bounded PortableRefinementName.max_length n s

  unfoldable pub string_length : Schema N → N → Schema N
  unfolding bounded
  string_length s n = bounded PortableRefinementName.exact_length n s

  unfoldable pub string_regex : Schema N → (source flags : String) → Schema N
  unfolding with_refinement
  string_regex s source flags = with_refinement s (
      portable (record {
        name = PortableRefinementName.regex;
        params = some (member "source" (str source) (member "flags" (str flags) end));
      }))

  unfoldable pub string_email : Schema N → Schema N
  unfolding marked
  string_email s = marked PortableRefinementName.email s

  unfoldable pub string_uuid : Schema N → Schema N
  unfolding marked
  string_uuid s = marked PortableRefinementName.uuid s

  unfoldable pub string_url : Schema N → Schema N
  unfolding marked
  string_url s = marked PortableRefinementName.url s

  -- NumberSchema
  unfoldable pub number_int : Schema N → Schema N
  unfolding marked
  number_int s = marked PortableRefinementName.int s

  unfoldable pub number_min : Schema N → N → Schema N
  unfolding bounded
  number_min s n = bounded PortableRefinementName.min n s

  unfoldable pub number_max : Schema N → N → Schema N
  unfolding bounded
  number_max s n = bounded PortableRefinementName.max n s

  unfoldable pub number_gt : Schema N → N → Schema N
  unfolding bounded
  number_gt s n = bounded PortableRefinementName.gt n s

  unfoldable pub number_lt : Schema N → N → Schema N
  unfolding bounded
  number_lt s n = bounded PortableRefinementName.lt n s

  unfoldable pub number_multiple_of : Schema N → N → Schema N
  unfolding bounded
  number_multiple_of s n = bounded PortableRefinementName.multiple_of n s

  -- ArraySchema
  unfoldable pub array_min : Schema N → N → Schema N
  unfolding bounded
  array_min s n = bounded PortableRefinementName.min_items n s

  unfoldable pub array_max : Schema N → N → Schema N
  unfolding bounded
  array_max s n = bounded PortableRefinementName.max_items n s
