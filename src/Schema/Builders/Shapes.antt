-- ===== src/Schema/Builders/Shapes.antt =====
-- The shapes of builders/object.ts of packages/schema: plain objects that hold schemas, with what
-- `in`, `Object.keys`, assignment and spreading do to them. No key is `__proto__`, to which an
-- assignment sets no property, or an array index, which `Object.keys` gives first. A mask is a map from keys to whether their value is `true`.
use neko_stack.Common.{
  String, Bool, false, ◌||◌, not, Option, none, some, List, [], ◌∷◌, ◌==◌, if◌then◌else◌,
}
use neko_stack.Js.JsMap.{JsMap, get, includes, is_some}
use neko_stack.Schema.Diff.Walk.{prototype_members}
use neko_stack.Schema.Builders.{Schema, Shape, empty, entry}

abbrev pub Mask : Type 0
Mask = JsMap Bool

-- `mask[key] === true`
unfoldable pub asks : Mask → String → Bool
unfolding get
asks mask k = elim (get k mask) [ none ↦ false | some b ↦ b ]

unfoldable pub filtered : (String → Bool) → List String → List String
filtered test [] = []
filtered test (k ∷ ks) = let rest = filtered test ks in if test k then k ∷ rest else rest

module _ {N : Type 0} where
  -- An own property of a shape.
  unfoldable pub own : String → Shape N → Option (Schema N)
  own k empty = none
  own k (entry j s shape) = if j == k then some s else own k shape

  -- key in shape
  unfoldable pub is_in : String → Shape N → Bool
  unfolding own includes
  is_in k shape = is_some (own k shape) || includes k prototype_members

  unfoldable pub shape_keys : Shape N → List String
  shape_keys empty = []
  shape_keys (entry k s shape) = k ∷ shape_keys shape

  -- newShape[key] = schema, for keys other than `__proto__`
  unfoldable pub put : String → Schema N → Shape N → Shape N
  put k s empty = entry k s empty
  put k s (entry j t shape) = if j == k then entry j s shape else entry j t (put k s shape)

  -- Object.keys(…).filter((k) => k in shape), and the filter by its negation
  unfoldable pub keys_in : List String → Shape N → List String
  unfolding filtered is_in
  keys_in ks shape = filtered (λ k. is_in k shape) ks

  unfoldable pub keys_not_in : List String → Shape N → List String
  unfolding filtered is_in
  keys_not_in ks shape = filtered (λ k. not (is_in k shape)) ks

  -- { ...shape, ...extension }
  unfoldable pub spread : Shape N → Shape N → Shape N
  unfolding put
  spread shape empty = shape
  spread shape (entry k s extension) = spread (put k s shape) extension
