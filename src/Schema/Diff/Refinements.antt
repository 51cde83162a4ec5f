-- ===== src/Schema/Diff/Refinements.antt =====
-- `diffRefinements` of registry/diff.ts of packages/schema.
use neko_stack.Common.{
  String, not, ◌&&◌, Option, none, some, List, [], ◌∷◌, ◌++◌, ◌==◌, if◌then◌else◌,
}
use neko_stack.Js.Text.{template, join, sort}
use neko_stack.Js.JsMap.{JsMap, get, set, has}
use neko_stack.Js.Json.{JsNumber, Members, obj, num, end, member_at}
use neko_stack.Schema.Issues.{IssuePath}
use neko_stack.Schema.Ir.{
  PortableRefinementName, min_length, min, min_items, gt, max_length, max, max_items, lt,
  PortableRefinement, Refinement, portable, runtime, refinement_name,
}
use neko_stack.Schema.Diff.Changes.{
  DiffSeverity, breaking, additive, cosmetic, DiffChange, Shown, refinement_changed,
  refinements_reordered,
}
use neko_stack.Schema.Diff.Axes.{json_equal}

module _ {N : Type 0} where
  -- (refinements ?? []).filter(isPortable)
  unfoldable pub filter_portable : List (Refinement N) → List (PortableRefinement N)
  filter_portable [] = []
  filter_portable (portable r ∷ rs) = r ∷ filter_portable rs
  filter_portable (runtime r ∷ rs) = filter_portable rs

  unfoldable pub portables : Option (List (Refinement N)) → List (PortableRefinement N)
  unfolding filter_portable
  portables none = []
  portables (some rs) = filter_portable rs

  -- for (const r of refs) byName.set(r.name, r)
  unfoldable pub set_by_name :
      JsMap (PortableRefinement N) → List (PortableRefinement N) → JsMap (PortableRefinement N)
  unfolding set refinement_name
  set_by_name m [] = m
  set_by_name m (r ∷ rs) = set_by_name (set (refinement_name r.name) r m) rs

  unfoldable pub by_name : List (PortableRefinement N) → JsMap (PortableRefinement N)
  unfolding set_by_name
  by_name = set_by_name []

  unfoldable pub names : List (PortableRefinement N) → List String
  unfolding refinement_name
  names [] = []
  names (r ∷ rs) = refinement_name r.name ∷ names rs

  abbrev pub params_or_empty : PortableRefinement N → Members N
  params_or_empty r = elim r.params [ none ↦ end | some params ↦ params ]

  -- The loops over the refinements of one side that the other side lacks.
  unfoldable pub removed :
      JsMap (PortableRefinement N) → JsMap (PortableRefinement N) → IssuePath → List (DiffChange N)
  unfolding has template
  removed [] after path = []
  removed ((name, r) ∷ before) after path =
      let rest = removed before after path in
      if has name after
      then rest
      else record {
        severity = additive;
        path = path;
        kind = refinement_changed;
        before = some (Shown.refinement r);
        after = none;
        message = template ("Refinement `" ∷ name ∷ "` removed (loosened)" ∷ []);
      }
        ∷ rest

  unfoldable pub added :
      JsMap (PortableRefinement N) → JsMap (PortableRefinement N) → IssuePath → List (DiffChange N)
  unfolding has template
  added [] before path = []
  added ((name, r) ∷ after) before path =
      let rest = added after before path in
      if has name before
      then rest
      else record {
        severity = breaking;
        path = path;
        kind = refinement_changed;
        before = none;
        after = some (Shown.refinement r);
        message = template ("Refinement `" ∷ name ∷ "` added (tightened)" ∷ []);
      }
        ∷ rest

module _ {N : Type 0} ⦃number : JsNumber N⦄ where
  -- The two `value` parameters, where both are numbers.
  abbrev pub value_of : PortableRefinement N → Option N
  unfolding member_at
  value_of r = elim (member_at "value" (params_or_empty r)) [ some (num n) ↦ some n | _ ↦ none ]

  -- The bounds from below are tightened when they grow, those from above when they fall.
  abbrev pub bound_severity : PortableRefinementName → N → N → DiffSeverity
  bound_severity min_length b a = if number.lt b a then breaking else additive
  bound_severity min b a = if number.lt b a then breaking else additive
  bound_severity min_items b a = if number.lt b a then breaking else additive
  bound_severity gt b a = if number.lt b a then breaking else additive
  bound_severity max_length b a = if number.lt a b then breaking else additive
  bound_severity max b a = if number.lt a b then breaking else additive
  bound_severity max_items b a = if number.lt a b then breaking else additive
  bound_severity lt b a = if number.lt a b then breaking else additive
  bound_severity _ b a = breaking

  abbrev pub values_severity : PortableRefinementName → Option N → Option N → DiffSeverity
  values_severity name (some b) (some a) = bound_severity name b a
  values_severity name _ _ = breaking

  -- The name is that of the map's key, which is the name of both.
  unfoldable pub refinement_param_severity :
      PortableRefinement N → PortableRefinement N → DiffSeverity
  unfolding member_at
  refinement_param_severity before after =
      values_severity before.name (value_of before) (value_of after)

  unfoldable pub changed_one :
      String
      → PortableRefinement N
      → Option (PortableRefinement N)
      → IssuePath
      → List (DiffChange N)
  unfolding json_equal refinement_param_severity template
  changed_one name b none path = []
  changed_one name b (some a) path =
      if json_equal (obj (params_or_empty b)) (obj (params_or_empty a))
      then []
      else record {
        severity = refinement_param_severity b a;
        path = path;
        kind = refinement_changed;
        before = some (Shown.refinement b);
        after = some (Shown.refinement a);
        message = template ("Refinement `" ∷ name ∷ "` parameters changed" ∷ []);
      }
        ∷ []

  unfoldable pub changed :
      JsMap (PortableRefinement N) → JsMap (PortableRefinement N) → IssuePath → List (DiffChange N)
  unfolding changed_one get
  changed [] after path = []
  changed ((name, r) ∷ before) after path =
      changed_one name r (get name after) path ++ changed before after path

  -- The last step: the same names in another order.
  unfoldable pub reordered : List String → List String → IssuePath → List (DiffChange N)
  unfolding join sort
  reordered before after path =
      let before_order = join "," before in
      let after_order = join "," after in
      if not (before_order == after_order) && (join "," (sort before) == join "," (sort after))
      then record {
        severity = cosmetic;
        path = path;
        kind = refinements_reordered;
        before = some (Shown.text before_order);
        after = some (Shown.text after_order);
        message = "Refinements reordered (same set, different order)";
      }
        ∷ []
      else []

  abbrev or_reordered : List (DiffChange N) → List (DiffChange N) → List (DiffChange N)
  or_reordered [] order = order
  or_reordered (c ∷ cs) order = c ∷ cs

  unfoldable pub diff_refinements :
      Option (List (Refinement N)) → Option (List (Refinement N)) → IssuePath → List (DiffChange N)
  unfolding portables by_name names removed added changed reordered
  diff_refinements before after path =
      let before_refs = portables before in
      let after_refs = portables after in
      let b = by_name before_refs in
      let a = by_name after_refs in
      or_reordered (removed b a path ++ added a b path ++ changed b a path)
        (reordered (names before_refs) (names after_refs) path)
