-- ===== src/Schema/Diff/Identity.antt =====
-- registry/diff.ts of packages/schema: a schema compared with itself.
use neko_stack.Common.{
  String, ◌≡◌, refl, Bool, true, false, Option, none, some, List, [], ◌∷◌, eq_refl, All,
}
use neko_stack.Js.JsMap.{JsMap, set, has}
use neko_stack.Js.JsMap.Laws.{HasDistinctKeys, IsFiled, All-IsFiled, All-has, set-HasDistinctKeys}
use neko_stack.Js.Text.{join}
use neko_stack.Js.Json.{JsNumber, Json}
use neko_stack.Schema.Issues.{IssuePath}
use neko_stack.Schema.Ir.{
  NodeMetadata, NodeModifiers, Refinement, NodeBase, PortableRefinement, refinement_name,
}
use neko_stack.Schema.Diff.Axes.{diff_metadata, diff_default, diff_default_values, diff_literal}
use neko_stack.Schema.Diff.Compare.{same_text, is_true, same_flag, modifiers_or_empty}
use neko_stack.Schema.Diff.Absence.{same_absence, AbsenceState, diff_absence, absence_state_of}
use neko_stack.Schema.Diff.Walk.{diff_base}
use neko_stack.Schema.Diff.Refinements.{
  diff_refinements, set_by_name, by_name, removed, added, changed, changed_one, reordered,
  portables, names,
}

same_text_refl : (a : Option String) → same_text a a ≡ true
same_text_refl none = refl
same_text_refl (some a) = eq_refl a

same_flag_refl : (a : Bool) → same_flag a a ≡ true
same_flag_refl true = refl
same_flag_refl false = refl

same_absence_refl : (a : AbsenceState) → same_absence a a ≡ true
same_absence_refl AbsenceState.required = refl
same_absence_refl _ = refl

module _ {N : Type 0} where
  diff_metadata_self :
      (m : Option NodeMetadata) (path : IssuePath) → diff_metadata {N = N} m m path ≡ []
  unfolding diff_metadata
  diff_metadata_self none path = refl
  diff_metadata_self (some m) path = rw (
    same_text_refl m.version,
    same_text_refl m.description,
    same_text_refl m.id,
    same_flag_refl (is_true m.deprecated),
  )

  diff_absence_self : (m : Option (NodeModifiers N)) (path : IssuePath) → diff_absence m m path ≡ []
  unfolding diff_absence
  diff_absence_self m path = rw (same_absence_refl (absence_state_of m))

  set_by_name-HasDistinctKeys :
      (m : JsMap (PortableRefinement N)) (rs : List (PortableRefinement N))
      → HasDistinctKeys m
      → HasDistinctKeys (set_by_name m rs)
  unfolding set_by_name
  set_by_name-HasDistinctKeys m [] h = h
  set_by_name-HasDistinctKeys m (r ∷ rs) h =
      set_by_name-HasDistinctKeys (set (refinement_name r.name) r m) rs
        (set-HasDistinctKeys (refinement_name r.name) r m h)

  removed_of_All :
      (m m' : JsMap (PortableRefinement N)) (path : IssuePath)
      → All (λ e. has e.0 m' ≡ true) m
      → removed m m' path ≡ []
  unfolding removed
  removed_of_All [] m' path h = refl
  removed_of_All ((k, r) ∷ m) m' path (here, later) = rw here (removed_of_All m m' path later)

  added_of_All :
      (m m' : JsMap (PortableRefinement N)) (path : IssuePath)
      → All (λ e. has e.0 m' ≡ true) m
      → added m m' path ≡ []
  unfolding added
  added_of_All [] m' path h = refl
  added_of_All ((k, r) ∷ m) m' path (here, later) = rw here (added_of_All m m' path later)

module _ {N : Type 0} ⦃js : JsNumber N⦄ where
  changed_of_All :
      (m m' : JsMap (PortableRefinement N)) (path : IssuePath)
      → All (IsFiled m') m
      → changed m m' path ≡ []
  unfolding changed
  changed_of_All [] m' path h = refl
  changed_of_All ((k, r) ∷ m) m' path (here, later) =
      rw (here, changed_one, eq_refl, changed_of_All m m' path later)

  reordered_self : (ns : List String) (path : IssuePath) → reordered {N = N} ns ns path ≡ []
  unfolding reordered
  reordered_self ns path = rw (eq_refl (join "," ns))

  -- Lists that file the same refinements under the same names, in one order of names, differ in
  -- nothing that is reported.
  pub diff_refinements_of_by_name :
      (before after : Option (List (Refinement N))) (path : IssuePath)
      → by_name (portables before) ≡ by_name (portables after)
      → names (portables before) ≡ names (portables after)
      → diff_refinements before after path ≡ []
  unfolding diff_refinements
  diff_refinements_of_by_name before after path same_map same_names =
      let m = by_name (portables after) in
      let distinct : HasDistinctKeys m = set_by_name-HasDistinctKeys [] (portables after) tt in
      rw
        (
          same_map,
          same_names,
          removed_of_All m m path (All-has m distinct),
          added_of_All m m path (All-has m distinct),
          changed_of_All m m path (All-IsFiled m distinct),
        )
        (reordered_self (names (portables after)) path)

  diff_refinements_self :
      (rs : Option (List (Refinement N))) (path : IssuePath) → diff_refinements rs rs path ≡ []
  diff_refinements_self rs path = diff_refinements_of_by_name rs rs path refl refl

  diff_default_self : (m : Option (NodeModifiers N)) (path : IssuePath) → diff_default m m path ≡ []
  unfolding diff_default
  diff_default_self m path = values (modifiers_or_empty m).default_value
    where
      values : (d : Option (Json N)) → diff_default_values d d path ≡ []
      values none = refl
      values (some d) = rw eq_refl

  pub diff_literal_self : (v : Json N) (path : IssuePath) → diff_literal v v path ≡ []
  unfolding diff_literal
  diff_literal_self v path = rw eq_refl

  pub diff_base_self : (b : NodeBase N) (path : IssuePath) → diff_base b b path ≡ []
  unfolding diff_base
  diff_base_self b path = rw (
    diff_metadata_self b.metadata path,
    diff_default_self b.modifiers path,
    diff_absence_self b.modifiers path,
    diff_refinements_self b.refinements path,
  )
