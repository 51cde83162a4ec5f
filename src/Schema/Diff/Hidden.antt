-- ===== src/Schema/Diff/Hidden.antt =====
-- registry/diff.ts of packages/schema: changes that the refinement axis does not see.
use neko_stack.Common.{
  String, ◌≡◌, refl, sym, ap, ◌∙◌, true, Bool-cases, inl, inr, eq_of_==, ◌==◌, some, List, [], ◌∷◌,
  ◌++◌,
}
use neko_stack.Js.Json.{JsNumber}
use neko_stack.Js.JsMap.{JsMap, has, set}
use neko_stack.Js.JsMap.Laws.{set-set, set-commute, has-set, has-set_same}
use neko_stack.Schema.Issues.{IssuePath}
use neko_stack.Schema.Ir.{Refinement, portable, runtime, PortableRefinement, refinement_name}
use neko_stack.Schema.Diff.Refinements.{
  filter_portable, by_name, set_by_name, names, portables, diff_refinements,
}
use neko_stack.Schema.Diff.Identity.{diff_refinements_of_by_name}

module _ {N : Type 0} where
  set_by_name-append :
      (m : JsMap (PortableRefinement N)) (ps qs : List (PortableRefinement N))
      → set_by_name m (ps ++ qs) ≡ set_by_name (set_by_name m ps) qs
  unfolding set_by_name
  set_by_name-append m [] qs = refl
  set_by_name-append m (p ∷ ps) qs = set_by_name-append (set (refinement_name p.name) p m) ps qs

  filter_portable-append :
      (rs ss : List (Refinement N))
      → filter_portable (rs ++ ss) ≡ filter_portable rs ++ filter_portable ss
  unfolding filter_portable
  filter_portable-append [] ss = refl
  filter_portable-append (portable r ∷ rs) ss = ap (◌∷◌ r) (filter_portable-append rs ss)
  filter_portable-append (runtime r ∷ rs) ss = filter_portable-append rs ss

  names-append : (ps qs : List (PortableRefinement N)) → names (ps ++ qs) ≡ names ps ++ names qs
  unfolding names
  names-append [] qs = refl
  names-append (p ∷ ps) qs = ap (◌∷◌ (refinement_name p.name)) (names-append ps qs)

  -- What a name had is of no account once it is set again.
  overwritten :
      (k : String) (q r : PortableRefinement N) (m : JsMap (PortableRefinement N))
      (ps qs : List (PortableRefinement N))
      → has k m ≡ true
      → refinement_name r.name ≡ k
      → set_by_name (set k q m) (ps ++ r ∷ qs) ≡ set_by_name m (ps ++ r ∷ qs)
  unfolding set_by_name
  overwritten k q r m [] qs h same =
      ap (λ n. set_by_name n qs)
        (ap (λ n. set n r (set k q m)) same ∙ set-set k r q m ∙ ap (λ n. set n r m) (sym same))
  overwritten k q r m (p ∷ ps) qs h same = elim (Bool-cases (k == refinement_name p.name)) [
    | inl e ↦
        let n = eq_of_== k (refinement_name p.name) e in
        ap (λ l. set_by_name l (ps ++ r ∷ qs))
          (ap (λ i. set (refinement_name p.name) p (set i q m)) n
            ∙ set-set (refinement_name p.name) p q m)
    | inr e ↦
        ap (λ l. set_by_name l (ps ++ r ∷ qs)) (set-commute k (refinement_name p.name) q p m e h)
        ∙ overwritten k q r (set (refinement_name p.name) p m) ps qs
            (has-set k (refinement_name p.name) p m h) same
  ]

  filter_portable-around :
      (p r : PortableRefinement N) (os ps qs : List (Refinement N))
      → filter_portable (os ++ portable p ∷ (ps ++ portable r ∷ qs))
        ≡ filter_portable os ++ p ∷ (filter_portable ps ++ r ∷ filter_portable qs)
  unfolding filter_portable
  filter_portable-around p r os ps qs =
      filter_portable-append os (portable p ∷ (ps ++ portable r ∷ qs))
      ∙ ap (λ l. filter_portable os ++ p ∷ l) (filter_portable-append ps (portable r ∷ qs))

  names-around :
      (p q : PortableRefinement N) (os ps : List (PortableRefinement N))
      → refinement_name p.name ≡ refinement_name q.name
      → names (os ++ p ∷ ps) ≡ names (os ++ q ∷ ps)
  unfolding names
  names-around p q os ps same =
      names-append os (p ∷ ps)
      ∙ ap (λ n. names os ++ n ∷ names ps) same
      ∙ sym (names-append os (q ∷ ps))

  by_name_shadowed :
      (p q r : PortableRefinement N) (os ps qs : List (PortableRefinement N))
      → refinement_name p.name ≡ refinement_name r.name
      → refinement_name q.name ≡ refinement_name r.name
      → by_name (os ++ p ∷ (ps ++ r ∷ qs)) ≡ by_name (os ++ q ∷ (ps ++ r ∷ qs))
  unfolding by_name set_by_name
  by_name_shadowed p q r os ps qs same_p same_q =
      let n = refinement_name r.name in
      let m = by_name os in
      let rest = ps ++ r ∷ qs in
      set_by_name-append [] os (p ∷ rest)
      ∙ ap (λ l. set_by_name l rest) (ap (λ k. set k p m) same_p)
      ∙ sym (overwritten n q r (set n p m) ps qs (has-set_same n p m) refl)
      ∙ ap (λ l. set_by_name l rest) (set-set n q p m ∙ ap (λ k. set k q m) (sym same_q))
      ∙ sym (set_by_name-append [] os (q ∷ rest))

module _ {N : Type 0} ⦃js : JsNumber N⦄ where
  -- Where a later portable refinement has the same name, a change of an earlier one is reported by
  -- no change of the refinement axis, wherever the two stand.
  pub diff_refinements_shadowed :
      (p q r : PortableRefinement N) (os ps qs : List (Refinement N)) (path : IssuePath)
      → refinement_name p.name ≡ refinement_name r.name
      → refinement_name q.name ≡ refinement_name r.name
      → diff_refinements
          (some (os ++ portable p ∷ (ps ++ portable r ∷ qs)))
          (some (os ++ portable q ∷ (ps ++ portable r ∷ qs)))
          path
        ≡ []
  unfolding portables
  diff_refinements_shadowed p q r os ps qs path same_p same_q =
      let bs = filter_portable os in
      let ms = filter_portable ps in
      let cs = filter_portable qs in
      diff_refinements_of_by_name (some (os ++ portable p ∷ (ps ++ portable r ∷ qs)))
        (some (os ++ portable q ∷ (ps ++ portable r ∷ qs))) path
        (ap by_name (filter_portable-around p r os ps qs)
          ∙ by_name_shadowed p q r bs ms cs same_p same_q
          ∙ sym (ap by_name (filter_portable-around q r os ps qs)))
        (ap names (filter_portable-around p r os ps qs)
          ∙ names-around p q bs (ms ++ r ∷ cs) (same_p ∙ sym same_q)
          ∙ sym (ap names (filter_portable-around q r os ps qs)))
