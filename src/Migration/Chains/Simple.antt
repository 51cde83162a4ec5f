-- ===== src/Migration/Chains/Simple.antt =====
-- migrations/plan-migration.ts of packages/schema: the chains that `enumerateChains` finds,
-- and the simple walks of the graph of migrations.
use neko_stack.Common.{
  ℕ, zero, suc, String, ◌≡◌, ◌≢◌, refl, ap, sym, subst, true, false, some, List, [], ◌∷◌, ◌++◌, map,
  arith, ◌==◌, eq_iff, Bool-cases, inl, inr, ◌⊎◌, ◌↔◌, In, In-append_left, In-append_right, In-map,
  eq_of_==, ==-false_of_ne,
}
use neko_stack.Js.JsMap.{JsMap, includes, In-includes}
use neko_stack.Migration.Types.{MigrationEntry, Adjacency}
use neko_stack.Migration.Chains.{chain_fuel, enumerate_chains}
use neko_stack.Migration.Chains.Paths.{
  paths_loop, paths, IsEnough, IsEnough-next, unseen-le-length, includes-concat, dfs-paths,
}
use neko_stack.Migration.Chains.Sound.{IsWalk, IsFresh, entries, IsChainFrom, paths_sound}

module _ {V : Type 0} where
  -- A walk over fresh versions ends at one that was not visited before it.
  end-fresh :
      (adjacency : Adjacency V) (visited : List String) (from end : String)
      (hop : String × MigrationEntry V) (hops : List (String × MigrationEntry V))
      → IsWalk adjacency from (hop ∷ hops) end
      → IsFresh visited (hop ∷ hops)
      → includes end visited ≡ false
  end-fresh adjacency visited from end hop [] (_, e) (new, _) = rw (← e) new
  end-fresh adjacency visited from end hop (next ∷ hops) (_, walk) (new, fresh) =
      let later = end-fresh adjacency (visited ++ hop.0 ∷ []) hop.0 end next hops walk fresh in
      ground (arith, includes-concat end hop.0 visited)

  paths_loop_here :
      (end : String) (visited : List String)
      (spec : List String → String → List (List (MigrationEntry V)))
      (outgoing : JsMap (MigrationEntry V)) (hop : String × MigrationEntry V)
      (c : List (MigrationEntry V))
      → includes hop.0 visited ≡ false
      → ((hop.0 ≡ end) × (c ≡ [])) ⊎ ((hop.0 ≢ end) × In c (spec (visited ++ hop.0 ∷ []) hop.0))
      → In (hop.1 ∷ c) (paths_loop spec end visited (hop ∷ outgoing))
  unfolding paths_loop
  paths_loop_here end visited spec outgoing hop c new (inl (last, none_left)) =
      rw (new, (eq_iff hop.0 end).1 last) (inl (ap (λ d. hop.1 ∷ d) none_left))
  paths_loop_here end visited spec outgoing hop c new (inr (more, m)) =
      rw (new, ==-false_of_ne hop.0 end more)
        (In-append_left (hop.1 ∷ c) _ _ (In-map (λ d. hop.1 ∷ d) c _ m))

  paths_loop_complete :
      (end : String) (visited : List String)
      (spec : List String → String → List (List (MigrationEntry V)))
      (outgoing : JsMap (MigrationEntry V)) (hop : String × MigrationEntry V)
      (c : List (MigrationEntry V))
      → In hop outgoing
      → includes hop.0 visited ≡ false
      → ((hop.0 ≡ end) × (c ≡ [])) ⊎ ((hop.0 ≢ end) × In c (spec (visited ++ hop.0 ∷ []) hop.0))
      → In (hop.1 ∷ c) (paths_loop spec end visited outgoing)
  unfolding paths_loop
  paths_loop_complete end visited spec [] hop c h new way = elim h [ ]
  paths_loop_complete end visited spec ((to, entry) ∷ outgoing) hop c (inr m) new way =
      let later = paths_loop_complete end visited spec outgoing hop c m new way in
      elim (Bool-cases (includes to visited)) [
        | inl seen ↦ rw seen later
        | inr unseen_to ↦ elim (Bool-cases (to == end)) [
          | inl last ↦ rw (unseen_to, last) (inr later)
          | inr more ↦ rw (unseen_to, more) (In-append_right (hop.1 ∷ c) _ _ later)
        ]
      ]
  paths_loop_complete end visited spec ((to, entry) ∷ outgoing) hop c (inl e) new way =
      subst (λ h. In (hop.1 ∷ c) (paths_loop spec end visited (h ∷ outgoing))) e
        (paths_loop_here end visited spec outgoing hop c new way)

  paths_complete :
      (fuel : ℕ) (adjacency : Adjacency V) (end : String) (visited : List String) (from : String)
      (hop : String × MigrationEntry V) (hops : List (String × MigrationEntry V))
      → IsEnough adjacency fuel visited from
      → IsWalk adjacency from (hop ∷ hops) end
      → IsFresh visited (hop ∷ hops)
      → In (entries (hop ∷ hops)) (paths fuel adjacency end visited from)
  unfolding paths
  paths_complete zero adjacency end visited from hop hops enough walk fresh = absurd (omega arith)
  paths_complete (suc fuel) adjacency end visited from hop hops (_, inl nothing)
        ((outgoing, found, m), walk) fresh =
      cc
  paths_complete (suc fuel) adjacency end visited from hop [] (_, inr enough)
        ((outgoing, found, m), last) (new, _) =
      rw (found, paths)
        (paths_loop_complete end visited (paths fuel adjacency end) outgoing hop [] m new
          (inl (last, refl)))
  paths_complete (suc fuel) adjacency end visited from hop (next ∷ hops) (_, inr enough)
        ((outgoing, found, m), walk) (new, fresh) =
      rw (found, paths)
        (paths_loop_complete end visited (paths fuel adjacency end) outgoing hop
          (entries (next ∷ hops)) m new
          (inr (
            (λ e.
                let unentered =
                  end-fresh adjacency (visited ++ hop.0 ∷ []) hop.0 end next hops walk fresh in
                ground (arith, includes-concat end hop.0 visited, eq_iff hop.0 end)),
            paths_complete fuel adjacency end (visited ++ hop.0 ∷ []) hop.0 next hops
                (IsEnough-next adjacency fuel visited hop.0 enough new) walk fresh,
          )))

  IsEnough-start :
      (adjacency : Adjacency V) (start : String)
      → IsEnough adjacency (chain_fuel adjacency) (start ∷ []) start
  IsEnough-start adjacency start =
      (omega arith, inr (omega (arith, unseen-le-length (start ∷ []) adjacency)))

  map-id : (cs : List (List (MigrationEntry V))) → map (λ c. [] ++ c) cs ≡ cs
  map-id [] = refl
  map-id (c ∷ cs) = ap (λ l. c ∷ l) (map-id cs)

  enumerate_chains-paths :
      (adjacency : Adjacency V) (start end : String)
      → start ≢ end
      → enumerate_chains adjacency start end
        ≡ some (paths (chain_fuel adjacency) adjacency end (start ∷ []) start)
  unfolding enumerate_chains
  enumerate_chains-paths adjacency start end h =
      rw
        (
          ==-false_of_ne start end h,
          dfs-paths (chain_fuel adjacency) adjacency end (start ∷ []) start [] []
              (IsEnough-start adjacency start),
        )
        (ap some (map-id _))

  enumerate_chains-same :
      (adjacency : Adjacency V) (start end : String)
      → (start == end) ≡ true
      → enumerate_chains adjacency start end ≡ some []
  unfolding enumerate_chains
  enumerate_chains-same adjacency start end h = rw h

  not-IsChainFrom_same :
      (adjacency : Adjacency V) (start end : String) (c : List (MigrationEntry V))
      → (start == end) ≡ true
      → IsChainFrom adjacency (start ∷ []) start end c
      → ⊥
  not-IsChainFrom_same adjacency start end c same (hop, hops, _, walk, fresh) =
      let new = end-fresh adjacency (start ∷ []) start end hop hops walk fresh in
      cc (new, In-includes end (start ∷ []) (inl (sym (eq_of_== start end same))))

  abbrev IsExact : Adjacency V → String → String → List (List (MigrationEntry V)) → Type 0
  IsExact adjacency start end chains =
      (c : List (MigrationEntry V)) → In c chains ↔ IsChainFrom adjacency (start ∷ []) start end c

  paths-IsExact :
      (adjacency : Adjacency V) (start end : String)
      → IsExact adjacency start end (paths (chain_fuel adjacency) adjacency end (start ∷ []) start)
  paths-IsExact adjacency start end c = (
    paths_sound (chain_fuel adjacency) adjacency end (start ∷ []) start c,
    λ w.
        let (hop, hops, same, walk, fresh) = w in
        rw (← same) (
          paths_complete (chain_fuel adjacency) adjacency end (start ∷ []) start hop hops
            (IsEnough-start adjacency start) walk fresh),
  )

  -- The search ends with a result within its fuel, and a chain is in the result exactly when it is
  -- that of a walk of at least one migration of the map from the one version to the other that
  -- enters no version twice.
  pub enumerate_chains-In_iff :
      (adjacency : Adjacency V) (start end : String)
      → (chains : List (List (MigrationEntry V))) × (enumerate_chains adjacency start end
          ≡ some chains)
        × ((c : List (MigrationEntry V))
            → In c chains ↔ IsChainFrom adjacency (start ∷ []) start end c)
  enumerate_chains-In_iff adjacency start end = elim (Bool-cases (start == end)) [
    | inl same ↦ (
      [],
      enumerate_chains-same adjacency start end same,
      λ c. (λ h. elim h [ ], λ w. absurd (not-IsChainFrom_same adjacency start end c same w)),
    )
    | inr differ ↦ (
      _,
      enumerate_chains-paths adjacency start end (λ e. cc (differ, (eq_iff start end).1 e)),
      paths-IsExact adjacency start end,
    )
  ]
