-- ===== src/Migration/Chains/Sound.antt =====
-- The paths that the search of migrations/plan-migration.ts of packages/schema gives are chains: walks
-- over registered migrations without a repeated version.
use neko_stack.Common.{
  ℕ, zero, suc, String, ◌≡◌, refl, ap, sym, ◌∙◌, false, some, List, [], ◌∷◌, ◌++◌, map, ◌==◌,
  Bool-cases, Option-cases, inl, inr, In, In-append, In-map_inv, eq_of_==,
}
use neko_stack.Js.JsMap.{JsMap, get, includes}
use neko_stack.Migration.Types.{MigrationEntry, Adjacency}
use neko_stack.Migration.Chains.Paths.{paths_loop, paths}

module _ {V : Type 0} where
  -- The adjacency map files this migration under these two versions.
  abbrev pub IsEdge : Adjacency V → String → String × MigrationEntry V → Type 0
  IsEdge adjacency from hop =
      (outgoing : JsMap (MigrationEntry V)) × (get from adjacency ≡ some outgoing) × In hop outgoing

  -- The hops lead from one version to another along migrations of the map.
  abbrev pub IsWalk : Adjacency V → String → List (String × MigrationEntry V) → String → Type 0
  IsWalk adjacency from [] end = from ≡ end
  IsWalk adjacency from (hop ∷ hops) end =
      IsEdge adjacency from hop × IsWalk adjacency hop.0 hops end

  -- No hop leads to a version that was entered before.
  abbrev pub IsFresh : List String → List (String × MigrationEntry V) → Type 0
  IsFresh visited [] = Unit
  IsFresh visited (hop ∷ hops) =
      (includes hop.0 visited ≡ false) × IsFresh (visited ++ hop.0 ∷ []) hops

  abbrev pub entries : List (String × MigrationEntry V) → List (MigrationEntry V)
  entries = map (λ hop. hop.1)

  -- The chain is that of at least one hop, on a walk that enters no version twice.
  abbrev pub IsChainFrom :
      Adjacency V → List String → String → String → List (MigrationEntry V) → Type 0
  IsChainFrom adjacency visited from end chain =
      (hop : String × MigrationEntry V) × (hops : List (String × MigrationEntry V)) × (entries
          (hop ∷ hops)
        ≡ chain)
      × IsWalk adjacency from (hop ∷ hops) end
      × IsFresh visited (hop ∷ hops)

  abbrev IsSound :
      Adjacency V
      → String
      → List String
      → (List String → String → List (List (MigrationEntry V)))
      → Type 0
  IsSound adjacency end visited spec =
      (to : String) (c : List (MigrationEntry V))
      → In c (spec (visited ++ to ∷ []) to)
      → IsChainFrom adjacency (visited ++ to ∷ []) to end c

  paths_loop_sound :
      (adjacency : Adjacency V) (end : String) (visited : List String) (from : String)
      (spec : List String → String → List (List (MigrationEntry V)))
      (outgoing : JsMap (MigrationEntry V))
      → IsSound adjacency end visited spec
      → ((hop : String × MigrationEntry V) → In hop outgoing → IsEdge adjacency from hop)
      → (c : List (MigrationEntry V)) → In c (paths_loop spec end visited outgoing)
      → IsChainFrom adjacency visited from end c
  unfolding paths_loop
  paths_loop_sound adjacency end visited from spec [] sound edges c h = elim h [ ]
  paths_loop_sound adjacency end visited from spec ((to, entry) ∷ outgoing) sound edges c h =
      let later : (In c (paths_loop spec end visited outgoing)
          → IsChainFrom adjacency visited from end c) =
        paths_loop_sound adjacency end visited from spec outgoing sound (λ hop m. edges hop (inr m))
          c in
      elim (Bool-cases (includes to visited)) [
        | inl seen ↦ later (rw seen at h)
        | inr new ↦ elim (Bool-cases (to == end)) [
          | inl last ↦ elim (rw (new, last) at h) [
            | inl e ↦ (
              (to, entry),
              [],
              sym e,
              (edges (to, entry) (inl refl), eq_of_== to end last),
              (new, tt),
            )
            | inr m ↦ later m
          ]
          | inr more ↦
              elim (In-append c (map (λ d. entry ∷ d) (spec (visited ++ to ∷ []) to)) _
                (rw (new, more) at h)) [
                  | inl m ↦
                      below new (In-map_inv (λ d. entry ∷ d) c (spec (visited ++ to ∷ []) to) m)
                  | inr m ↦ later m
                ]
        ]
      ]
    where
      below :
          includes to visited ≡ false
          → (d : List (MigrationEntry V)) × In d (spec (visited ++ to ∷ []) to) × (c ≡ entry ∷ d)
          → IsChainFrom adjacency visited from end c
      below new (d, m, e) =
          let (hop, hops, same, walk, fresh) = sound to d m in
          (
            (to, entry),
            hop ∷ hops,
            ap (λ l. entry ∷ l) same ∙ sym e,
            (edges (to, entry) (inl refl), walk),
            (new, fresh),
          )

  -- Every chain that is found is that of a simple walk.
  pub paths_sound :
      (fuel : ℕ) (adjacency : Adjacency V) (end : String) (visited : List String) (from : String)
      (c : List (MigrationEntry V))
      → In c (paths fuel adjacency end visited from)
      → IsChainFrom adjacency visited from end c
  unfolding paths
  paths_sound zero adjacency end visited from c h = elim h [ ]
  paths_sound (suc fuel) adjacency end visited from c h = elim (Option-cases (get from adjacency)) [
    | inl nothing ↦ absurd (rw (nothing, paths) at h)
    | inr (outgoing, found) ↦
        paths_loop_sound adjacency end visited from (paths fuel adjacency end) outgoing
          (λ to. paths_sound fuel adjacency end (visited ++ to ∷ []) to)
          (λ hop m. (outgoing, found, m)) c (rw (found, paths) at h)
  ]
