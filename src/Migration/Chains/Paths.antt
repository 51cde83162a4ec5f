-- ===== src/Migration/Chains/Paths.antt =====
-- The depth-first search of migrations/plan-migration.ts of packages/schema, as a function without
-- the shared state.
use neko_stack.Common.{
  ℕ, zero, suc, ◌+◌, ◌≤◌, String, ◌≡◌, refl, ap, ◌∙◌, true, false, Option, none, some, List, [],
  ◌∷◌, ◌++◌, map, arith, ◌==◌, eq_iff, eq_refl, length, append_assoc, append-nil, map-append,
  Bool-cases, Option-cases, inl, inr, ◌⊎◌, if◌then◌else◌,
}
use neko_stack.Js.JsMap.{JsMap, get, includes}
use neko_stack.Migration.Types.{MigrationEntry, Adjacency}
use neko_stack.Migration.Chains.{Search, delete, pop, dfs_loop, dfs}

pop-concat {ℓ} : {A : Type ℓ} (xs : List A) (x : A) → pop (xs ++ x ∷ []) ≡ xs
unfolding pop
pop-concat [] x = refl
pop-concat (y ∷ []) x = refl
pop-concat (y ∷ z ∷ xs) x = ap (λ l. y ∷ l) (pop-concat (z ∷ xs) x)

delete-concat :
    (k : String) (ts : List String) → includes k ts ≡ false → delete k (ts ++ k ∷ []) ≡ ts
unfolding delete includes
delete-concat k [] h = rw eq_refl
delete-concat k (t ∷ ts) h = ground (arith, delete-concat k ts)

pub includes-concat :
    (k j : String) (ts : List String)
    → includes k (ts ++ j ∷ []) ≡ (if includes k ts then true else (j == k))
unfolding includes
includes-concat k j [] = ground arith
includes-concat k j (t ∷ ts) = ground (arith, includes-concat k j ts)

-- The versions with outgoing migrations that are not yet visited.
unfoldable pub unseen : {A : Type 0} → List String → JsMap A → ℕ
unseen visited [] = 0
unseen visited ((k, v) ∷ m) =
    let rest = unseen visited m in if includes k visited then rest else suc rest

pub unseen-le-length :
    {A : Type 0} (visited : List String) (m : JsMap A) → unseen visited m ≤ length m
unfolding unseen
unseen-le-length visited [] = omega arith
unseen-le-length visited ((k, v) ∷ m) = ground (arith, unseen-le-length visited m)

unseen_mono :
    {A : Type 0} (visited : List String) (j : String) (m : JsMap A)
    → unseen (visited ++ j ∷ []) m ≤ unseen visited m
unfolding unseen
unseen_mono visited j [] = omega arith
unseen_mono visited j ((k, v) ∷ m) =
    ground (arith, unseen_mono visited j m, includes-concat k j visited)

pub unseen-lt :
    {A : Type 0} (visited : List String) (j : String) (m : JsMap A) (a : A)
    → includes j visited ≡ false
    → get j m ≡ some a
    → unseen (visited ++ j ∷ []) m + 1 ≤ unseen visited m
unfolding unseen get
unseen-lt visited j [] a h e = cc
unseen-lt visited j ((k, v) ∷ m) a h e = ground (
  arith,
  unseen-lt visited j m a h,
  unseen_mono visited j m,
  includes-concat k j visited,
  eq_iff k j,
  eq_iff j k,
)

module _ {V : Type 0} where
  -- The chains that the loop over the outgoing migrations finds; `rec` gives those of one level down.
  unfoldable pub paths_loop :
      (List String → String → List (List (MigrationEntry V)))
      → String
      → List String
      → JsMap (MigrationEntry V)
      → List (List (MigrationEntry V))
  paths_loop rec end visited [] = []
  paths_loop rec end visited ((to, entry) ∷ outgoing) =
      let rest = paths_loop rec end visited outgoing in
      if includes to visited
      then rest
      else if to == end
      then (entry ∷ []) ∷ rest
      else map (λ c. entry ∷ c) (rec (visited ++ to ∷ []) to) ++ rest

  unfoldable pub paths :
      ℕ → Adjacency V → String → List String → String → List (List (MigrationEntry V))
  unfolding paths_loop
  paths zero adjacency end visited current = []
  paths (suc fuel) adjacency end visited current = elim (get current adjacency) [
    | none ↦ []
    | some outgoing ↦ paths_loop (paths fuel adjacency end) end visited outgoing
  ]

  -- Fuel that lasts: one unit, and where the version has outgoing migrations, two more than the
  -- versions that can still be entered and left.
  abbrev pub IsEnough : Adjacency V → ℕ → List String → String → Type 0
  IsEnough adjacency fuel visited current =
      (1 ≤ fuel) × ((get current adjacency ≡ none) ⊎ (unseen visited adjacency + 2 ≤ fuel))

  pub IsEnough-next :
      (adjacency : Adjacency V) (fuel : ℕ) (visited : List String) (to : String)
      → unseen visited adjacency + 2 ≤ suc fuel
      → includes to visited ≡ false
      → IsEnough adjacency fuel (visited ++ to ∷ []) to
  IsEnough-next adjacency fuel visited to h new = elim (Option-cases (get to adjacency)) [
    | inl none_there ↦ (omega arith, inl none_there)
    | inr (out, found) ↦
        (omega arith, inr (omega (arith, unseen-lt visited to adjacency out new found)))
  ]

  abbrev search : List String → List (MigrationEntry V) → List (List (MigrationEntry V)) → Search V
  search visited chain out = record { visited = visited; chain = chain; out = out }

  -- The call of `dfs` one level down is as the function says, at any version not yet visited.
  abbrev IsFaithful :
      (String → Search V → Option (Search V))
      → (List String → String → List (List (MigrationEntry V)))
      → List String
      → Type 0
  IsFaithful rec spec visited =
      (to : String) (chain : List (MigrationEntry V)) (out : List (List (MigrationEntry V)))
      → includes to visited ≡ false
      → rec to (search (visited ++ to ∷ []) chain out)
        ≡ some (
            search (visited ++ to ∷ []) chain
              (out ++ map (λ c. chain ++ c) (spec (visited ++ to ∷ []) to)))

  map-snoc :
      (chain : List (MigrationEntry V)) (entry : MigrationEntry V)
      (cs : List (List (MigrationEntry V)))
      → map (λ c. (chain ++ entry ∷ []) ++ c) cs ≡ map (λ c. chain ++ c) (map (λ c. entry ∷ c) cs)
  map-snoc chain entry [] = refl
  map-snoc chain entry (c ∷ cs) = rw (append_assoc, map-snoc chain entry cs)

  found_below :
      (out : List (List (MigrationEntry V))) (chain : List (MigrationEntry V))
      (entry : MigrationEntry V) (cs rest : List (List (MigrationEntry V)))
      → (out ++ map (λ c. (chain ++ entry ∷ []) ++ c) cs) ++ map (λ c. chain ++ c) rest
        ≡ out ++ map (λ c. chain ++ c) (map (λ c. entry ∷ c) cs ++ rest)
  found_below out chain entry cs rest = rw (append_assoc, map-append, ← map-snoc chain entry cs)

  dfs_loop-paths_loop :
      (rec : String → Search V → Option (Search V))
      (spec : List String → String → List (List (MigrationEntry V))) (end : String)
      (visited : List String) (chain : List (MigrationEntry V))
      (outgoing : JsMap (MigrationEntry V)) (out : List (List (MigrationEntry V)))
      → IsFaithful rec spec visited
      → dfs_loop rec end outgoing (search visited chain out)
        ≡ some (
            search visited chain
              (out ++ map (λ c. chain ++ c) (paths_loop spec end visited outgoing)))
  unfolding dfs_loop paths_loop
  dfs_loop-paths_loop rec spec end visited chain [] out h = rw append-nil
  dfs_loop-paths_loop rec spec end visited chain ((to, entry) ∷ outgoing) out h =
      elim (Bool-cases (includes to visited)) [
        | inl seen ↦ rw seen (dfs_loop-paths_loop rec spec end visited chain outgoing out h)
        | inr new ↦ elim (Bool-cases (to == end)) [
          | inl last ↦
              rw (new, last, pop-concat chain entry)
                (dfs_loop-paths_loop rec spec end visited chain outgoing
                    (out ++ (chain ++ entry ∷ []) ∷ []) h
                  ∙ ap (λ o. some (search visited chain o))
                      (append_assoc out ((chain ++ entry ∷ []) ∷ []) _))
          | inr more ↦
              rw (new, more, h to (chain ++ entry ∷ []) out new)
                (rw (pop-concat chain entry, delete-concat to visited new)
                  (dfs_loop-paths_loop rec spec end visited chain outgoing
                      (out ++ map (λ c. (chain ++ entry ∷ []) ++ c) (spec (visited ++ to ∷ []) to))
                      h
                    ∙ ap (λ o. some (search visited chain o))
                        (found_below out chain entry (spec (visited ++ to ∷ []) to)
                          (paths_loop spec end visited outgoing))))
        ]
      ]

  -- With enough fuel, `dfs` adds the chains of `paths`, each behind the chain that it was called
  -- with, and leaves the visited versions and the chain as they were.
  pub dfs-paths :
      (fuel : ℕ) (adjacency : Adjacency V) (end : String) (visited : List String) (current : String)
      (chain : List (MigrationEntry V)) (out : List (List (MigrationEntry V)))
      → IsEnough adjacency fuel visited current
      → dfs fuel adjacency end current (record { visited = visited; chain = chain; out = out })
        ≡ some (record {
          visited = visited;
          chain = chain;
          out = out ++ map (λ c. chain ++ c) (paths fuel adjacency end visited current);
        })
  unfolding dfs paths
  dfs-paths zero adjacency end visited current chain out h = absurd (omega arith)
  dfs-paths (suc fuel) adjacency end visited current chain out (_, inl nothing) =
      rw (nothing, dfs, paths) (rw append-nil)
  dfs-paths (suc fuel) adjacency end visited current chain out (_, inr enough) =
      elim (Option-cases (get current adjacency)) [
        | inl nothing ↦ rw (nothing, dfs, paths) (rw append-nil)
        | inr (outgoing, found) ↦
            rw (found, dfs, paths)
              (dfs_loop-paths_loop (dfs fuel adjacency end) (paths fuel adjacency end) end visited
                chain outgoing out
                (λ to chain' out' new.
                  dfs-paths fuel adjacency end (visited ++ to ∷ []) to chain' out'
                    (IsEnough-next adjacency fuel visited to enough new)))
      ]
