-- ===== src/Migration/Chains.antt =====
-- `enumerateChains` and `dfs` of migrations/plan-migration.ts of packages/schema. The set `visited`,
-- the stack `chain` and the list `out`, which the recursion shares and changes, are the fields of a
-- state. The recursion's depth is bounded by fuel; `none` means that it ran out.
pub mod Paths
pub mod Sound
pub mod Simple
use neko_stack.Common.{
  ℕ, zero, suc, ◌+◌, String, Option, none, some, List, [], ◌∷◌, ◌++◌, ◌==◌, length, if◌then◌else◌,
}
use neko_stack.Js.JsMap.{JsMap, get, includes}
use neko_stack.Migration.Types.{MigrationEntry, Adjacency}

pub record Search (V : Type 0) : Type 0 where
  pub visited : List String
  pub chain : List (MigrationEntry V)
  pub out : List (List (MigrationEntry V))

-- visited.delete(version)
unfoldable pub delete : String → List String → List String
delete k [] = []
delete k (t ∷ ts) = if t == k then ts else t ∷ delete k ts

-- chain.pop()
unfoldable pub pop {ℓ} : {A : Type ℓ} → List A → List A
pop [] = []
pop (x ∷ []) = []
pop (x ∷ y ∷ xs) = x ∷ pop (y ∷ xs)

infixl 5 ◌>>=◌
abbrev pub ◌>>=◌ {ℓ κ} : {A : Type ℓ} {B : Type κ} → Option A → (A → Option B) → Option B
none >>= f = none
some a >>= f = f a

module _ {V : Type 0} where
  abbrev pub push_chain : MigrationEntry V → Search V → Search V
  push_chain entry s = record s { chain = s.chain ++ entry ∷ [] }

  abbrev pub pop_chain : Search V → Search V
  unfolding pop
  pop_chain s = record s { chain = pop s.chain }

  abbrev pub add_visited : String → Search V → Search V
  add_visited version s = record s { visited = s.visited ++ version ∷ [] }

  abbrev pub delete_visited : String → Search V → Search V
  unfolding delete
  delete_visited version s = record s { visited = delete version s.visited }

  abbrev pub push_out : Search V → Search V
  push_out s = record s { out = s.out ++ s.chain ∷ [] }

  -- The loop over the outgoing migrations; `rec` is `dfs` one level down.
  unfoldable pub dfs_loop :
      (String → Search V → Option (Search V))
      → String
      → JsMap (MigrationEntry V)
      → Search V
      → Option (Search V)
  unfolding includes delete pop
  dfs_loop rec end [] s = some s
  dfs_loop rec end ((to_version, entry) ∷ outgoing) s =
      let skip = dfs_loop rec end outgoing s in
      let found = dfs_loop rec end outgoing (pop_chain (push_out (push_chain entry s))) in
      let deeper = (do
        t ← rec to_version (add_visited to_version (push_chain entry s))
        dfs_loop rec end outgoing (pop_chain (delete_visited to_version t))) in
      if includes to_version s.visited then skip else if to_version == end then found else deeper

  unfoldable pub dfs : ℕ → Adjacency V → String → String → Search V → Option (Search V)
  unfolding dfs_loop get
  dfs zero adjacency end current s = none
  dfs (suc fuel) adjacency end current s = elim (get current adjacency) [
    | none ↦ some s
    | some outgoing ↦ dfs_loop (dfs fuel adjacency end) end outgoing s
  ]

  -- Each level but the last is at another version that has outgoing migrations.
  abbrev pub chain_fuel : Adjacency V → ℕ
  chain_fuel adjacency = length adjacency + 2

  unfoldable pub enumerate_chains :
      Adjacency V → String → String → Option (List (List (MigrationEntry V)))
  unfolding dfs
  enumerate_chains adjacency start end = if start == end then some [] else do
    s ←
        dfs (chain_fuel adjacency) adjacency end start
          (record { visited = start ∷ []; chain = []; out = [] })
    some s.out
