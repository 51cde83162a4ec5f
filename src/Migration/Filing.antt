-- ===== src/Migration/Filing.antt =====
-- How migrations are filed in a registry of packages/schema: under the schema id and the versions.
use neko_stack.Common.{
  String, ◌≡◌, refl, ap, ◌∙◌, Bool, ◌&&◌, Option, some, ◌==◌, if◌then◌else◌, Option-cases,
  Bool-cases, inl, inr,
}
use neko_stack.Js.JsMap.{map_or_new, JsMap, get, set, get-set}
use neko_stack.Js.JsMap.Laws.{map_or_new-set}
use neko_stack.Migration.Types.{MigrationEntry, Adjacency, MigrationRegistry}
use neko_stack.Migration.Plan.{find_exact_migration}

module _ {V : Type 0} where
  -- A round of the loop: the inner maps are made where they are missing, and are shared with the
  -- outer ones, so the change of the innermost shows in all three.
  unfoldable pub file_entry : MigrationEntry V → MigrationRegistry V → MigrationRegistry V
  unfolding get set
  file_entry entry out =
      let by_from = map_or_new (get entry.schema_id out) in
      let by_to = map_or_new (get entry.from_version by_from) in
      set entry.schema_id (set entry.from_version (set entry.to_version entry by_to) by_from) out

  abbrev pub has_key : String → String → String → MigrationEntry V → Bool
  has_key s f t entry =
      (entry.schema_id == s) && (entry.from_version == f) && (entry.to_version == t)

  unfoldable pub find_by :
      MigrationRegistry V → String → String → String → Option (MigrationEntry V)
  unfolding get
  find_by out s f t = get t (map_or_new (get f (map_or_new (get s out))))

  pub find_exact_migration-find_by :
      (out : MigrationRegistry V) (s f t : String)
      → find_exact_migration out s f t ≡ find_by out s f t
  unfolding find_exact_migration find_by get
  find_exact_migration-find_by out s f t = elim (Option-cases (get s out)) [
    | inl nothing ↦ rw (nothing, find_exact_migration) refl
    | inr (by_from, found) ↦ elim (Option-cases (get f by_from)) [
      | inl nothing ↦ rw (found, find_exact_migration, nothing) refl
      | inr (by_to, there) ↦ rw (found, find_exact_migration, there) refl
    ]
  ]

  pub find_by-file_entry :
      (entry : MigrationEntry V) (out : MigrationRegistry V) (s f t : String)
      → find_by (file_entry entry out) s f t
        ≡ (if has_key s f t entry then some entry else find_by out s f t)
  unfolding file_entry find_by
  find_by-file_entry entry out s f t =
      let add_to : (JsMap (MigrationEntry V) → JsMap (MigrationEntry V)) =
        set entry.to_version entry in
      let add_from : (Adjacency V → Adjacency V) =
        λ m. set entry.from_version (add_to (map_or_new (get entry.from_version m))) m in
      let m = map_or_new (get s out) in
      ap (λ x. get t (map_or_new (get f x))) (map_or_new-set entry.schema_id s add_from out)
      ∙ elim (Bool-cases (entry.schema_id == s)) [
        | inr a ↦ rw a refl
        | inl a ↦ rw a (
            ap (get t) (map_or_new-set entry.from_version f add_to m)
            ∙ elim (Bool-cases (entry.from_version == f)) [
              | inr b ↦ rw b refl
              | inl b ↦ rw b (get-set entry.to_version t entry (map_or_new (get f m)))
            ])
      ]
