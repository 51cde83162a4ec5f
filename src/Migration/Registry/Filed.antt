-- ===== src/Migration/Registry/Filed.antt =====
-- What holds of a registry that migrations/build-migration-registry.ts of packages/schema builds.
use neko_stack.Common.{
  String, ◌≡◌, refl, sym, ap, ◌∙◌, Bool, true, false, Option, none, some, List, [], ◌∷◌,
  if◌then◌else◌, Bool-cases, inl, inr, subst, In,
}
use neko_stack.Js.JsMap.{get}
use neko_stack.Schema.Issues.{Issue, Result, success, failure}
use neko_stack.Migration.Types.{MigrationEntry, MigrationRegistry}
use neko_stack.Migration.Plan.{find_exact_migration}
use neko_stack.Migration.Filing.{
  has_key, find_by, find_exact_migration-find_by, file_entry, find_by-file_entry,
}
use neko_stack.Migration.Provenance.{
  ParsedMigrationProvenance, parse_migration_provenance_from_text,
}
use neko_stack.Migration.Provenance.Checked.{
  IsChecked, parse_migration_provenance_from_text-IsChecked,
}
use neko_stack.Migration.Registry.{
  MigrationSourceEntry, Building, build_entry, file_unless, file_parsed, file_migrations,
  built_result, build_migration_registry,
}

module _ {V : Type 0} where
  -- An entry is what one of the sources states: its header was accepted, and the entry has its
  -- fields, the path of the file and the migration that the file exports.
  abbrev pub IsStatedBy : MigrationEntry V → MigrationSourceEntry V → Type 0
  unfolding build_entry
  IsStatedBy e source =
      (prov : ParsedMigrationProvenance) × (parse_migration_provenance_from_text source.source_text
        ≡ success prov)
      × IsChecked prov
      × (e ≡ build_entry source prov)

  -- Whatever is found under an id and two versions has them, and a source states it.
  IsFiled : List (MigrationSourceEntry V) → MigrationRegistry V → Type 0
  IsFiled sources out =
      (s f t : String) (e : MigrationEntry V)
      → find_by out s f t ≡ some e
      → (has_key s f t e ≡ true)
        × ((source : MigrationSourceEntry V) × In source sources × IsStatedBy e source)

  some_inj : (a b : MigrationEntry V) → some a ≡ some b → a ≡ b
  some_inj a b h = cc

  kept :
      (entry : MigrationEntry V) (out : MigrationRegistry V) (s f t : String)
      → has_key s f t entry ≡ false
      → find_by out s f t ≡ find_by (file_entry entry out) s f t
  kept entry out s f t n = sym (
      find_by-file_entry entry out s f t
      ∙ ap (λ (b : Bool). if b then some entry else find_by out s f t) n)

  empty-IsFiled : (sources : List (MigrationSourceEntry V)) → IsFiled sources []
  unfolding IsFiled find_by get
  empty-IsFiled sources s f t e h = cc

  file_entry-IsFiled :
      (sources : List (MigrationSourceEntry V)) (out : MigrationRegistry V)
      (entry : MigrationEntry V) (source : MigrationSourceEntry V)
      → In source sources
      → IsStatedBy entry source
      → IsFiled sources out
      → IsFiled sources (file_entry entry out)
  unfolding IsFiled
  file_entry-IsFiled sources out entry source m stated h s f t e found =
      let step = find_by-file_entry entry out s f t in
      elim (Bool-cases (has_key s f t entry)) [
        | inl y ↦
            let here : (if has_key s f t entry then some entry else find_by out s f t) ≡ some e =
              sym step ∙ found in
            let same : entry ≡ e =
              some_inj entry e
                (ap (λ (b : Bool). if b then some entry else find_by out s f t) (sym y) ∙ here) in
            subst
              (λ (x : MigrationEntry V).
                (has_key s f t x ≡ true)
                × ((source : MigrationSourceEntry V) × In source sources × IsStatedBy x source))
              same (y, (source, m, stated))
        | inr n ↦ h s f t e (kept entry out s f t n ∙ found)
      ]

  file_parsed-IsFiled :
      (sources : List (MigrationSourceEntry V)) (source : MigrationSourceEntry V)
      (r : Result ParsedMigrationProvenance) (s : Building V)
      → In source sources
      → parse_migration_provenance_from_text source.source_text ≡ r
      → IsFiled sources s.out
      → IsFiled sources (file_parsed source r s).out
  unfolding file_parsed
  file_parsed-IsFiled sources source (failure issues) s m p h = h
  file_parsed-IsFiled sources source (success prov) s m p h =
      let entry = build_entry source prov in
      unless (find_by s.out entry.schema_id entry.from_version entry.to_version)
    where
      unless :
          (o : Option (MigrationEntry V))
          → IsFiled sources (file_unless o (build_entry source prov) s).out
      unless (some existing) = h
      unless none =
          file_entry-IsFiled sources s.out (build_entry source prov) source m
            (
              prov,
              p,
              parse_migration_provenance_from_text-IsChecked source.source_text prov p,
              refl,
            )
            h

  file_migrations-IsFiled :
      (sources entries : List (MigrationSourceEntry V)) (s : Building V)
      → ((x : MigrationSourceEntry V) → In x entries → In x sources)
      → IsFiled sources s.out
      → IsFiled sources (file_migrations entries s).out
  unfolding file_migrations
  file_migrations-IsFiled sources [] s sub h = h
  file_migrations-IsFiled sources (entry ∷ entries) s sub h =
      let r = parse_migration_provenance_from_text entry.source_text in
      file_migrations-IsFiled sources entries (file_parsed entry r s) (λ x m. sub x (inr m))
        (file_parsed-IsFiled sources entry r s (sub entry (inl refl)) refl h)

  built_result-success :
      (s : Building V) (r : MigrationRegistry V) → built_result s ≡ success r → s.out ≡ r
  built_result-success s r = go s.issues
    where
      go : (is : List Issue) → built_result (record s { issues = is }) ≡ success r → s.out ≡ r
      go [] h = cc
      go (i ∷ is) h = cc

  -- In a registry that is built, whatever is found under a schema id and two versions has them, and
  -- one of the sources states it: its header is accepted, with all hashes well-formed, and the entry
  -- has the header's fields, the file's path and the migration that the file exports.
  pub build_migration_registry-IsStatedBy :
      (sources : List (MigrationSourceEntry V)) (r : MigrationRegistry V)
      → build_migration_registry sources ≡ success r
      → (s f t : String) (e : MigrationEntry V) → find_exact_migration r s f t ≡ some e
      → (has_key s f t e ≡ true)
        × ((source : MigrationSourceEntry V) × In source sources × IsStatedBy e source)
  unfolding build_migration_registry IsFiled
  build_migration_registry-IsStatedBy sources r h s f t e found =
      let start : Building V = record { out = []; issues = [] } in
      let filed =
        file_migrations-IsFiled sources sources start (λ x m. m) (empty-IsFiled sources) in
      let same = built_result-success (file_migrations sources start) r h in
      filed s f t e (
        ap (λ (o : MigrationRegistry V). find_by o s f t) same
        ∙ sym (find_exact_migration-find_by r s f t)
        ∙ found)
