-- ===== src/Schema/Registry/Build/First.antt =====
-- `buildRegistry` of registry/build-registry.ts of packages/schema, against a list of the schemas
-- that have an id.
use neko_stack.Common.{
  ℕ, ◌+◌, String, ◌≡◌, ◌≢◌, refl, sym, ap, ap₂, ◌∙◌, ◌==◌, Bool, true, ◌&&◌, Option, none, some,
  List, [], ◌∷◌, ◌++◌, arith, length, length-append, if◌then◌else◌, Bool-cases, eq_of_==, inl, inr,
  append_assoc, append-nil, subst,
}
use neko_stack.Js.JsMap.{map_or_new, JsMap, get, set, get-set, is_some}
use neko_stack.Js.JsMap.Laws.{map_or_new-set}
use neko_stack.Schema.Issues.{Issue, success, failure}
use neko_stack.Schema.Registry.{AnySchema, RegistryEntry, Registry, find_schema}
use neko_stack.Schema.Registry.Build.{
  Hashes, RegistrySourceEntry, Building, version_key, id_of, built_entry, file_at, file_built,
  file_identified, file_schema, file_schemas, file_sources, built_result, build_registry,
}

module _ {N : Type 0} where
  -- The entries for the schemas that have an id, in the order of the sources.
  unfoldable pub built_before :
      Hashes N
      → RegistrySourceEntry N
      → AnySchema N
      → Option String
      → List (RegistryEntry N)
      → List (RegistryEntry N)
  built_before hashes entry schema none rest = rest
  built_before hashes entry schema (some id) rest = built_entry hashes entry id schema ∷ rest

  unfoldable pub built_of_schemas :
      Hashes N → RegistrySourceEntry N → List (AnySchema N) → List (RegistryEntry N)
  unfolding built_before
  built_of_schemas hashes entry [] = []
  built_of_schemas hashes entry (schema ∷ schemas) =
      built_before hashes entry schema (id_of schema) (built_of_schemas hashes entry schemas)

  unfoldable pub built_of : Hashes N → List (RegistrySourceEntry N) → List (RegistryEntry N)
  unfolding built_of_schemas
  built_of hashes [] = []
  built_of hashes (entry ∷ entries) =
      built_of_schemas hashes entry entry.schemas ++ built_of hashes entries

  abbrev pub is_under : String → String → RegistryEntry N → Bool
  is_under i k b = (b.schema_id == i) && (version_key b.schema_version == k)

  -- The first entry under an id and a version.
  unfoldable pub first_under : String → String → List (RegistryEntry N) → Option (RegistryEntry N)
  first_under i k [] = none
  first_under i k (b ∷ bs) = if is_under i k b then some b else first_under i k bs

  -- How many entries stand behind another one under their id and version.
  unfoldable pub repeats : (seen bs : List (RegistryEntry N)) → ℕ
  unfolding first_under
  repeats seen [] = 0
  repeats seen (b ∷ bs) =
      (if is_some (first_under b.schema_id (version_key b.schema_version) seen) then 1 else 0)
      + repeats (seen ++ b ∷ []) bs

  file_all : List (RegistryEntry N) → Building N → Building N
  file_all [] s = s
  file_all (b ∷ bs) s = file_all bs (file_built b s)

  file_all-append :
      (bs cs : List (RegistryEntry N)) (s : Building N)
      → file_all (bs ++ cs) s ≡ file_all cs (file_all bs s)
  unfolding file_all
  file_all-append [] cs s = refl
  file_all-append (b ∷ bs) cs s = file_all-append bs cs (file_built b s)

  file_schemas-built :
      (hashes : Hashes N) (entry : RegistrySourceEntry N) (schemas : List (AnySchema N))
      (s : Building N)
      → file_schemas hashes entry schemas s ≡ file_all (built_of_schemas hashes entry schemas) s
  unfolding file_schemas file_all built_of_schemas built_before file_schema file_identified
  file_schemas-built hashes entry [] s = refl
  file_schemas-built hashes entry (schema ∷ schemas) s =
      file_schemas-built hashes entry schemas (file_schema hashes entry schema s)
      ∙ identified (id_of schema)
    where
      identified :
          (o : Option String)
          → file_all
              (built_of_schemas hashes entry schemas)
              (file_identified hashes entry schema o s)
            ≡ file_all
                (built_before hashes entry schema o (built_of_schemas hashes entry schemas))
                s
      identified none = refl
      identified (some id) = refl

  file_sources-built :
      (hashes : Hashes N) (entries : List (RegistrySourceEntry N)) (s : Building N)
      → file_sources hashes entries s ≡ file_all (built_of hashes entries) s
  unfolding file_sources file_all built_of
  file_sources-built hashes [] s = refl
  file_sources-built hashes (entry ∷ entries) s =
      file_sources-built hashes entries (file_schemas hashes entry entry.schemas s)
      ∙ ap (file_all (built_of hashes entries)) (file_schemas-built hashes entry entry.schemas s)
      ∙ sym (
          file_all-append (built_of_schemas hashes entry entry.schemas) (built_of hashes entries) s)

  abbrev at : Registry N → String → String → Option (RegistryEntry N)
  unfolding get
  at r i k = get k (map_or_new (get i r))

  find_schema-at : (r : Registry N) (i k : String) → find_schema r i k ≡ at r i k
  unfolding find_schema get
  find_schema-at r i k = inner (get i r)
    where
      inner :
          (o : Option (JsMap (RegistryEntry N)))
          → (elim o as (λ x. Option (RegistryEntry N)) [ none ↦ none | some m ↦ get k m ])
            ≡ get k (map_or_new o)
      inner none = refl
      inner (some m) = refl

  first_under-append :
      (i k : String) (bs : List (RegistryEntry N)) (b : RegistryEntry N)
      → first_under i k (bs ++ b ∷ []) ≡ (
          if is_some (first_under i k bs)
          then first_under i k bs
          else if is_under i k b
          then some b
          else none)
  unfolding first_under
  first_under-append i k [] b = refl
  first_under-append i k (c ∷ bs) b = ground (arith, first_under-append i k bs b)

  if_kept : (o : Option (RegistryEntry N)) → o ≡ (if is_some o then o else none)
  if_kept none = refl
  if_kept (some b) = refl

  under_eq :
      (i k : String) (b : RegistryEntry N)
      → is_under i k b ≡ true
      → (b.schema_id ≡ i) × (version_key b.schema_version ≡ k)
  under_eq i k b h = (
    eq_of_== b.schema_id i (ground arith),
    eq_of_== (version_key b.schema_version) k (ground arith),
  )

  at-file_built :
      (b : RegistryEntry N) (s : Building N) (i k : String)
      → at (file_built b s).out i k
        ≡ (if is_some (at s.out i k) then at s.out i k else if is_under i k b then some b else none)
  unfolding file_built
  at-file_built b s i k = filed (at s.out b.schema_id (version_key b.schema_version)) refl
    where
      filed :
          (o : Option (RegistryEntry N))
          → at s.out b.schema_id (version_key b.schema_version) ≡ o
          → at (file_at o b s).out i k ≡ (
              if is_some (at s.out i k)
              then at s.out i k
              else if is_under i k b
              then some b
              else none)
      filed (some existing) h = elim (Bool-cases (is_under i k b)) [
        | inl y ↦
            let (p, q) = under_eq i k b y in
            let there : at s.out i k ≡ some existing = ap₂ (at s.out) (sym p) (sym q) ∙ h in
            rw (there) refl
        | inr n ↦ rw n (if_kept (at s.out i k))
      ]
      filed none h =
          ap (get k) (map_or_new-set b.schema_id i (set (version_key b.schema_version) b) s.out)
          ∙ elim (Bool-cases (b.schema_id == i)) [
            | inl y ↦
                let p : b.schema_id ≡ i = eq_of_== b.schema_id i y in
                rw y (
                  get-set (version_key b.schema_version) k b (map_or_new (get i s.out))
                  ∙ elim (Bool-cases (version_key b.schema_version == k)) [
                    | inl z ↦
                        let q : version_key b.schema_version ≡ k = eq_of_== _ k z in
                        let gone : at s.out i k ≡ none = ap₂ (at s.out) (sym p) (sym q) ∙ h in
                        rw (z, gone) refl
                    | inr z ↦ rw z (if_kept (at s.out i k))
                  ])
            | inr n ↦ rw n (if_kept (at s.out i k))
          ]

  length-file_built :
      (b : RegistryEntry N) (s : Building N)
      → length (file_built b s).duplicates
        ≡ length s.duplicates
          + (if is_some (at s.out b.schema_id (version_key b.schema_version)) then 1 else 0)
  unfolding file_built
  length-file_built b s = filed (at s.out b.schema_id (version_key b.schema_version))
    where
      filed :
          (o : Option (RegistryEntry N))
          → length (file_at o b s).duplicates ≡ length s.duplicates + (if is_some o then 1 else 0)
      filed (some existing) = length-append s.duplicates _
      filed none = omega arith

  abbrev DoesAgree : List (RegistryEntry N) → Building N → Type 0
  DoesAgree seen s = (i k : String) → at s.out i k ≡ first_under i k seen

  file_built-DoesAgree :
      (seen : List (RegistryEntry N)) (b : RegistryEntry N) (s : Building N)
      → DoesAgree seen s
      → DoesAgree (seen ++ b ∷ []) (file_built b s)
  file_built-DoesAgree seen b s h i k =
      at-file_built b s i k
      ∙ ap
          (λ (o : Option (RegistryEntry N)).
            if is_some o then o else if is_under i k b then some b else none)
          (h i k)
      ∙ sym (first_under-append i k seen b)

  file_all-first :
      (bs seen : List (RegistryEntry N)) (s : Building N)
      → DoesAgree seen s
      → DoesAgree (seen ++ bs) (file_all bs s)
        × (length (file_all bs s).duplicates ≡ length s.duplicates + repeats seen bs)
  unfolding file_all repeats
  file_all-first [] seen s h = (rw append-nil h, omega arith)
  file_all-first (b ∷ bs) seen s h =
      let (agrees, counted) =
        file_all-first bs (seen ++ b ∷ []) (file_built b s) (file_built-DoesAgree seen b s h) in
      (
        subst (λ (l : List (RegistryEntry N)). DoesAgree l (file_all bs (file_built b s)))
            (append_assoc seen (b ∷ []) bs) agrees,
        omega (
          arith,
          counted,
          length-file_built b s,
          ap (λ (o : Option (RegistryEntry N)). if is_some o then (◌+◌ 0 1) else 0)
              (h b.schema_id (version_key b.schema_version)),
        ),
      )

  empty_agrees : DoesAgree [] (record { out = []; duplicates = [] })
  unfolding get first_under
  empty_agrees i k = refl

  built_result-cases :
      (s : Building N)
      → (length s.duplicates ≡ 0 → built_result s ≡ success s.out)
        × (length s.duplicates ≢ 0 → built_result s ≡ failure s.duplicates)
  built_result-cases s = go s.duplicates
    where
      go :
          (ds : List Issue)
          → (length ds ≡ 0 → built_result (record s { duplicates = ds }) ≡ success s.out)
            × (length ds ≢ 0 → built_result (record s { duplicates = ds }) ≡ failure ds)
      go [] = (λ e. refl, λ n. absurd (n refl))
      go (d ∷ ds) = (λ e. absurd (omega (arith, e)), λ n. refl)

  -- Where no id and version occurs twice among the schemas, a registry is built, and a lookup in it
  -- finds the schema under that id and version. Otherwise the build fails, with one issue for each
  -- schema that stands behind another one under its id and version.
  pub build_registry_lem :
      (hashes : Hashes N) (entries : List (RegistrySourceEntry N))
      → (repeats [] (built_of hashes entries) ≡ 0
          → (r : Registry N) × (build_registry hashes entries ≡ success r)
            × ((i k : String) → find_schema r i k ≡ first_under i k (built_of hashes entries)))
        × (repeats [] (built_of hashes entries) ≢ 0
            → (issues : List Issue) × (build_registry hashes entries ≡ failure issues)
              × (length issues ≡ repeats [] (built_of hashes entries)))
  unfolding build_registry first_under
  build_registry_lem hashes entries =
      let start : Building N = record { out = []; duplicates = [] } in
      let bs = built_of hashes entries in
      let s = file_sources hashes entries start in
      let same : s ≡ file_all bs start = file_sources-built hashes entries start in
      let (agrees, counted) = file_all-first bs [] start empty_agrees in
      let (good, bad) = built_result-cases s in
      let count : length s.duplicates ≡ repeats [] bs =
        omega (arith, ap (λ (t : Building N). length t.duplicates) same, counted) in
      (
        λ e. (
          s.out,
          good (count ∙ e),
          λ i k. find_schema-at s.out i k ∙ ap (λ (t : Building N). at t.out i k) same ∙ agrees i k,
        ),
        λ n. (s.duplicates, bad (λ e. n (sym count ∙ e)), count),
      )
