-- ===== src/Migration/Verify/Matrix.antt =====
-- `classifyMigration` of migrations/verify-provenance.ts of packages/schema: the four verdicts.
use neko_stack.Common.{◌≡◌, ◌≢◌, refl, subst, Option, none, some, arith, eq_iff, inl, inr, ◌⊎◌, ◌↔◌}
use neko_stack.Schema.Registry.{RegistryEntry, Registry, find_schema}
use neko_stack.Migration.Types.{MigrationEntry, VerdictStatus}
use neko_stack.Migration.Verify.{classify_endpoints, classify_migration}

-- Both endpoints are there, and stand in the relation.
abbrev pub AreEndpoints :
    {N : Type 0}
    → Option (RegistryEntry N)
    → Option (RegistryEntry N)
    → (RegistryEntry N → RegistryEntry N → Type 0)
    → Type 0
AreEndpoints {N = N} from to R = (f t : RegistryEntry N) × (from ≡ some f) × (to ≡ some t) × R f t

AreEndpoints_some :
    {N : Type 0} (f t : RegistryEntry N) (R : RegistryEntry N → RegistryEntry N → Type 0)
    → AreEndpoints (some f) (some t) R
    → R f t
AreEndpoints_some f t R (f', t', same_f, same_t, r) =
    let p : f' ≡ f = ground arith in
    let q : t' ≡ t = ground arith in subst (λ x. R x t) p (subst (λ y. R f' y) q r)

module _ {N V : Type 0} where
  -- The hashes of the nodes are those that the migration was written against.
  abbrev pub IsIrCurrent : MigrationEntry V → RegistryEntry N → RegistryEntry N → Type 0
  IsIrCurrent entry from to = (entry.from_ir_hash ≡ from.ir_hash) × (entry.to_ir_hash ≡ to.ir_hash)

  -- So are those of the source texts.
  abbrev pub IsSourceCurrent : MigrationEntry V → RegistryEntry N → RegistryEntry N → Type 0
  IsSourceCurrent entry from to =
      (entry.from_source_hash ≡ from.source_hash) × (entry.to_source_hash ≡ to.source_hash)

  classify_endpoints_matrix :
      (entry : MigrationEntry V) (from to : RegistryEntry N)
      → (((classify_endpoints entry (some from) (some to)).status ≡ VerdictStatus.bound)
          ↔ (IsIrCurrent entry from to × IsSourceCurrent entry from to))
        × (((classify_endpoints entry (some from) (some to)).status ≡ VerdictStatus.cosmetic_drift)
            ↔ (IsIrCurrent entry from to × ¬ IsSourceCurrent entry from to))
        × (((classify_endpoints entry (some from) (some to)).status ≡ VerdictStatus.drift)
            ↔ (¬ IsIrCurrent entry from to))
        × ((classify_endpoints entry (some from) (some to)).status ≢ VerdictStatus.missing_endpoint)
  unfolding classify_endpoints
  classify_endpoints_matrix entry from to =
      let a = eq_iff entry.from_ir_hash from.ir_hash in
      let b = eq_iff entry.to_ir_hash to.ir_hash in
      let c = eq_iff entry.from_source_hash from.source_hash in
      let d = eq_iff entry.to_source_hash to.source_hash in
      (
        (λ h. ground (arith, a, b, c, d), λ h. ground (arith, a, b, c, d)),
        (λ h. ground (arith, a, b, c, d), λ h. ground (arith, a, b, c, d)),
        (λ h. ground (arith, a, b, c, d), λ h. ground (arith, a, b, c, d)),
        λ h. ground arith,
      )

  abbrev HasStatus :
      MigrationEntry V
      → Option (RegistryEntry N)
      → Option (RegistryEntry N)
      → VerdictStatus
      → Type 0
  HasStatus entry from to status = (classify_endpoints entry from to).status ≡ status

  classify_found_matrix :
      (entry : MigrationEntry V) (from to : Option (RegistryEntry N))
      → (HasStatus entry from to VerdictStatus.bound
          ↔ AreEndpoints from to (λ f t. IsIrCurrent entry f t × IsSourceCurrent entry f t))
        × (HasStatus entry from to VerdictStatus.cosmetic_drift
            ↔ AreEndpoints from to (λ f t. IsIrCurrent entry f t × ¬ IsSourceCurrent entry f t))
        × (HasStatus entry from to VerdictStatus.drift
            ↔ AreEndpoints from to (λ f t. ¬ IsIrCurrent entry f t))
        × (HasStatus entry from to VerdictStatus.missing_endpoint ↔ ((from ≡ none) ⊎ (to ≡ none)))
  unfolding classify_endpoints
  classify_found_matrix entry none to = (
    (λ h. cc, λ h. cc (h.2)),
    (λ h. cc, λ h. cc (h.2)),
    (λ h. cc, λ h. cc (h.2)),
    (λ h. inl refl, λ h. refl),
  )
  classify_found_matrix entry (some f) none = (
    (λ h. cc, λ h. cc (h.3)),
    (λ h. cc, λ h. cc (h.3)),
    (λ h. cc, λ h. cc (h.3)),
    (λ h. inr refl, λ h. refl),
  )
  classify_found_matrix entry (some f) (some t) =
      let (bound, cosmetic, drift, missing) = classify_endpoints_matrix entry f t in
      (
        (λ h. (f, t, refl, refl, bound.0 h), λ w. bound.1 (AreEndpoints_some f t _ w)),
        (λ h. (f, t, refl, refl, cosmetic.0 h), λ w. cosmetic.1 (AreEndpoints_some f t _ w)),
        (λ h. (f, t, refl, refl, drift.0 h), λ w. drift.1 (AreEndpoints_some f t _ w)),
        (λ h. absurd (missing h), λ h. elim h [ inl e ↦ cc | inr e ↦ cc ]),
      )

  -- The verdict on a migration: bound where both endpoints are registered and all four hashes are
  -- those of the registry, cosmetic drift where only the node hashes are, drift where a node hash is
  -- not, and missing endpoint where one of the endpoints is not registered.
  pub classify_migration_matrix :
      (entry : MigrationEntry V) (registry : Registry N)
      → let from = find_schema registry entry.schema_id entry.from_version in
        let to = find_schema registry entry.schema_id entry.to_version in
        let status = (classify_migration entry registry).status in
        ((status ≡ VerdictStatus.bound)
          ↔ AreEndpoints from to (λ f t. IsIrCurrent entry f t × IsSourceCurrent entry f t))
        × ((status ≡ VerdictStatus.cosmetic_drift)
            ↔ AreEndpoints from to (λ f t. IsIrCurrent entry f t × ¬ IsSourceCurrent entry f t))
        × ((status ≡ VerdictStatus.drift) ↔ AreEndpoints from to (λ f t. ¬ IsIrCurrent entry f t))
        × ((status ≡ VerdictStatus.missing_endpoint) ↔ ((from ≡ none) ⊎ (to ≡ none)))
  unfolding classify_migration
  classify_migration_matrix entry registry = classify_found_matrix entry _ _
