-- ===== src/Schema/Diff/Severity.antt =====
-- `computeWorstSeverity` of registry/handlers/diff.ts and plan-migration.ts of packages/schema.
use neko_stack.Common.{
  ℕ, ◌≤◌, ◌∙◌, sym, subst, ◌≡◌, ◌↔◌, refl, ◌⊎◌, inl, inr, none, some, List, [], ◌∷◌, arith, All, In,
  ltb, if◌then◌else◌,
}
use neko_stack.Schema.Diff.Changes.{
  DiffSeverity, cosmetic, DiffChange, severity_rank, worst_from, compute_worst_severity,
}

abbrev worse : DiffSeverity → DiffSeverity → DiffSeverity
worse w c = if ltb (severity_rank w) (severity_rank c) then c else w

cosmetic_of_rank : (s : DiffSeverity) → severity_rank s ≤ 0 → s ≡ cosmetic
cosmetic_of_rank s h = ground arith

module _ {N : Type 0} where
  abbrev pub IsAtMost : DiffSeverity → DiffChange N → Type 0
  IsAtMost worst c = severity_rank c.severity ≤ severity_rank worst

  -- Some change of the list has this severity.
  abbrev pub Occurs : DiffSeverity → List (DiffChange N) → Type 0
  Occurs worst changes = (c : DiffChange N) × In c changes × (c.severity ≡ worst)

  worst_from_bounds :
      (w : DiffSeverity) (changes : List (DiffChange N))
      → (severity_rank w ≤ severity_rank (worst_from w changes))
        × All (IsAtMost (worst_from w changes)) changes
  unfolding worst_from
  worst_from_bounds w [] = (omega arith, tt)
  worst_from_bounds w (c ∷ changes) =
      let (above, all) = worst_from_bounds (worse w c.severity) changes in
      (lower w c.severity above, (upper w c.severity above, all))
    where
      lower : (v s : DiffSeverity) {r : ℕ} → severity_rank (worse v s) ≤ r → severity_rank v ≤ r
      lower v s h = ground arith

      upper : (v s : DiffSeverity) {r : ℕ} → severity_rank (worse v s) ≤ r → severity_rank s ≤ r
      upper v s h = ground arith

  worst_from-Occurs :
      (w : DiffSeverity) (changes : List (DiffChange N))
      → (worst_from w changes ≡ w) ⊎ Occurs (worst_from w changes) changes
  unfolding worst_from
  worst_from-Occurs w [] = inl refl
  worst_from-Occurs w (c ∷ changes) = elim (worst_from-Occurs (worse w c.severity) changes) [
    | inr (d, m, e) ↦ inr (d, inr m, e)
    | inl e ↦ elim (choice w c.severity) [
      | inl kept ↦ inl (e ∙ kept)
      | inr taken ↦ inr (c, inl refl, sym (e ∙ taken))
    ]
  ]
    where
      choice : (v s : DiffSeverity) → (worse v s ≡ v) ⊎ (worse v s ≡ s)
      choice v s = ground arith

  -- There is no worst severity exactly when there is no change; otherwise it is the severity of one
  -- of the changes, and no change has a higher rank.
  pub compute_worst_severity_max :
      (changes : List (DiffChange N))
      → ((compute_worst_severity changes ≡ none) ↔ (changes ≡ []))
        × ((worst : DiffSeverity)
            → compute_worst_severity changes ≡ some worst
            → Occurs worst changes × All (IsAtMost worst) changes)
  unfolding compute_worst_severity
  compute_worst_severity_max [] = ((λ h. refl, λ h. refl), λ worst h. cc)
  compute_worst_severity_max (c ∷ changes) = (
    (λ h. cc, λ h. cc),
    λ worst h.
        let e : worst_from cosmetic (c ∷ changes) ≡ worst = cc in
        subst (λ w. Occurs w (c ∷ changes) × All (IsAtMost w) (c ∷ changes)) e (occurs, bounds.1),
  )
    where
      bounds :
          (severity_rank cosmetic ≤ severity_rank (worst_from cosmetic (c ∷ changes)))
          × All (IsAtMost (worst_from cosmetic (c ∷ changes))) (c ∷ changes)
      bounds = worst_from_bounds cosmetic (c ∷ changes)

      occurs : Occurs (worst_from cosmetic (c ∷ changes)) (c ∷ changes)
      occurs = elim (worst_from-Occurs cosmetic (c ∷ changes)) [
        | inr found ↦ found
        | inl e ↦ (
          c,
          inl refl,
          cosmetic_of_rank c.severity
                (subst (λ w. severity_rank c.severity ≤ severity_rank w) e bounds.1.0)
              ∙ sym e,
        )
      ]
