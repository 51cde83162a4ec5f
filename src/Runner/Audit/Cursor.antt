-- ===== src/Runner/Audit/Cursor.antt =====
-- The in-memory adapter of audit.ts and the skip set of runner.ts, of packages/migrate-runner: what a
-- resumed run skips.
use neko_stack.Common.{
  ℕ, String, ◌≡◌, refl, sym, ap, subst, Bool, true, ◌&&◌, List, [], ◌∷◌, ◌==◌, eq_iff, arith, inl,
  inr, ◌↔◌, In, Bool-cases,
}
use neko_stack.Runner.Types.{AuditStatus, AuditEntry}
use neko_stack.Runner.Audit.{is_success, memory_cursor}
use neko_stack.Runner.Loop.{skips}

skips-In : (i : ℕ) (js : List ℕ) → (skips i js ≡ true) ↔ In i js
unfolding skips
skips-In i [] = (λ h. cc, λ h. elim h [ ])
skips-In i (j ∷ js) =
    let rest = skips-In i js in (λ h. ground (arith, rest), λ h. ground (arith, rest))

is_success_iff : (s : AuditStatus) → (is_success s ≡ true) ↔ (s ≡ AuditStatus.success)
is_success_iff AuditStatus.success = (λ h. refl, λ h. refl)
is_success_iff AuditStatus.failure = (λ h. cc, λ h. cc)

module _ {V : Type 0} where
  abbrev counts_for : String → AuditEntry V → Bool
  counts_for run_id e = (e.run_id == run_id) && is_success e.status

  counts_for_iff :
      (run_id : String) (e : AuditEntry V)
      → (counts_for run_id e ≡ true) ↔ ((e.run_id ≡ run_id) × (e.status ≡ AuditStatus.success))
  counts_for_iff run_id e = (
    λ h. ground (arith, eq_iff e.run_id run_id, is_success_iff e.status),
    λ h. ground (arith, eq_iff e.run_id run_id, is_success_iff e.status),
  )

  In-memory_cursor :
      (i : ℕ) (run_id : String) (store : List (AuditEntry V))
      → In i (memory_cursor run_id store)
      → (e : AuditEntry V) × In e store
        × (e.run_id ≡ run_id)
        × (e.status ≡ AuditStatus.success)
        × (e.record_index ≡ i)
  unfolding memory_cursor
  In-memory_cursor i run_id [] h = elim h [ ]
  In-memory_cursor i run_id (e ∷ store) h = elim (Bool-cases (counts_for run_id e)) [
    | inl used ↦ elim (rw (used, memory_cursor) at h) [
      | inl same ↦
          let (of_run, good) = (counts_for_iff run_id e).0 used in
          (e, inl refl, of_run, good, sym same)
      | inr later ↦
          let (d, m, of_run, good, at) = In-memory_cursor i run_id store later in
          (d, inr m, of_run, good, at)
    ]
    | inr unused ↦
        let (d, m, of_run, good, at) =
          In-memory_cursor i run_id store (rw (unused, memory_cursor) at h) in
        (d, inr m, of_run, good, at)
  ]

  memory_cursor-In :
      (e : AuditEntry V) (run_id : String) (store : List (AuditEntry V))
      → In e store
      → e.run_id ≡ run_id
      → e.status ≡ AuditStatus.success
      → In e.record_index (memory_cursor run_id store)
  unfolding memory_cursor
  memory_cursor-In e run_id [] m of_run good = elim m [ ]
  memory_cursor-In e run_id (d ∷ store) (inl same) of_run good =
      let used : counts_for run_id d ≡ true =
        subst (λ x. counts_for run_id x ≡ true) same ((counts_for_iff run_id e).1 (of_run, good)) in
      rw (used, memory_cursor) (inl (ap (λ x. x.record_index) same))
  memory_cursor-In e run_id (d ∷ store) (inr there) of_run good =
      let later = memory_cursor-In e run_id store there of_run good in
      elim (Bool-cases (counts_for run_id d)) [
        | inl used ↦ rw (used, memory_cursor) (inr later)
        | inr unused ↦ rw (unused, memory_cursor) later
      ]

  -- A run that is resumed on the in-memory adapter skips the record of an index exactly where an
  -- entry of the store has its run id, says success, and has that index.
  pub skips-memory_cursor_iff :
      (i : ℕ) (run_id : String) (store : List (AuditEntry V))
      → (skips i (memory_cursor run_id store) ≡ true) ↔ (
          (e : AuditEntry V) × In e store
          × (e.run_id ≡ run_id)
          × (e.status ≡ AuditStatus.success)
          × (e.record_index ≡ i))
  skips-memory_cursor_iff i run_id store = (
    λ h. In-memory_cursor i run_id store ((skips-In i (memory_cursor run_id store)).0 h),
    λ w.
        let (e, m, of_run, good, at) = w in
        (skips-In i (memory_cursor run_id store)).1 (
          subst (λ j. In j (memory_cursor run_id store)) at
            (memory_cursor-In e run_id store m of_run good)),
  )
