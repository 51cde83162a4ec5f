-- ===== src/Runner/Pipeline/Migrated.antt =====
-- per-record-pipeline.ts of packages/migrate-runner: the records that are migrated, without the
-- clock.
use neko_stack.Common.{
  ℕ, ◌+◌, String, ◌≡◌, refl, ap, ◌∙◌, subst, Option, none, some, List, [], ◌∷◌, arith, inl, inr,
  ◌⊎◌, ◌↔◌, Option-cases, Bool-cases,
}
use neko_stack.Js.Throws.{Cause, Outcome, returned, threw, ◌>>=◌}
use neko_stack.Schema.Issues.{Result}
use neko_stack.Schema.Registry.{Registry, RegistryEntry, find_schema}
use neko_stack.Schema.Runtime.{Validator, safe_parse}
use neko_stack.Migration.Types.{MigrationEntry}
use neko_stack.Runner.Types.{Host, PipelineResult, migrated}
use neko_stack.Runner.Pipeline.{
  Walked, reached, broke, is_over, settle_transform, run_transform, run_chain, last_hop,
  check_output, output_result, run_validated, after_input_check, after_source_lookup,
  run_record_pipeline,
}

-- Each transform of the chain returns, and the next one takes what it returned.
abbrev pub IsTransformed : {V : Type 0} → List (MigrationEntry V) → V → V → Type 0
IsTransformed [] x y = x ≡ y
IsTransformed {V = V} (entry ∷ chain) x y =
    (z : V) × (entry.migration.transform x ≡ returned z) × IsTransformed chain z y

-- The record is accepted by the source schema, the chain transforms what that gave, and the
-- destination schema accepts what the chain gave.
abbrev pub IsMigrated :
    {N V E : Type 0}
    → Validator N V E
    → Registry N
    → MigrationEntry V
    → List (MigrationEntry V)
    → V
    → V
    → Type 0
IsMigrated {N = N} {V = V} validator registry first chain input output =
    let last = last_hop first chain in
    (source dest : RegistryEntry N) × (value raw : V) × (find_schema registry first.schema_id
        first.from_version
      ≡ some source)
    × (safe_parse validator source.schema input ≡ returned (Result.success value))
    × IsTransformed (first ∷ chain) value raw
    × (find_schema registry last.schema_id last.to_version ≡ some dest)
    × (safe_parse validator dest.schema raw ≡ returned (Result.success output))

Outcome-cases :
    {A : Type 0} (o : Outcome A) → ((a : A) × (o ≡ returned a)) ⊎ ((c : Cause) × (o ≡ threw c))
Outcome-cases (returned a) = inl (a, refl)
Outcome-cases (threw c) = inr (c, refl)

Walked-cases :
    {V : Type 0} (s : Walked V)
    → ((x : V) × (s ≡ reached x)) ⊎ ((f : PipelineResult V) × (s ≡ broke f))
Walked-cases (reached x) = inl (x, refl)
Walked-cases (broke f) = inr (f, refl)

settle_transform_reached :
    {V : Type 0} (timeout : Option ℕ) (i elapsed : ℕ) (z y : V)
    → settle_transform timeout i elapsed (returned z) ≡ reached y
    → z ≡ y
unfolding settle_transform
settle_transform_reached timeout i elapsed z y h = elim (Bool-cases (is_over timeout elapsed)) [
  | inl over ↦ cc (rw (over, settle_transform) at h)
  | inr within ↦ let e : reached z ≡ reached y = rw (within, settle_transform) at h in ground arith
]

settle_transform_broke :
    {V : Type 0} (timeout : Option ℕ) (i elapsed : ℕ) (o : Outcome V) (y : V)
    → settle_transform timeout i elapsed o ≡ broke (migrated y)
    → ⊥
unfolding settle_transform
settle_transform_broke timeout i elapsed (threw cause) y h = cc
settle_transform_broke timeout i elapsed (returned z) y h =
    elim (Bool-cases (is_over timeout elapsed)) [
      | inl over ↦ cc (rw (over, settle_transform) at h)
      | inr within ↦ cc (rw (within, settle_transform) at h)
    ]

module _ {V W : Type 0} where
  run_transform_broke :
      (host : Host V W) (timeout : Option ℕ) (i : ℕ) (entry : MigrationEntry V) (x y : V) (w : W)
      → (run_transform host timeout i entry x w).0 ≡ broke (migrated y)
      → ⊥
  unfolding run_transform
  run_transform_broke host timeout i entry x y w h =
      elim (Outcome-cases (entry.migration.transform x)) [
        | inr (c, e) ↦ settle_transform_broke timeout i 0 (threw c) y (rw (e, run_transform) at h)
        | inl (z, e) ↦
            settle_transform_broke timeout i _ (returned z) y (rw (e, run_transform) at h)
      ]

  run_chain_broke :
      (host : Host V W) (timeout : Option ℕ) (i : ℕ) (chain : List (MigrationEntry V)) (x y : V)
      (w : W)
      → (run_chain host timeout i chain x w).0 ≡ broke (migrated y)
      → ⊥
  unfolding run_chain
  run_chain_broke host timeout i [] x y w h = cc
  run_chain_broke host timeout i (entry ∷ chain) x y w h =
      elim (Walked-cases (run_transform host timeout i entry x w).0) [
        | inr (f, e) ↦ run_transform_broke host timeout i entry x y w (e ∙ (rw (e, run_chain) at h))
        | inl (z, e) ↦
            run_chain_broke host timeout (i + 1) chain z y
              (run_transform host timeout i entry x w).1 (rw (e, run_chain) at h)
      ]

  run_transform_reached :
      (host : Host V W) (timeout : Option ℕ) (i : ℕ) (entry : MigrationEntry V) (x y : V) (w : W)
      → (run_transform host timeout i entry x w).0 ≡ reached y
      → entry.migration.transform x ≡ returned y
  unfolding run_transform settle_transform
  run_transform_reached host timeout i entry x y w h =
      elim (Outcome-cases (entry.migration.transform x)) [
        | inr (c, e) ↦ cc (rw (e, run_transform) at h)
        | inl (z, e) ↦
            e ∙ ap returned (settle_transform_reached timeout i _ z y (rw (e, run_transform) at h))
      ]

  run_chain_reached :
      (host : Host V W) (timeout : Option ℕ) (i : ℕ) (chain : List (MigrationEntry V)) (x y : V)
      (w : W)
      → (run_chain host timeout i chain x w).0 ≡ reached y
      → IsTransformed chain x y
  unfolding run_chain
  run_chain_reached host timeout i [] x y w h = ground arith
  run_chain_reached host timeout i (entry ∷ chain) x y w h =
      elim (Walked-cases (run_transform host timeout i entry x w).0) [
        | inr (f, e) ↦ cc (rw (e, run_chain) at h)
        | inl (z, e) ↦ (
          z,
          run_transform_reached host timeout i entry x z w e,
          run_chain_reached host timeout (i + 1) chain z y
              (run_transform host timeout i entry x w).1 (rw (e, run_chain) at h),
        )
      ]

  run_transform_returned :
      (host : Host V W) (i : ℕ) (entry : MigrationEntry V) (x y : V) (w : W)
      → entry.migration.transform x ≡ returned y
      → (run_transform host none i entry x w).0 ≡ reached y
  unfolding run_transform settle_transform
  run_transform_returned host i entry x y w e = rw (e, run_transform) refl

  IsTransformed-run_chain :
      (host : Host V W) (i : ℕ) (chain : List (MigrationEntry V)) (x y : V) (w : W)
      → IsTransformed chain x y
      → (run_chain host none i chain x w).0 ≡ reached y
  unfolding run_chain
  IsTransformed-run_chain host i [] x y w e = ap reached e
  IsTransformed-run_chain host i (entry ∷ chain) x y w (z, here, later) =
      rw (run_transform_returned host i entry x z w here, run_chain)
        (IsTransformed-run_chain host (i + 1) chain z y (run_transform host none i entry x w).1
          later)

-- The destination schema is registered and accepts the value.
abbrev IsAccepted : {N V E : Type 0} → Validator N V E → Option (RegistryEntry N) → V → V → Type 0
IsAccepted {N = N} validator found raw output =
    (dest : RegistryEntry N) × (found ≡ some dest)
    × (safe_parse validator dest.schema raw ≡ returned (Result.success output))

output_result_migrated :
    {V : Type 0} (schema_id version : String) (n : ℕ) (o : Outcome (Result V)) (output : V)
    → (o >>= λ checked. returned (output_result schema_id version n checked))
      ≡ returned (migrated output)
    → o ≡ returned (Result.success output)
unfolding output_result
output_result_migrated schema_id version n (threw cause) output h = cc
output_result_migrated schema_id version n (returned (Result.failure issues)) output h = cc
output_result_migrated schema_id version n (returned (Result.success y)) output h =
    let e : y ≡ output = ground arith in ap (λ x. returned (Result.success x)) e

module _ {N V E : Type 0} (validator : Validator N V E) where
  check_output_migrated :
      (found : Option (RegistryEntry N)) (schema_id version : String) (n : ℕ) (raw output : V)
      → (check_output validator found schema_id version n raw ≡ returned (migrated output))
        ↔ IsAccepted validator found raw output
  unfolding check_output
  check_output_migrated none schema_id version n raw output = (λ h. cc, λ h. cc (h.1))
  check_output_migrated (some dest) schema_id version n raw output = (
    λ h. (
      dest,
      refl,
      output_result_migrated schema_id version n (safe_parse validator dest.schema raw) output h,
    ),
    λ w.
        let (d, found, accepted) = w in
        let p : d ≡ dest = ground arith in
        rw
          (subst (λ x. safe_parse validator x.schema raw ≡ returned (Result.success output)) p
            accepted)
          refl,
  )

module _ {N V W E : Type 0} (host : Host V W) (validator : Validator N V E)
    (registry : Registry N) where
  -- A validated value goes through the chain and the output check.
  abbrev IsCarried : MigrationEntry V → List (MigrationEntry V) → V → V → Type 0
  IsCarried first chain value output =
      let last = last_hop first chain in
      (raw : V) × IsTransformed (first ∷ chain) value raw
      × IsAccepted validator (find_schema registry last.schema_id last.to_version) raw output

  run_validated_migrated :
      (timeout : Option ℕ) (first : MigrationEntry V) (chain : List (MigrationEntry V))
      (value output : V) (w : W)
      → (run_validated host validator registry timeout first chain value w).0
        ≡ returned (migrated output)
      → IsCarried first chain value output
  unfolding run_validated
  run_validated_migrated timeout first chain value output w h =
      elim (Walked-cases (run_chain host timeout 0 (first ∷ chain) value w).0) [
        | inr (f, e) ↦
            let same : returned f ≡ returned (migrated output) = rw (e, run_validated) at h in
            let is_migrated : f ≡ migrated output = ground arith in
            absurd (
              run_chain_broke host timeout 0 (first ∷ chain) value output w
                (e ∙ ap broke is_migrated))
        | inl (raw, e) ↦ (
          raw,
          run_chain_reached host timeout 0 (first ∷ chain) value raw w e,
          (check_output_migrated validator _ _ _ _ raw output).0 (rw (e, run_validated) at h),
        )
      ]

  IsCarried-run_validated :
      (first : MigrationEntry V) (chain : List (MigrationEntry V)) (value output : V) (w : W)
      → IsCarried first chain value output
      → (run_validated host validator registry none first chain value w).0
        ≡ returned (migrated output)
  unfolding run_validated
  IsCarried-run_validated first chain value output w (raw, transformed, accepted) =
      rw (IsTransformed-run_chain host 0 (first ∷ chain) value raw w transformed, run_validated)
        ((check_output_migrated validator _ _ _ _ raw output).1 accepted)

  -- A record that comes out of the pipeline migrated was accepted by the source schema, went through
  -- every transform of the chain in order, and what came out was accepted by the destination schema,
  -- which gave the output.
  pub run_record_pipeline-IsMigrated :
      (timeout : Option ℕ) (first : MigrationEntry V) (chain : List (MigrationEntry V))
      (input output : V) (w : W)
      → (run_record_pipeline host validator registry timeout first chain input w).0
        ≡ returned (migrated output)
      → IsMigrated validator registry first chain input output
  unfolding run_record_pipeline after_source_lookup after_input_check
  run_record_pipeline-IsMigrated timeout first chain input output w h =
      elim (Option-cases (find_schema registry first.schema_id first.from_version)) [
        | inl nothing ↦ cc (rw (nothing, run_record_pipeline) at h)
        | inr (source, found) ↦
            let (value, accepted, (raw, transformed, (dest, there, out))) =
              checked source (safe_parse validator source.schema input) refl
                (rw (found, run_record_pipeline) at h) in
            (source, dest, value, raw, found, accepted, transformed, there, out)
      ]
    where
      checked :
          (source : RegistryEntry N) (o : Outcome (Result V))
          → safe_parse validator source.schema input ≡ o
          → (after_input_check host validator registry timeout first chain o w).0
            ≡ returned (migrated output)
          → (value : V) × (safe_parse validator source.schema input
              ≡ returned (Result.success value))
            × IsCarried first chain value output
      checked source (threw cause) e k = cc
      checked source (returned (Result.failure issues)) e k = cc
      checked source (returned (Result.success value)) e k =
          (value, e, run_validated_migrated timeout first chain value output w k)

  -- Without a time budget, every record that the schemas accept and the transforms carry comes out
  -- of the pipeline migrated.
  pub IsMigrated-run_record_pipeline :
      (first : MigrationEntry V) (chain : List (MigrationEntry V)) (input output : V) (w : W)
      → IsMigrated validator registry first chain input output
      → (run_record_pipeline host validator registry none first chain input w).0
        ≡ returned (migrated output)
  unfolding run_record_pipeline after_source_lookup after_input_check
  IsMigrated-run_record_pipeline first chain input output w
        (source, dest, value, raw, found, accepted, transformed, there, out) =
      rw (found, run_record_pipeline, accepted)
        (IsCarried-run_validated first chain value output w (raw, transformed, (dest, there, out)))
