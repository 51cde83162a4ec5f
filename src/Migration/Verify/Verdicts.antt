-- ===== src/Migration/Verify/Verdicts.antt =====
-- `verifyMigrationProvenance` of migrations/verify-provenance.ts of packages/schema: the result as a
-- function of the verdicts.
use neko_stack.Common.{
  ℕ, suc, ◌+◌, ◌≡◌, refl, ap, sym, ◌∙◌, Bool, true, false, List, [], ◌∷◌, ◌++◌, map, arith,
  append-nil, append_assoc, if◌then◌else◌, In, ◌≤◌, inl, inr,
}
use neko_stack.Schema.Issues.{Issue, Result, success, failure}
use neko_stack.Schema.Registry.{Registry}
use neko_stack.Migration.Types.{
  MigrationEntry, VerdictStatus, MigrationVerdict, VerificationSummary, VerificationResult,
  MigrationVerifyOpts,
}
use neko_stack.Migration.Verify.{
  Tally, no_tally, tally_verdict, tally_entries, tally_result, is_refused, verdict_issue,
  classify_migration, iterate_registry, verify_migration_provenance,
}

-- The verdicts that make the verifier refuse.
unfoldable pub refused_verdicts : List MigrationVerdict → List MigrationVerdict
refused_verdicts [] = []
refused_verdicts (v ∷ vs) =
    let rest = refused_verdicts vs in if is_refused v.status then v ∷ rest else rest

abbrev pub same_status : VerdictStatus → VerdictStatus → Bool
same_status VerdictStatus.bound VerdictStatus.bound = true
same_status VerdictStatus.cosmetic_drift VerdictStatus.cosmetic_drift = true
same_status VerdictStatus.drift VerdictStatus.drift = true
same_status VerdictStatus.missing_endpoint VerdictStatus.missing_endpoint = true
same_status _ _ = false

-- How many verdicts have this status.
unfoldable pub count_of : VerdictStatus → List MigrationVerdict → ℕ
count_of status [] = 0
count_of status (v ∷ vs) =
    let rest = count_of status vs in if same_status v.status status then suc rest else rest

abbrev pub counts : List MigrationVerdict → VerificationSummary
counts vs = record {
  bound = count_of VerdictStatus.bound vs;
  cosmetic_drift = count_of VerdictStatus.cosmetic_drift vs;
  drift = count_of VerdictStatus.drift vs;
  missing_endpoint = count_of VerdictStatus.missing_endpoint vs;
}

pub In-refused_verdicts :
    (v : MigrationVerdict) (vs : List MigrationVerdict)
    → In v vs
    → refused_verdicts vs ≡ []
    → is_refused v.status ≡ false
unfolding refused_verdicts
In-refused_verdicts v [] h e = elim h [ ]
In-refused_verdicts v (w ∷ vs) (inl same) e = rw same (ground arith)
In-refused_verdicts v (w ∷ vs) (inr there) e = In-refused_verdicts v vs there (ground arith)

pub In-count_of :
    (v : MigrationVerdict) (vs : List MigrationVerdict) (status : VerdictStatus)
    → In v vs
    → same_status v.status status ≡ true
    → 1 ≤ count_of status vs
unfolding count_of
In-count_of v [] status h e = elim h [ ]
In-count_of v (w ∷ vs) status (inl same) e =
    let p : same_status w.status status ≡ true = rw (← same) e in ground arith
In-count_of v (w ∷ vs) status (inr there) e =
    let rest = In-count_of v vs status there e in ground arith

-- What the verifier says of a list of verdicts: the issues of those refused, in their order, or the
-- verdicts with their counts.
abbrev pub judged : List MigrationVerdict → List MigrationVerdict → Result VerificationResult
judged vs [] = success (record { verdicts = vs; summary = counts vs })
judged vs (v ∷ more) = failure (map verdict_issue (v ∷ more))

abbrev add_counts : VerificationSummary → VerificationSummary → VerificationSummary
add_counts s t = record {
  bound = s.bound + t.bound;
  cosmetic_drift = s.cosmetic_drift + t.cosmetic_drift;
  drift = s.drift + t.drift;
  missing_endpoint = s.missing_endpoint + t.missing_endpoint;
}

abbrev tally_of : Tally → List MigrationVerdict → Tally
tally_of t vs = record {
  verdicts = t.verdicts ++ vs;
  issues = t.issues ++ map verdict_issue (refused_verdicts vs);
  summary = add_counts t.summary (counts vs);
}

tally_path :
    (v v' : List MigrationVerdict) (i i' : List Issue) (b b' c c' d d' m m' : ℕ)
    → v ≡ v'
    → i ≡ i'
    → b ≡ b'
    → c ≡ c'
    → d ≡ d'
    → m ≡ m'
    → Path Tally
        (record {
          verdicts = v;
          issues = i;
          summary = record { bound = b; cosmetic_drift = c; drift = d; missing_endpoint = m };
        })
        (record {
          verdicts = v';
          issues = i';
          summary = record { bound = b'; cosmetic_drift = c'; drift = d'; missing_endpoint = m' };
        })
tally_path v v' i i' b b' c c' d d' m m' p q r s t u = cc

tally_of-nil : (t : Tally) → t ≡ tally_of t []
unfolding refused_verdicts count_of
tally_of-nil t =
    tally_path t.verdicts _ t.issues _ t.summary.bound _ t.summary.cosmetic_drift _ t.summary.drift
      _ t.summary.missing_endpoint _ (sym (append-nil _)) (sym (append-nil _)) (omega arith)
      (omega arith) (omega arith) (omega arith)

tally_of-verdict :
    (v : MigrationVerdict) (vs : List MigrationVerdict) (t : Tally)
    → tally_of (tally_verdict v t) vs ≡ tally_of t (v ∷ vs)
unfolding tally_verdict refused_verdicts count_of
tally_of-verdict v vs t =
    tally_path _ _ _ _ _ _ _ _ _ _ _ _ (append_assoc t.verdicts (v ∷ []) vs)
      (grind (arith, append_assoc)) (ground arith) (ground arith) (ground arith) (ground arith)

tally_of-no_tally :
    (vs : List MigrationVerdict)
    → tally_of no_tally vs ≡ record {
      verdicts = vs;
      issues = map verdict_issue (refused_verdicts vs);
      summary = counts vs;
    }
tally_of-no_tally vs =
    tally_path _ _ _ _ _ _ _ _ _ _ _ _ refl refl (omega arith) (omega arith) (omega arith)
      (omega arith)

tally_result-judged :
    (vs refused : List MigrationVerdict)
    → refused_verdicts vs ≡ refused
    → tally_result (tally_of no_tally vs) ≡ judged vs refused
tally_result-judged vs [] e = ap tally_result (tally_of-no_tally vs) ∙ rw e refl
tally_result-judged vs (v ∷ more) e = ap tally_result (tally_of-no_tally vs) ∙ rw e refl

module _ {N V : Type 0} where
  abbrev pub verdicts_of : Registry N → List (MigrationEntry V) → List MigrationVerdict
  verdicts_of registry = map (λ entry. classify_migration entry registry)

  tally_entries-tally_of :
      (registry : Registry N) (entries : List (MigrationEntry V)) (t : Tally)
      → tally_entries registry entries t ≡ tally_of t (verdicts_of registry entries)
  unfolding tally_entries
  tally_entries-tally_of registry [] t = tally_of-nil t
  tally_entries-tally_of registry (entry ∷ entries) t =
      tally_entries-tally_of registry entries _
      ∙ tally_of-verdict (classify_migration entry registry) (verdicts_of registry entries) t

  -- The verifier classifies every entry of the registry, in the order of the iteration. It refuses
  -- exactly where a verdict is drift or missing endpoint, with one issue for each of those in that
  -- order, and otherwise returns all verdicts and the number of verdicts of each status.
  pub verify_migration_provenance-judged :
      (opts : MigrationVerifyOpts N V)
      → let vs = verdicts_of opts.schema_registry (iterate_registry opts.migration_registry) in
        verify_migration_provenance opts ≡ judged vs (refused_verdicts vs)
  unfolding verify_migration_provenance
  verify_migration_provenance-judged opts =
      ap tally_result (
        tally_entries-tally_of opts.schema_registry (iterate_registry opts.migration_registry)
          no_tally)
      ∙ tally_result-judged _ _ refl
