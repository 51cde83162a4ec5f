-- ===== src/Schema/Check/Verdicts.antt =====
-- The verdicts of registry/handlers/check.ts of packages/schema.
use neko_stack.Common.{
  String, ◌≡◌, ◌≢◌, ◌↔◌, ◌⊎◌, refl, sym, ap, ◌∙◌, eq_iff, Bool, true, false, Option, none, some,
  List, [], ◌∷◌, ◌++◌, All, map, arith, if◌then◌else◌, append_assoc, append-nil,
}
use neko_stack.Js.Json.{JsNumber}
use neko_stack.Js.JsMap.{has}
use neko_stack.Schema.Issues.{Issue, Result, success, failure}
use neko_stack.Schema.Registry.{Registry, RegistryEntry, find_schema}
use neko_stack.Schema.Provenance.{ParsedProvenance, ParsedJson, parse_provenance_from_text}
use neko_stack.Schema.Check.{
  clean, cosmetic_drift, stale, integrity_error, FreshnessVerdict, CommittedArtifact,
  Classification, verdict, issues, version_key, version_not_found_issue, artifact_schema_not_found,
  status_for, verdict_for, classify_identified, classify_parsed, classify_artifact, Checking,
  checked_result, with_classification, check_artifacts, check_handler,
}
use neko_stack.Schema.Check.Issues.{has_issue, parse_provenance_from_text-issue}

module _ {N : Type 0} where
  -- An artifact is clean exactly where its IR hash is the schema's and its source hash is too, or is
  -- not recorded; it is an integrity error exactly where the source hash is recorded and the
  -- schema's, but the IR hash is another; and it has cosmetic drift exactly where the IR hash is the
  -- schema's and another source hash is recorded.
  pub status_for_matrix :
      (ir_hash : String) (source_hash : Option String) (entry : RegistryEntry N)
      → ((status_for ir_hash source_hash entry ≡ clean) ↔ (
          (ir_hash ≡ entry.ir_hash)
          × ((source_hash ≡ none) ⊎ (source_hash ≡ some entry.source_hash))))
        × ((status_for ir_hash source_hash entry ≡ integrity_error)
            ↔ ((ir_hash ≢ entry.ir_hash) × (source_hash ≡ some entry.source_hash)))
        × ((status_for ir_hash source_hash entry ≡ cosmetic_drift) ↔ (
            (ir_hash ≡ entry.ir_hash)
            × (source_hash ≢ none)
            × (source_hash ≢ some entry.source_hash)))
  unfolding status_for
  status_for_matrix ir_hash none entry = ground (arith, eq_iff ir_hash entry.ir_hash)
  status_for_matrix ir_hash (some source) entry =
      ground (arith, eq_iff ir_hash entry.ir_hash, eq_iff source entry.source_hash)

  status_for-stale :
      (ir_hash : String) (source_hash : Option String) (entry : RegistryEntry N)
      → (status_for ir_hash source_hash entry ≡ stale)
        ↔ ((ir_hash ≢ entry.ir_hash) × (source_hash ≢ some entry.source_hash))
  unfolding status_for
  status_for-stale ir_hash none entry = ground (arith, eq_iff ir_hash entry.ir_hash)
  status_for-stale ir_hash (some source) entry =
      ground (arith, eq_iff ir_hash entry.ir_hash, eq_iff source entry.source_hash)

abbrev is_real : Classification → Bool
is_real (issues []) = false
is_real _ = true

-- The loop, over what the artifacts are classified as.
gather : List Classification → Checking → Checking
gather [] s = s
gather (c ∷ cs) s = gather cs (with_classification c s)

issues_of : List Classification → List Issue
issues_of [] = []
issues_of (verdict v ∷ cs) = issues_of cs
issues_of (issues is ∷ cs) = is ++ issues_of cs

gather-issues :
    (cs : List Classification) (s : Checking) → (gather cs s).issues ≡ s.issues ++ issues_of cs
unfolding gather issues_of
gather-issues [] s = sym (append-nil s.issues)
gather-issues (verdict v ∷ cs) s = gather-issues cs (with_classification (verdict v) s)
gather-issues (issues is ∷ cs) s =
    gather-issues cs (with_classification (issues is) s) ∙ append_assoc s.issues is (issues_of cs)

gather-verdicts :
    (vs : List FreshnessVerdict) (s : Checking)
    → gather (map verdict vs) s ≡ record { verdicts = s.verdicts ++ vs; issues = s.issues }
unfolding gather
gather-verdicts [] s =
    ap (λ (l : List FreshnessVerdict). record s { verdicts = l }) (sym (append-nil s.verdicts))
gather-verdicts (v ∷ vs) s =
    gather-verdicts vs (with_classification (verdict v) s)
    ∙ ap (λ (l : List FreshnessVerdict). record s { verdicts = l })
        (append_assoc s.verdicts (v ∷ []) vs)

-- Where no classification gave an issue, all are verdicts.
All-verdicts :
    (cs : List Classification)
    → All (λ c. is_real c ≡ true) cs
    → issues_of cs ≡ []
    → (vs : List FreshnessVerdict) × (cs ≡ map verdict vs)
unfolding issues_of
All-verdicts [] h e = ([], refl)
All-verdicts (verdict v ∷ cs) (r, h) e =
    let (vs, p) = All-verdicts cs h e in (v ∷ vs, ap (◌∷◌ (verdict v)) p)
All-verdicts (issues [] ∷ cs) (r, h) e = cc
All-verdicts (issues (i ∷ is) ∷ cs) (r, h) e = cc

checked_result-success :
    (s : Checking) (vs : List FreshnessVerdict)
    → checked_result s ≡ success vs
    → (s.issues ≡ []) × (s.verdicts ≡ vs)
checked_result-success s vs = go s.issues
  where
    go :
        (is : List Issue)
        → checked_result (record s { issues = is }) ≡ success vs
        → (is ≡ []) × (s.verdicts ≡ vs)
    go [] h = (refl, cc)
    go (i ∷ is) h = cc

abbrev unchecked : Checking
unchecked = record { verdicts = []; issues = [] }

gather-success :
    (cs : List Classification) (vs : List FreshnessVerdict)
    → All (λ c. is_real c ≡ true) cs
    → (checked_result (gather cs unchecked) ≡ success vs) ↔ (cs ≡ map verdict vs)
gather-success cs vs real = (there, back)
  where
    there : checked_result (gather cs unchecked) ≡ success vs → cs ≡ map verdict vs
    there h =
        let (no_issues, given) = checked_result-success (gather cs unchecked) vs h in
        let (ws, p) = All-verdicts cs real (sym (gather-issues cs unchecked) ∙ no_issues) in
        let same : ws ≡ vs =
          sym (ap (λ (s : Checking). s.verdicts) (gather-verdicts ws unchecked))
          ∙ ap (λ (l : List Classification). (gather l unchecked).verdicts) (sym p)
          ∙ given in
        p ∙ ap (map verdict) same

    back : cs ≡ map verdict vs → checked_result (gather cs unchecked) ≡ success vs
    back p =
        ap (λ (l : List Classification). checked_result (gather l unchecked)) p
        ∙ ap checked_result (gather-verdicts vs unchecked)

module _ {N : Type 0} where
  found_real :
      (artifact : CommittedArtifact) (prov : ParsedProvenance) (id key : String)
      (registry : Registry N) (o : Option (RegistryEntry N))
      → is_real (elim o as (λ x. Classification) [
        | some entry ↦ verdict (verdict_for artifact prov.ir_hash prov.source_hash entry)
        | none ↦ issues (
            (if has id registry
              then version_not_found_issue artifact id prov.schema_version
              else artifact_schema_not_found artifact id prov.schema_version)
            ∷ [])
      ])
        ≡ true
  found_real artifact prov id key registry none = refl
  found_real artifact prov id key registry (some entry) = refl

  classify_parsed-real :
      (artifact : CommittedArtifact) (registry : Registry N) (r : Result ParsedProvenance)
      → has_issue r ≡ true
      → is_real (classify_parsed artifact registry r) ≡ true
  unfolding classify_parsed classify_identified
  classify_parsed-real artifact registry (failure []) h = cc
  classify_parsed-real artifact registry (failure (i ∷ is)) h = refl
  classify_parsed-real artifact registry (success prov) h = identified prov.schema_id
    where
      identified :
          (id : Option String) → is_real (classify_identified artifact registry prov id) ≡ true
      identified none = refl
      identified (some id) =
          found_real artifact prov id (version_key prov.schema_version) registry
            (find_schema registry id (version_key prov.schema_version))

module _ {N : Type 0} ⦃number : JsNumber N⦄ (json_parse : String → ParsedJson N) where
  check_artifacts-gather :
      (registry : Registry N) (artifacts : List CommittedArtifact) (s : Checking)
      → check_artifacts json_parse registry artifacts s
        ≡ gather (map (λ a. classify_artifact json_parse a registry) artifacts) s
  unfolding check_artifacts gather
  check_artifacts-gather registry [] s = refl
  check_artifacts-gather registry (a ∷ artifacts) s =
      check_artifacts-gather registry artifacts
        (with_classification (classify_artifact json_parse a registry) s)

  classify_artifact-real :
      (registry : Registry N) (artifact : CommittedArtifact)
      → is_real (classify_artifact json_parse artifact registry) ≡ true
  unfolding classify_artifact
  classify_artifact-real registry artifact =
      classify_parsed-real artifact registry
        (parse_provenance_from_text json_parse artifact.content)
        (parse_provenance_from_text-issue json_parse artifact.content)

  All-real :
      (registry : Registry N) (artifacts : List CommittedArtifact)
      → All (λ c. is_real c ≡ true) (map (λ a. classify_artifact json_parse a registry) artifacts)
  All-real registry [] = tt
  All-real registry (a ∷ artifacts) =
      (classify_artifact-real registry a, All-real registry artifacts)

  -- The check succeeds exactly where every artifact is classified by a verdict, and gives these in
  -- the order of the artifacts.
  pub check_handler-success_iff :
      (registry : Registry N) (artifacts : List CommittedArtifact) (vs : List FreshnessVerdict)
      → (check_handler json_parse registry artifacts ≡ success vs)
        ↔ (map (λ a. classify_artifact json_parse a registry) artifacts ≡ map verdict vs)
  unfolding check_handler
  check_handler-success_iff registry artifacts vs =
      let cs = map (λ a. classify_artifact json_parse a registry) artifacts in
      let same = ap checked_result (check_artifacts-gather registry artifacts unchecked) in
      let (there, back) = gather-success cs vs (All-real registry artifacts) in
      (λ h. there (sym same ∙ h), λ p. same ∙ back p)
