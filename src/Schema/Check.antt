-- ===== src/Schema/Check.antt =====
-- registry/handlers/check.ts of packages/schema: the freshness of generated artifacts.
pub mod Issues
pub mod Verdicts
mod Tests
use neko_stack.Common.{
  String, ◌==◌, Bool, true, false, not, ◌&&◌, Option, none, some, List, [], ◌∷◌, ◌++◌, map,
  if◌then◌else◌,
}
use neko_stack.Js.Text.{template}
use neko_stack.Js.Json.{JsNumber}
use neko_stack.Js.JsMap.{get, set, has}
use neko_stack.Schema.Issues.{
  Issue, schema_not_found, version_not_found, IssueSeverity, MetadataValue, null, text, PathSegment,
  Result, success, failure,
}
use neko_stack.Schema.Registry.{Registry, RegistryEntry, find_schema}
use neko_stack.Schema.Provenance.{ParsedProvenance, ParsedJson, parse_provenance_from_text}

pub data Freshness : Type 0 where
  clean cosmetic_drift stale integrity_error : Freshness

pub record FreshnessVerdict : Type 0 where
  pub status : Freshness
  pub artifact_path : String

pub record CommittedArtifact : Type 0 where
  pub path : String
  pub content : String

pub data Classification : Type 0 where
  verdict : FreshnessVerdict → Classification
  issues : List Issue → Classification

abbrev version_value : Option String → MetadataValue
version_value none = null
version_value (some v) = text v

abbrev version_label : Option String → String
unfolding template
version_label none = "(unversioned)"
version_label (some v) = template ("v" ∷ v ∷ [])

abbrev pub version_key : Option String → String
version_key none = ""
version_key (some v) = v

abbrev metadata_or_empty : Option (List (String × MetadataValue)) → List (String × MetadataValue)
metadata_or_empty none = []
metadata_or_empty (some m) = m

abbrev missing_metadata : CommittedArtifact → String → Option String → List (String × MetadataValue)
missing_metadata artifact schema_id schema_version =
    ("artifactPath", text artifact.path)
    ∷ ("schemaId", text schema_id)
    ∷ ("schemaVersion", version_value schema_version)
    ∷ []

unfoldable pub artifact_schema_not_found : CommittedArtifact → String → Option String → Issue
unfolding template
artifact_schema_not_found artifact schema_id schema_version = record {
  code = schema_not_found;
  path = PathSegment.key artifact.path ∷ [];
  message = template (
      "Schema `" ∷ schema_id ∷ "` referenced by artifact `" ∷ artifact.path
      ∷ "` is not in the registry. The schema source may have been deleted; remove the generated artifact or restore the source."
      ∷ []);
  severity = IssueSeverity.error;
  metadata = some (missing_metadata artifact schema_id schema_version);
}

unfoldable pub version_not_found_issue : CommittedArtifact → String → Option String → Issue
unfolding template version_label
version_not_found_issue artifact schema_id schema_version = record {
  code = version_not_found;
  path = PathSegment.key artifact.path ∷ [];
  message = template (
      "Schema `"
      ∷ schema_id
      ∷ "` exists in the registry but version `"
      ∷ version_label schema_version
      ∷ "` (referenced by `"
      ∷ artifact.path
      ∷ "`) does not. Regenerate the artifact against the current schema versions."
      ∷ []);
  severity = IssueSeverity.error;
  metadata = some (missing_metadata artifact schema_id schema_version);
}

unfoldable pub anonymous_issue : CommittedArtifact → Issue
unfolding template
anonymous_issue artifact = record {
  code = schema_not_found;
  path = PathSegment.key artifact.path ∷ [];
  message = template (
      "Anonymous artifact `" ∷ artifact.path
      ∷ "` cannot be validated; registry does not index anonymous schemas." ∷ []);
  severity = IssueSeverity.error;
  metadata =
      some (("reason", text "anonymous_artifact") ∷ ("artifactPath", text artifact.path) ∷ []);
}

-- The issues of the parser, with the artifact's path.
unfoldable pub with_artifact_path : CommittedArtifact → Issue → Issue
unfolding set
with_artifact_path artifact issue = record issue {
  path = PathSegment.key artifact.path ∷ [];
  metadata = some (set "artifactPath" (text artifact.path) (metadata_or_empty issue.metadata));
}

module _ {N : Type 0} where
  unfoldable pub status_for :
      (ir_hash : String) → (source_hash : Option String) → RegistryEntry N → Freshness
  status_for ir_hash none entry = if ir_hash == entry.ir_hash then clean else stale
  status_for ir_hash (some source_hash) entry =
      let ir_match = ir_hash == entry.ir_hash in
      let source_match = source_hash == entry.source_hash in
      if ir_match && source_match
      then clean
      else if ir_match && not source_match
      then cosmetic_drift
      else if not ir_match && not source_match
      then stale
      else integrity_error

  unfoldable pub verdict_for :
      CommittedArtifact → String → Option String → RegistryEntry N → FreshnessVerdict
  unfolding status_for
  verdict_for artifact ir_hash source_hash entry = record {
    status = status_for ir_hash source_hash entry;
    artifact_path = artifact.path;
  }

  -- What follows the parser.
  unfoldable pub classify_identified :
      CommittedArtifact → Registry N → ParsedProvenance → Option String → Classification
  unfolding find_schema has verdict_for anonymous_issue version_not_found_issue
      artifact_schema_not_found
  classify_identified artifact registry prov none = issues (anonymous_issue artifact ∷ [])
  classify_identified artifact registry prov (some schema_id) =
      elim (find_schema registry schema_id (version_key prov.schema_version)) [
        | some entry ↦ verdict (verdict_for artifact prov.ir_hash prov.source_hash entry)
        | none ↦ issues (
            (if has schema_id registry
              then version_not_found_issue artifact schema_id prov.schema_version
              else artifact_schema_not_found artifact schema_id prov.schema_version)
            ∷ [])
      ]

  unfoldable pub classify_parsed :
      CommittedArtifact → Registry N → Result ParsedProvenance → Classification
  unfolding classify_identified with_artifact_path
  classify_parsed artifact registry (failure found) =
      issues (map (with_artifact_path artifact) found)
  classify_parsed artifact registry (success prov) =
      classify_identified artifact registry prov prov.schema_id

  module _ ⦃number : JsNumber N⦄ (json_parse : String → ParsedJson N) where
    unfoldable pub classify_artifact : CommittedArtifact → Registry N → Classification
    unfolding classify_parsed parse_provenance_from_text
    classify_artifact artifact registry =
        classify_parsed artifact registry (parse_provenance_from_text json_parse artifact.content)

-- The variables of the loop.
pub record Checking : Type 0 where
  pub verdicts : List FreshnessVerdict
  pub issues : List Issue

abbrev pub checked_result : Checking → Result (List FreshnessVerdict)
checked_result s = elim s.issues [ [] ↦ success s.verdicts | i ∷ is ↦ failure (i ∷ is) ]

abbrev pub with_classification : Classification → Checking → Checking
with_classification (verdict v) s = record s { verdicts = s.verdicts ++ v ∷ [] }
with_classification (issues is) s = record s { issues = s.issues ++ is }

module _ {N : Type 0} ⦃number : JsNumber N⦄ (json_parse : String → ParsedJson N) where
  unfoldable pub check_artifacts : Registry N → List CommittedArtifact → Checking → Checking
  unfolding classify_artifact
  check_artifacts registry [] s = s
  check_artifacts registry (artifact ∷ artifacts) s =
      check_artifacts registry artifacts
        (with_classification (classify_artifact json_parse artifact registry) s)

  unfoldable pub check_handler :
      Registry N → List CommittedArtifact → Result (List FreshnessVerdict)
  unfolding check_artifacts
  check_handler registry artifacts =
      checked_result (check_artifacts registry artifacts (record { verdicts = []; issues = [] }))
