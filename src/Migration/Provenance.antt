-- ===== src/Migration/Provenance.antt =====
-- migrations/parse-provenance.ts of packages/schema: the header of a migration file.
pub mod Checked
use Prim.Native.String
use Prim.Native.Char.{code}
use neko_stack.Common.{
  ℕ, suc, zero, String, Bool, true, false, not, ◌&&◌, ◌||◌, Option, none, some, List, [], ◌∷◌, leb,
  nat_eq, if◌then◌else◌,
}
use neko_stack.Js.Text.{template}
use neko_stack.Js.JsMap.{JsMap, get}
use neko_stack.Schema.Issues.{
  Issue, IssueCode, IssueSeverity, MetadataValue, text, Result, success, failure,
}
use neko_stack.Schema.Jsdoc.{
  trim_start, strip_prefix, jsdoc_block, lines, is_empty, read_fields, is_sha256,
}

pub record ParsedMigrationProvenance : Type 0 where
  pub generator : String
  pub generator_version : String
  pub schema_id : String
  pub from_version : String
  pub to_version : String
  pub from_ir_hash : String
  pub to_ir_hash : String
  pub from_source_hash : String
  pub to_source_hash : String

abbrev pub required_fields : List String
required_fields =
    "generator" ∷ "generatorVersion" ∷ "schemaId" ∷ "fromVersion" ∷ "toVersion" ∷ "fromIrHash"
    ∷ "toIrHash" ∷ "fromSourceHash" ∷ "toSourceHash" ∷ []

abbrev pub hash_fields : List String
hash_fields = "fromIrHash" ∷ "toIrHash" ∷ "fromSourceHash" ∷ "toSourceHash" ∷ []

abbrev pub provenance_issue : String → String → Issue
provenance_issue reason message = record {
  code = IssueCode.integrity_error;
  path = [];
  message = message;
  severity = IssueSeverity.error;
  metadata = some (("reason", text reason) ∷ []);
}

-- fields.get(name), which the loops after the first one find
abbrev pub field_or_empty : String → JsMap String → String
unfolding get
field_or_empty name fields = elim (get name fields) [ none ↦ "" | some value ↦ value ]

-- The three loops: the issue of the first field that is missing, empty, or no hash.
abbrev pub missing_field : List String → JsMap String → Option Issue
unfolding get template
missing_field [] fields = none
missing_field (name ∷ names) fields = elim (get name fields) [
  | none ↦ some (
      provenance_issue "missing_field"
        (template ("Migration provenance is missing required field `" ∷ name ∷ "`." ∷ [])))
  | some value ↦ missing_field names fields
]

abbrev pub empty_field : List String → JsMap String → Option Issue
unfolding field_or_empty template
empty_field [] fields = none
empty_field (name ∷ names) fields = elim (is_empty (field_or_empty name fields)) [
  | true ↦ some (
      provenance_issue "malformed_field"
        (template ("Migration provenance field `" ∷ name ∷ "` is empty." ∷ [])))
  | false ↦ empty_field names fields
]

abbrev pub malformed_hash : List String → JsMap String → Option Issue
unfolding field_or_empty template is_sha256
malformed_hash [] fields = none
malformed_hash (name ∷ names) fields = elim (is_sha256 (field_or_empty name fields)) [
  | true ↦ malformed_hash names fields
  | false ↦ some (
      provenance_issue "malformed_hash" (
        template (
          "Migration provenance `"
          ∷ name
          ∷ "` must match `sha256:<64 hex>`; got \""
          ∷ field_or_empty name fields
          ∷ "\"."
          ∷ [])))
]

abbrev pub or_issue : {A : Type 0} → Option Issue → Result A → Result A
or_issue none r = r
or_issue (some issue) r = failure (issue ∷ [])

unfoldable pub provenance_of : JsMap String → ParsedMigrationProvenance
unfolding field_or_empty
provenance_of fields = record {
  generator = field_or_empty "generator" fields;
  generator_version = field_or_empty "generatorVersion" fields;
  schema_id = field_or_empty "schemaId" fields;
  from_version = field_or_empty "fromVersion" fields;
  to_version = field_or_empty "toVersion" fields;
  from_ir_hash = field_or_empty "fromIrHash" fields;
  to_ir_hash = field_or_empty "toIrHash" fields;
  from_source_hash = field_or_empty "fromSourceHash" fields;
  to_source_hash = field_or_empty "toSourceHash" fields;
}

unfoldable pub assemble_migration_provenance : JsMap String → Result ParsedMigrationProvenance
unfolding missing_field empty_field malformed_hash provenance_of
assemble_migration_provenance fields = or_issue (missing_field required_fields fields) (
    or_issue (empty_field required_fields fields)
      (or_issue (malformed_hash hash_fields fields) (success (provenance_of fields))))

abbrev pub no_header_issue : Issue
no_header_issue =
    provenance_issue "missing_migration_provenance"
      "No `/** ... */` JSDoc header found at the top of the migration file."

abbrev pub unknown_format_issue : Issue
unknown_format_issue =
    provenance_issue "unknown_format"
      "Migration file does not start with a `/** ... */` JSDoc header."

unfoldable pub parse_jsdoc_header : String → Result ParsedMigrationProvenance
unfolding jsdoc_block lines read_fields assemble_migration_provenance
parse_jsdoc_header content = elim (jsdoc_block content) [
  | none ↦ failure (no_header_issue ∷ [])
  | some block ↦ assemble_migration_provenance (read_fields (lines block) [])
]

unfoldable pub parse_migration_provenance_from_text : String → Result ParsedMigrationProvenance
unfolding trim_start strip_prefix parse_jsdoc_header
parse_migration_provenance_from_text content = elim (strip_prefix "/**" (trim_start content)) [
  | none ↦ failure (unknown_format_issue ∷ [])
  | some rest ↦ parse_jsdoc_header content
]
