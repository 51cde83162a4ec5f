-- ===== src/Schema/Provenance.antt =====
-- registry/parse-provenance.ts of packages/schema: the provenance block of a generated artifact.
-- `JSON.parse` is a parameter.
use neko_stack.Common.{String, ◌==◌, Option, none, some, List, [], ◌∷◌, if◌then◌else◌}
use neko_stack.Js.Text.{template}
use neko_stack.Js.Json.{JsNumber, Json, null, bool, num, str, arr, obj, Members, member_at}
use neko_stack.Js.JsMap.{JsMap, get, set}
use neko_stack.Schema.Issues.{integrity_error, IssueSeverity, text, Result, success, failure}
use neko_stack.Schema.Jsdoc.{is_sha256, trim_start, strip_prefix, jsdoc_block, lines, read_fields}

pub record ParsedProvenance : Type 0 where
  pub generator : String
  pub generator_version : String
  pub schema_id : Option String
  pub schema_version : Option String
  pub ir_hash : String
  pub source_hash : Option String

-- What `JSON.parse` gives: a value, or the message of the error that it throws.
pub data ParsedJson (N : Type 0) : Type 0 where
  parsed : Json N → ParsedJson N
  syntax_error : String → ParsedJson N

abbrev pub fail : {A : Type 0} → String → String → Result A
fail reason message = failure (
    record {
      code = integrity_error;
      path = [];
      message = message;
      severity = IssueSeverity.error;
      metadata = some (("reason", text reason) ∷ []);
    }
    ∷ [])

abbrev nullable : String → Option String
nullable raw = if raw == "null" then none else some raw

abbrev pub missing : {A : Type 0} → String → Result A
unfolding template
missing name = fail "missing_field" (template ("Provenance is missing `" ∷ name ∷ "`." ∷ []))

-- What follows the checks that the fields are there.
unfoldable pub assemble_found :
    (generator version id schema_version ir_hash : String) → Option String → Result ParsedProvenance
unfolding template is_sha256
assemble_found generator version id schema_version ir_hash source_hash =
    let found : Result ParsedProvenance = success (record {
      generator = generator;
      generator_version = version;
      schema_id = nullable id;
      schema_version = nullable schema_version;
      ir_hash = ir_hash;
      source_hash = source_hash;
    }) in
    let with_source : Result ParsedProvenance = elim source_hash [
      | none ↦ found
      | some h ↦
          if is_sha256 h
          then found
          else fail "malformed_hash" (
              template (
                "Provenance `sourceHash` must match `sha256:<64 hex>` when present; got \"" ∷ h
                ∷ "\"." ∷ []))
    ] in
    if is_sha256 ir_hash
    then with_source
    else fail "malformed_hash" (
        template
          ("Provenance `irHash` must match `sha256:<64 hex>`; got \"" ∷ ir_hash ∷ "\"." ∷ []))

-- The checks in their order, on what the map holds.
unfoldable pub assemble_present :
    (generator version id schema_version ir_hash source_hash : Option String)
    → Result ParsedProvenance
unfolding assemble_found missing
assemble_present none version id schema_version ir_hash source_hash = missing "generator"
assemble_present (some g) none id schema_version ir_hash source_hash = missing "generatorVersion"
assemble_present (some g) (some v) none schema_version ir_hash source_hash = missing "schemaId"
assemble_present (some g) (some v) (some id) none ir_hash source_hash = missing "schemaVersion"
assemble_present (some g) (some v) (some id) (some sv) none source_hash = missing "irHash"
assemble_present (some g) (some v) (some id) (some sv) (some h) source_hash =
    assemble_found g v id sv h source_hash

unfoldable pub assemble_provenance : JsMap String → Result ParsedProvenance
unfolding get assemble_present
assemble_provenance fields =
    assemble_present (get "generator" fields) (get "generatorVersion" fields)
      (get "schemaId" fields) (get "schemaVersion" fields) (get "irHash" fields)
      (get "sourceHash" fields)

unfoldable pub parse_jsdoc_header : String → Result ParsedProvenance
unfolding jsdoc_block lines read_fields assemble_provenance
parse_jsdoc_header content = elim (jsdoc_block content) [
  | none ↦
      fail "missing_provenance" "No `/** ... */` JSDoc header found at the top of the artifact."
  | some block ↦ assemble_provenance (read_fields (lines block) [])
]

abbrev pub block_keys : List String
block_keys =
    "generator" ∷ "generatorVersion" ∷ "schemaId" ∷ "schemaVersion" ∷ "irHash" ∷ "sourceHash" ∷ []

unfoldable pub assembled : Result (JsMap String) → Result ParsedProvenance
unfolding assemble_provenance
assembled (failure issues) = failure issues
assembled (success fields) = assemble_provenance fields

module _ {N : Type 0} ⦃number : JsNumber N⦄ where
  abbrev pub type_of : Json N → String
  type_of null = "object"
  type_of (bool b) = "boolean"
  type_of (num n) = "number"
  type_of (str s) = "string"
  type_of (arr xs) = "object"
  type_of (obj ms) = "object"

  -- A round of the loop over the keys of the block.
  unfoldable pub read_value : String → Option (Json N) → JsMap String → Result (JsMap String)
  unfolding set template
  read_value key none fields = success fields
  read_value key (some null) fields = success (set key "null" fields)
  read_value key (some (str v)) fields = success (set key v fields)
  read_value key (some v) fields = fail "malformed_field" (
      template (
        "Field `"
        ∷ key
        ∷ "` in `x-nekostack` must be a string or null; got "
        ∷ type_of v
        ∷ "."
        ∷ []))

  unfoldable pub read_block : List String → Members N → JsMap String → Result (JsMap String)
  unfolding member_at read_value
  read_block [] block fields = success fields
  read_block (key ∷ keys) block fields = elim (read_value key (member_at key block) fields) [
    | failure issues ↦ failure issues
    | success more ↦ read_block keys block more
  ]

  unfoldable pub block_of : Option (Json N) → Result ParsedProvenance
  unfolding read_block assembled
  block_of (some (obj block)) = assembled (read_block block_keys block [])
  block_of _ =
      fail "missing_provenance"
        "Artifact has no `x-nekostack` provenance object at the document root."

  unfoldable pub document_of : ParsedJson N → Result ParsedProvenance
  unfolding block_of member_at template
  document_of (syntax_error message) =
      fail "json_parse_error" (template ("Artifact failed JSON.parse: " ∷ message ∷ []))
  document_of (parsed (obj root)) = block_of (member_at "x-nekostack" root)
  document_of (parsed _) =
      fail "missing_provenance"
        "Parsed JSON is not an object; cannot read `x-nekostack` provenance."

  unfoldable pub parse_json_provenance :
      (json_parse : String → ParsedJson N) → String → Result ParsedProvenance
  unfolding document_of
  parse_json_provenance json_parse content = document_of (json_parse content)

  unfoldable pub parse_provenance_from_text :
      (json_parse : String → ParsedJson N) → String → Result ParsedProvenance
  unfolding trim_start strip_prefix parse_jsdoc_header parse_json_provenance
  parse_provenance_from_text json_parse content = elim (strip_prefix "/**" (trim_start content)) [
    | some rest ↦ parse_jsdoc_header content
    | none ↦ elim (strip_prefix "{" (trim_start content)) [
      | some rest ↦ parse_json_provenance json_parse content
      | none ↦
          fail "unknown_format"
            "Artifact does not start with `/**` (TS/Zod) or `{` (JSON Schema / OpenAPI)."
    ]
  ]
