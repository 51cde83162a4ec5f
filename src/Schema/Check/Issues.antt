-- ===== src/Schema/Check/Issues.antt =====
-- What the readers of provenance of registry/parse-provenance.ts of packages/schema refuse with: at
-- least one issue.
use neko_stack.Common.{
  String, ◌≡◌, refl, Bool, true, false, Option, none, some, List, [], ◌∷◌, arith,
}
use neko_stack.Js.Json.{JsNumber, Json, null, bool, num, str, arr, obj, Members, member_at}
use neko_stack.Js.JsMap.{JsMap, get}
use neko_stack.Schema.Issues.{Result, success, failure}
use neko_stack.Schema.Jsdoc.{trim_start, strip_prefix, jsdoc_block, lines, read_fields}
use neko_stack.Schema.Provenance.{
  ParsedProvenance, ParsedJson, parsed, syntax_error, assemble_found, assemble_present,
  assemble_provenance, assembled, block_keys, block_of, document_of, fail, read_value, read_block,
  parse_jsdoc_header, parse_json_provenance, parse_provenance_from_text,
}

abbrev pub has_issue : {A : Type 0} → Result A → Bool
has_issue (success a) = true
has_issue (failure []) = false
has_issue (failure (i ∷ is)) = true

assemble_found-issue :
    (g v id sv h : String) (source : Option String)
    → has_issue (assemble_found g v id sv h source) ≡ true
unfolding assemble_found
assemble_found-issue g v id sv h source = ground arith

assemble_present-issue :
    (g v id sv h source : Option String) → has_issue (assemble_present g v id sv h source) ≡ true
unfolding assemble_present
assemble_present-issue none v id sv h source = refl
assemble_present-issue (some g) none id sv h source = refl
assemble_present-issue (some g) (some v) none sv h source = refl
assemble_present-issue (some g) (some v) (some id) none h source = refl
assemble_present-issue (some g) (some v) (some id) (some sv) none source = refl
assemble_present-issue (some g) (some v) (some id) (some sv) (some h) source =
    assemble_found-issue g v id sv h source

assemble_provenance-issue : (fields : JsMap String) → has_issue (assemble_provenance fields) ≡ true
unfolding assemble_provenance
assemble_provenance-issue fields =
    assemble_present-issue (get "generator" fields) (get "generatorVersion" fields)
      (get "schemaId" fields) (get "schemaVersion" fields) (get "irHash" fields)
      (get "sourceHash" fields)

parse_jsdoc_header-issue : (content : String) → has_issue (parse_jsdoc_header content) ≡ true
unfolding parse_jsdoc_header
parse_jsdoc_header-issue content = go (jsdoc_block content)
  where
    go :
        (o : Option String)
        → has_issue (elim o as (λ x. Result ParsedProvenance) [
          | none ↦
              fail "missing_provenance"
                "No `/** ... */` JSDoc header found at the top of the artifact."
          | some block ↦ assemble_provenance (read_fields (lines block) [])
        ])
          ≡ true
    go none = refl
    go (some block) = assemble_provenance-issue (read_fields (lines block) [])

assembled-issue : (r : Result (JsMap String)) → has_issue r ≡ true → has_issue (assembled r) ≡ true
unfolding assembled
assembled-issue (success fields) h = assemble_provenance-issue fields
assembled-issue (failure []) h = h
assembled-issue (failure (i ∷ is)) h = refl

module _ {N : Type 0} ⦃number : JsNumber N⦄ where
  read_value-issue :
      (key : String) (v : Option (Json N)) (fields : JsMap String)
      → has_issue (read_value key v fields) ≡ true
  unfolding read_value
  read_value-issue key none fields = refl
  read_value-issue key (some null) fields = refl
  read_value-issue key (some (str v)) fields = refl
  read_value-issue key (some (bool v)) fields = refl
  read_value-issue key (some (num v)) fields = refl
  read_value-issue key (some (arr v)) fields = refl
  read_value-issue key (some (obj v)) fields = refl

  read_block-issue :
      (keys : List String) (block : Members N) (fields : JsMap String)
      → has_issue (read_block keys block fields) ≡ true
  unfolding read_block
  read_block-issue [] block fields = refl
  read_block-issue (key ∷ keys) block fields =
      go (read_value key (member_at key block) fields)
        (read_value-issue key (member_at key block) fields)
        (λ more. read_block-issue keys block more)
    where
      go :
          (r : Result (JsMap String))
          → has_issue r ≡ true
          → ((more : JsMap String) → has_issue (read_block keys block more) ≡ true)
          → has_issue (elim r as (λ x. Result (JsMap String)) [
            | failure is ↦ failure is
            | success more ↦ read_block keys block more
          ])
            ≡ true
      go (success more) h rest = rest more
      go (failure []) h rest = h
      go (failure (i ∷ is)) h rest = refl

  block_of-issue : (v : Option (Json N)) → has_issue (block_of v) ≡ true
  unfolding block_of
  block_of-issue none = refl
  block_of-issue (some (obj block)) = assembled-issue _ (read_block-issue block_keys block [])
  block_of-issue (some null) = refl
  block_of-issue (some (bool b)) = refl
  block_of-issue (some (num n)) = refl
  block_of-issue (some (str s)) = refl
  block_of-issue (some (arr xs)) = refl

  document_of-issue : (d : ParsedJson N) → has_issue (document_of d) ≡ true
  unfolding document_of
  document_of-issue (syntax_error m) = refl
  document_of-issue (parsed (obj root)) = block_of-issue (member_at "x-nekostack" root)
  document_of-issue (parsed null) = refl
  document_of-issue (parsed (bool b)) = refl
  document_of-issue (parsed (num n)) = refl
  document_of-issue (parsed (str s)) = refl
  document_of-issue (parsed (arr xs)) = refl

  -- Where the parser of artifacts fails, it gives an issue.
  pub parse_provenance_from_text-issue :
      (json_parse : String → ParsedJson N) (content : String)
      → has_issue (parse_provenance_from_text json_parse content) ≡ true
  unfolding parse_provenance_from_text parse_json_provenance
  parse_provenance_from_text-issue json_parse content =
      go (strip_prefix "/**" (trim_start content)) (strip_prefix "{" (trim_start content))
    where
      go :
          (o p : Option String)
          → has_issue (elim o as (λ x. Result ParsedProvenance) [
            | some rest ↦ parse_jsdoc_header content
            | none ↦ elim p as (λ x. Result ParsedProvenance) [
              | some rest ↦ parse_json_provenance json_parse content
              | none ↦
                  fail "unknown_format"
                    "Artifact does not start with `/**` (TS/Zod) or `{` (JSON Schema / OpenAPI)."
            ]
          ])
            ≡ true
      go (some rest) p = parse_jsdoc_header-issue content
      go none (some rest) = document_of-issue (json_parse content)
      go none none = refl
