-- ===== src/Migration/Provenance/Checked.antt =====
-- What holds of a header that migrations/parse-provenance.ts of packages/schema accepts.
use neko_stack.Common.{
  String, ◌≡◌, refl, subst, true, false, Option, none, some, List, [], ◌∷◌, All, arith, Bool-cases,
  inl, inr,
}
use neko_stack.Js.JsMap.{JsMap}
use neko_stack.Schema.Issues.{Issue, Result, success, failure}
use neko_stack.Schema.Jsdoc.{
  is_sha256, jsdoc_block, lines, is_empty, read_fields, trim_start, strip_prefix,
}
use neko_stack.Migration.Provenance.{
  ParsedMigrationProvenance, required_fields, hash_fields, field_or_empty, missing_field,
  empty_field, malformed_hash, or_issue, provenance_of, no_header_issue, unknown_format_issue,
  assemble_migration_provenance, parse_jsdoc_header, parse_migration_provenance_from_text,
}

-- No field is empty, and the hashes have the form of one.
pub record IsChecked (f : ParsedMigrationProvenance) : Type 0 where
  pub schema_id : is_empty f.schema_id ≡ false
  pub from_version : is_empty f.from_version ≡ false
  pub to_version : is_empty f.to_version ≡ false
  pub generator : is_empty f.generator ≡ false
  pub generator_version : is_empty f.generator_version ≡ false
  pub from_ir_hash : is_sha256 f.from_ir_hash ≡ true
  pub to_ir_hash : is_sha256 f.to_ir_hash ≡ true
  pub from_source_hash : is_sha256 f.from_source_hash ≡ true
  pub to_source_hash : is_sha256 f.to_source_hash ≡ true

or_issue-success :
    {A : Type 0} (issue : Option Issue) (r : Result A) (a : A)
    → or_issue issue r ≡ success a
    → (issue ≡ none) × (r ≡ success a)
or_issue-success none r a h = (refl, h)
or_issue-success (some issue) r a h = cc

success_inj : {A : Type 0} (a b : A) → success a ≡ success b → a ≡ b
success_inj a b h = cc

empty_field-none :
    (names : List String) (fields : JsMap String)
    → empty_field names fields ≡ none
    → All (λ n. is_empty (field_or_empty n fields) ≡ false) names
unfolding empty_field
empty_field-none [] fields h = tt
empty_field-none (name ∷ names) fields h =
    elim (Bool-cases (is_empty (field_or_empty name fields))) [
      | inl e ↦ absurd (ground arith)
      | inr e ↦ (e, empty_field-none names fields (ground arith))
    ]

malformed_hash-none :
    (names : List String) (fields : JsMap String)
    → malformed_hash names fields ≡ none
    → All (λ n. is_sha256 (field_or_empty n fields) ≡ true) names
unfolding malformed_hash
malformed_hash-none [] fields h = tt
malformed_hash-none (name ∷ names) fields h =
    elim (Bool-cases (is_sha256 (field_or_empty name fields))) [
      | inl e ↦ (e, malformed_hash-none names fields (ground arith))
      | inr e ↦ absurd (ground arith)
    ]

provenance-IsChecked :
    (fields : JsMap String)
    → All (λ n. is_empty (field_or_empty n fields) ≡ false) required_fields
    → All (λ n. is_sha256 (field_or_empty n fields) ≡ true) hash_fields
    → IsChecked (provenance_of fields)
unfolding provenance_of
provenance-IsChecked fields (generator, (version, (id, (from, (to, _))))) (a, (b, (c, (d, _)))) =
    record {
      schema_id = id;
      from_version = from;
      to_version = to;
      generator = generator;
      generator_version = version;
      from_ir_hash = a;
      to_ir_hash = b;
      from_source_hash = c;
      to_source_hash = d;
    }

assembled-IsChecked :
    (fields : JsMap String) (f : ParsedMigrationProvenance)
    → assemble_migration_provenance fields ≡ success f
    → IsChecked f
unfolding assemble_migration_provenance
assembled-IsChecked fields f h =
    let (_, h1) = or_issue-success (missing_field required_fields fields) _ f h in
    let (full, h2) = or_issue-success (empty_field required_fields fields) _ f h1 in
    let (hashes, h3) = or_issue-success (malformed_hash hash_fields fields) _ f h2 in
    subst IsChecked (success_inj (provenance_of fields) f h3) (
      provenance-IsChecked fields (empty_field-none required_fields fields full)
        (malformed_hash-none hash_fields fields hashes))

-- A migration file whose header is accepted states a schema id, both versions and a generator that
-- are not empty, and four hashes of the form `sha256:` and 64 hexadecimal digits.
pub parse_migration_provenance_from_text-IsChecked :
    (content : String) (f : ParsedMigrationProvenance)
    → parse_migration_provenance_from_text content ≡ success f
    → IsChecked f
unfolding parse_migration_provenance_from_text parse_jsdoc_header
parse_migration_provenance_from_text-IsChecked content f h =
    opened (strip_prefix "/**" (trim_start content)) h
  where
    block_read :
        (o : Option String)
        → (elim o as (λ x. Result ParsedMigrationProvenance) [
          | none ↦ failure (no_header_issue ∷ [])
          | some block ↦ assemble_migration_provenance (read_fields (lines block) [])
        ])
          ≡ success f
        → IsChecked f
    block_read none e = cc
    block_read (some block) e = assembled-IsChecked (read_fields (lines block) []) f e

    opened :
        (o : Option String)
        → (elim o as (λ x. Result ParsedMigrationProvenance) [
          | none ↦ failure (unknown_format_issue ∷ [])
          | some rest ↦ parse_jsdoc_header content
        ])
          ≡ success f
        → IsChecked f
    opened none e = cc
    opened (some rest) e = block_read (jsdoc_block content) e
