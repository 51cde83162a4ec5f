-- ===== src/Migration/Stub/Header.antt =====
-- The header that migrations/stub.ts of packages/schema renders, as migrations/parse-provenance.ts
-- reads it.
use Prim.Native.String
use text.Mathlib.TextLemmas.{cons-append, append_assoc}
use neko_stack.Common.{
  String, ◌≡◌, refl, ap, ◌∙◌, true, Option, none, some, List, [], ◌∷◌, ◌++◌, All, All-append,
}
use neko_stack.Js.Text.{join}
use neko_stack.Js.JsMap.{JsMap, get, set}
use neko_stack.Schema.Issues.{Result, success, failure}
use neko_stack.Schema.Jsdoc.{
  is_sha256, is_space, is_word, is_terminator, strip_prefix, trim_start, jsdoc_block, lines,
  jsdoc_field, with_field, read_fields,
}
use neko_stack.Schema.Jsdoc.Rendered.{
  IsTidy, tidy_full, IsInline, IsQuiet, lines-join, jsdoc_block-join, open_join,
}
use neko_stack.Schema.Jsdoc.Texts.{lacks, is_quiet, starts_plain}
use neko_stack.Schema.Jsdoc.Searches.{strip_prefix-append, trim_start-plain}
use neko_stack.Migration.Provenance.{
  ParsedMigrationProvenance, no_header_issue, unknown_format_issue, assemble_migration_provenance,
  parse_jsdoc_header, parse_migration_provenance_from_text,
}
use neko_stack.Schema.Registry.{RegistryEntry, find_schema}
use neko_stack.Migration.Stub.{
  header_lines, render_header, render_body, render_stub_content, stub_fields, MigrationStub,
  MigrationStubOpts, stub_of, stub_between, stub_migration,
}
use neko_stack.Migration.Stub.Keys.{
  schema_id-IsKey, from_version-IsKey, to_version-IsKey, from_ir_hash-IsKey, to_ir_hash-IsKey,
  from_source_hash-IsKey, to_source_hash-IsKey, generator-IsKey, generator_version-IsKey,
  jsdoc_field-header_line, IsQuiet-header_line, IsInline-header_line,
}

-- The values that a header can carry: tidy ones, of which the hashes are hashes.
pub record IsRenderable (f : ParsedMigrationProvenance) : Type 0 where
  pub generator : IsTidy f.generator
  pub generator_version : IsTidy f.generator_version
  pub schema_id : IsTidy f.schema_id
  pub from_version : IsTidy f.from_version
  pub to_version : IsTidy f.to_version
  pub from_ir_hash : IsTidy f.from_ir_hash × (is_sha256 f.from_ir_hash ≡ true)
  pub to_ir_hash : IsTidy f.to_ir_hash × (is_sha256 f.to_ir_hash ≡ true)
  pub from_source_hash : IsTidy f.from_source_hash × (is_sha256 f.from_source_hash ≡ true)
  pub to_source_hash : IsTidy f.to_source_hash × (is_sha256 f.to_source_hash ≡ true)

abbrev top : String
top = " * @migration by @nekostack/schema"

abbrev notice : String
notice = " * DO NOT REMOVE THE HEADER. Authors EDIT THE BODY."

abbrev inner_lines : ParsedMigrationProvenance → List String
unfolding header_lines
inner_lines f = top ∷ header_lines f ++ " *" ∷ notice ∷ []

module _ (f : ParsedMigrationProvenance) (h : IsRenderable f) where
  inner-IsQuiet : All IsQuiet (inner_lines f)
  unfolding is_quiet inner_lines header_lines
  inner-IsQuiet = (
    refl,
    (
      IsQuiet-header_line "schemaId" 9 f.schema_id schema_id-IsKey h.schema_id,
      (
        IsQuiet-header_line "fromVersion" 6 f.from_version from_version-IsKey h.from_version,
        (
          IsQuiet-header_line "toVersion" 8 f.to_version to_version-IsKey h.to_version,
          (
            IsQuiet-header_line "fromIrHash" 7 f.from_ir_hash from_ir_hash-IsKey h.from_ir_hash.0,
            (
              IsQuiet-header_line "toIrHash" 9 f.to_ir_hash to_ir_hash-IsKey h.to_ir_hash.0,
              (
                IsQuiet-header_line "fromSourceHash" 3 f.from_source_hash from_source_hash-IsKey
                    h.from_source_hash.0,
                (
                  IsQuiet-header_line "toSourceHash" 5 f.to_source_hash to_source_hash-IsKey
                      h.to_source_hash.0,
                  (
                    IsQuiet-header_line "generator" 8 f.generator generator-IsKey h.generator,
                    (
                      IsQuiet-header_line "generatorVersion" 1 f.generator_version
                          generator_version-IsKey h.generator_version,
                      (refl, (refl, tt)),
                    ),
                  ),
                ),
              ),
            ),
          ),
        ),
      ),
    ),
  )

  inner-IsInline : All IsInline (inner_lines f)
  unfolding lacks is_terminator inner_lines header_lines
  inner-IsInline = (
    refl,
    (
      IsInline-header_line "schemaId" 9 f.schema_id schema_id-IsKey h.schema_id,
      (
        IsInline-header_line "fromVersion" 6 f.from_version from_version-IsKey h.from_version,
        (
          IsInline-header_line "toVersion" 8 f.to_version to_version-IsKey h.to_version,
          (
            IsInline-header_line "fromIrHash" 7 f.from_ir_hash from_ir_hash-IsKey h.from_ir_hash.0,
            (
              IsInline-header_line "toIrHash" 9 f.to_ir_hash to_ir_hash-IsKey h.to_ir_hash.0,
              (
                IsInline-header_line "fromSourceHash" 3 f.from_source_hash from_source_hash-IsKey
                    h.from_source_hash.0,
                (
                  IsInline-header_line "toSourceHash" 5 f.to_source_hash to_source_hash-IsKey
                      h.to_source_hash.0,
                  (
                    IsInline-header_line "generator" 8 f.generator generator-IsKey h.generator,
                    (
                      IsInline-header_line "generatorVersion" 1 f.generator_version
                          generator_version-IsKey h.generator_version,
                      (refl, (refl, tt)),
                    ),
                  ),
                ),
              ),
            ),
          ),
        ),
      ),
    ),
  )

  header_block :
      (rest : String)
      → jsdoc_block (String.◌++◌ (render_header f) rest)
        ≡ some (join "\n" ("" ∷ inner_lines f ++ " " ∷ []))
  unfolding render_header inner_lines
  header_block rest = jsdoc_block-join (inner_lines f) rest inner-IsQuiet

  header_lines-AreInline : All IsInline ("" ∷ inner_lines f ++ " " ∷ [])
  unfolding lacks is_terminator inner_lines
  header_lines-AreInline =
      (refl, All-append IsInline (inner_lines f) (" " ∷ []) inner-IsInline (refl, tt))

  header_lines_read :
      lines (join "\n" ("" ∷ inner_lines f ++ " " ∷ [])) ≡ "" ∷ inner_lines f ++ " " ∷ []
  header_lines_read = lines-join "" (inner_lines f ++ " " ∷ []) header_lines-AreInline

abbrev header_map : ParsedMigrationProvenance → JsMap String
header_map f =
    ("schemaId", f.schema_id)
    ∷ ("fromVersion", f.from_version)
    ∷ ("toVersion", f.to_version)
    ∷ ("fromIrHash", f.from_ir_hash)
    ∷ ("toIrHash", f.to_ir_hash)
    ∷ ("fromSourceHash", f.from_source_hash)
    ∷ ("toSourceHash", f.to_source_hash)
    ∷ ("generator", f.generator)
    ∷ ("generatorVersion", f.generator_version)
    ∷ []

no_field :
    (jsdoc_field "" ≡ none)
    × (jsdoc_field top ≡ none)
    × (jsdoc_field " *" ≡ none)
    × (jsdoc_field notice ≡ none)
    × (jsdoc_field " " ≡ none)
unfolding jsdoc_field is_space is_word
no_field = (refl, refl, refl, refl, refl)

read_fields_end : (m : JsMap String) → read_fields [] m ≡ m
unfolding read_fields
read_fields_end m = refl

read_fields-some :
    (l : String) (ls : List String) (m : JsMap String) (kv : String × String)
    → jsdoc_field l ≡ some kv
    → read_fields (l ∷ ls) m ≡ read_fields ls (set kv.0 kv.1 m)
unfolding read_fields
read_fields-some l ls m kv h =
    ap (λ (o : Option (String × String)). read_fields ls (with_field m o)) h

read_fields-none :
    (l : String) (ls : List String) (m : JsMap String)
    → jsdoc_field l ≡ none
    → read_fields (l ∷ ls) m ≡ read_fields ls m
unfolding read_fields
read_fields-none l ls m h = ap (λ (o : Option (String × String)). read_fields ls (with_field m o)) h

opening_plain : (s : String) → starts_plain (String.◌++◌ "/**" s) ≡ true
unfolding starts_plain is_space
opening_plain s = ap starts_plain (cons-append "/" "**" s)

header_opening :
    (f : ParsedMigrationProvenance) (rest : String)
    → (tail : String) × (String.◌++◌ (render_header f) rest ≡ String.◌++◌ "/**" tail)
unfolding render_header inner_lines
header_opening f rest = (
  String.◌++◌ (join "\n" ("" ∷ inner_lines f ++ " */" ∷ [])) rest,
  ap (λ (s : String). String.◌++◌ s rest) (open_join (inner_lines f) " */")
      ∙ append_assoc "/**" (join "\n" ("" ∷ inner_lines f ++ " */" ∷ [])) rest,
)

module _ (f : ParsedMigrationProvenance) (h : IsRenderable f) where
  fields_read : read_fields ("" ∷ inner_lines f ++ " " ∷ []) [] ≡ header_map f
  unfolding inner_lines header_lines set
  fields_read =
      let (none_0, none_1, none_2, none_3, none_4) = no_field in
      read_fields-none "" _ _ none_0
      ∙ read_fields-none top _ _ none_1
      ∙ read_fields-some _ _ _ _
          (jsdoc_field-header_line "schemaId" 9 f.schema_id schema_id-IsKey h.schema_id)
      ∙ read_fields-some _ _ _ _
          (jsdoc_field-header_line "fromVersion" 6 f.from_version from_version-IsKey h.from_version)
      ∙ read_fields-some _ _ _ _
          (jsdoc_field-header_line "toVersion" 8 f.to_version to_version-IsKey h.to_version)
      ∙ read_fields-some _ _ _ _ (
          jsdoc_field-header_line "fromIrHash" 7 f.from_ir_hash from_ir_hash-IsKey h.from_ir_hash.0)
      ∙ read_fields-some _ _ _ _
          (jsdoc_field-header_line "toIrHash" 9 f.to_ir_hash to_ir_hash-IsKey h.to_ir_hash.0)
      ∙ read_fields-some _ _ _ _ (
          jsdoc_field-header_line "fromSourceHash" 3 f.from_source_hash from_source_hash-IsKey
            h.from_source_hash.0)
      ∙ read_fields-some _ _ _ _ (
          jsdoc_field-header_line "toSourceHash" 5 f.to_source_hash to_source_hash-IsKey
            h.to_source_hash.0)
      ∙ read_fields-some _ _ _ _
          (jsdoc_field-header_line "generator" 8 f.generator generator-IsKey h.generator)
      ∙ read_fields-some _ _ _ _ (
          jsdoc_field-header_line "generatorVersion" 1 f.generator_version generator_version-IsKey
            h.generator_version)
      ∙ read_fields-none " *" _ _ none_2
      ∙ read_fields-none notice _ _ none_3
      ∙ read_fields-none " " _ _ none_4
      ∙ read_fields_end (header_map f)

  assembled : assemble_migration_provenance (header_map f) ≡ success f
  unfolding assemble_migration_provenance get
  assembled =
      rw
        (
          tidy_full h.generator,
          tidy_full h.generator_version,
          tidy_full h.schema_id,
          tidy_full h.from_version,
          tidy_full h.to_version,
          tidy_full h.from_ir_hash.0,
          tidy_full h.to_ir_hash.0,
          tidy_full h.from_source_hash.0,
          tidy_full h.to_source_hash.0,
          h.from_ir_hash.1,
          h.to_ir_hash.1,
          h.from_source_hash.1,
          h.to_source_hash.1,
        )
        refl

  parsed_header :
      (rest : String) → parse_jsdoc_header (String.◌++◌ (render_header f) rest) ≡ success f
  unfolding parse_jsdoc_header
  parsed_header rest =
      ap
        (λ (o : Option String). elim o as (λ x. Result ParsedMigrationProvenance) [
          | none ↦ failure (no_header_issue ∷ [])
          | some block ↦ assemble_migration_provenance (read_fields (lines block) [])
        ])
        (header_block f h rest)
      ∙ ap (λ (ls : List String). assemble_migration_provenance (read_fields ls []))
          (header_lines_read f h)
      ∙ ap assemble_migration_provenance fields_read
      ∙ assembled

  -- A header that is rendered from tidy fields, of which the hashes have the form of a hash, is read
  -- back as those fields, whatever stands behind it.
  pub parse_migration_provenance_from_text-render_header :
      (rest : String)
      → parse_migration_provenance_from_text (String.◌++◌ (render_header f) rest) ≡ success f
  unfolding parse_migration_provenance_from_text
  parse_migration_provenance_from_text-render_header rest =
      let (tail, e) = header_opening f rest in
      ap
        (λ (o : Option String). elim o as (λ x. Result ParsedMigrationProvenance) [
          | none ↦ failure (unknown_format_issue ∷ [])
          | some r ↦ parse_jsdoc_header (String.◌++◌ (render_header f) rest)
        ])
        (ap (λ (s : String). strip_prefix "/**" (trim_start s)) e
          ∙ ap (strip_prefix "/**") (trim_start-plain (String.◌++◌ "/**" tail) (opening_plain tail))
          ∙ strip_prefix-append "/**" tail)
      ∙ parsed_header rest

module _ {N : Type 0} where
  -- A stub for two versions that are in the registry, whose ids, versions and hashes are tidy, is
  -- generated, and its header is read back as them.
  pub stub_migration-parsed :
      (to_lower_case : String → String) (opts : MigrationStubOpts N) (from to : RegistryEntry N)
      → find_schema opts.schema_registry opts.schema_id opts.from_version ≡ some from
      → find_schema opts.schema_registry opts.schema_id opts.to_version ≡ some to
      → IsRenderable (stub_fields opts from to)
      → (stub : MigrationStub) × (stub_migration to_lower_case opts ≡ success stub)
        × (parse_migration_provenance_from_text stub.content ≡ success (stub_fields opts from to))
  unfolding stub_migration stub_between stub_of render_stub_content
  stub_migration-parsed to_lower_case opts from to p q h = (
    stub_of to_lower_case opts from to,
    rw (p, q) refl,
    parse_migration_provenance_from_text-render_header (stub_fields opts from to) h
        (render_body (stub_fields opts from to)),
  )
