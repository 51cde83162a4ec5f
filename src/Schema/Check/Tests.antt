-- ===== src/Schema/Check/Tests.antt =====
-- Runs of the freshness check of packages/schema, and the instances of the theorems about it.
use neko_stack.Common.{ℕ, String, ◌≡◌, ◌≢◌, ◌↔◌, ◌⊎◌, refl, Option, none, some, [], ◌∷◌, map}
use neko_stack.Samples.{nat_number, user1}
use neko_stack.Schema.Issues.{success}
use neko_stack.Schema.Jsdoc.{is_space, is_word, is_terminator}
use neko_stack.Schema.Registry.{Registry, RegistryEntry}
use neko_stack.Schema.Provenance.{ParsedJson, syntax_error}
use neko_stack.Schema.Check.{
  clean, cosmetic_drift, integrity_error, FreshnessVerdict, CommittedArtifact, verdict, status_for,
  classify_artifact, check_handler,
}
use neko_stack.Schema.Check.Verdicts.{status_for_matrix, check_handler-success_iff}

abbrev digest : String
digest = "sha256:0123456789abcdef0123456789abcdef0123456789abcdef0123456789abcdef"

abbrev entry : RegistryEntry ℕ
entry = record {
  schema_id = "user";
  schema_version = some "1";
  ir_hash = digest;
  source_hash = digest;
  source_path = "user.schema.ts";
  schema = record { node = user1 };
}

abbrev registry : Registry ℕ
registry = ("user", ("1", entry) ∷ []) ∷ []

abbrev artifact : CommittedArtifact
artifact = record {
  path = "user.ts";
  content =
      "/**\n * @generated\n * generator: g\n * generatorVersion: 1\n * schemaId: user\n * schemaVersion: 1\n * irHash: sha256:0123456789abcdef0123456789abcdef0123456789abcdef0123456789abcdef\n */\n";
}

abbrev no_json : String → ParsedJson ℕ
no_json s = syntax_error "no JSON"

abbrev fresh : FreshnessVerdict
fresh = record { status = clean; artifact_path = "user.ts" }

classified :
    map (λ a. classify_artifact no_json a registry) (artifact ∷ []) ≡ map verdict (fresh ∷ [])
unfolding classify_artifact is_space is_word is_terminator
classified = refl

check_handler-success_iff_example :
    (check_handler no_json registry (artifact ∷ []) ≡ success (fresh ∷ []))
    ↔ (map (λ a. classify_artifact no_json a registry) (artifact ∷ []) ≡ map verdict (fresh ∷ []))
check_handler-success_iff_example =
    check_handler-success_iff no_json registry (artifact ∷ []) (fresh ∷ [])

checked : check_handler no_json registry (artifact ∷ []) ≡ success (fresh ∷ [])
checked = (check_handler-success_iff no_json registry (artifact ∷ []) (fresh ∷ [])).1 classified

abbrev recorded : Option String
recorded = some digest

status_for_matrix_example :
    ((status_for digest recorded entry ≡ clean)
      ↔ ((digest ≡ digest) × ((recorded ≡ none) ⊎ (recorded ≡ some digest))))
    × ((status_for digest recorded entry ≡ integrity_error)
        ↔ ((digest ≢ digest) × (recorded ≡ some digest)))
    × ((status_for digest recorded entry ≡ cosmetic_drift)
        ↔ ((digest ≡ digest) × (recorded ≢ none) × (recorded ≢ some digest)))
status_for_matrix_example = status_for_matrix digest recorded entry
