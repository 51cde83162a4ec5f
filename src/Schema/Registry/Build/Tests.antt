-- ===== src/Schema/Registry/Build/Tests.antt =====
-- Runs of `buildRegistry` of packages/schema, and the instance of the theorem about it.
use neko_stack.Common.{ℕ, ◌≡◌, refl, String, none, some, List, [], ◌∷◌, length, arith}
use neko_stack.Schema.Issues.{Issue, failure}
use neko_stack.Schema.Ir.{string}
use neko_stack.Schema.Registry.{AnySchema}
use neko_stack.Schema.Registry.Build.{
  Hashes, RegistrySourceEntry, id_of, build_registry, built_entry,
}
use neko_stack.Schema.Registry.Build.First.{built_of, repeats, build_registry_lem}

abbrev named : String → String → AnySchema ℕ
named id version = record {
  node = string (record {
    metadata =
        some
          (record { id = some id; version = some version; description = none; deprecated = none });
    modifiers = none;
    refinements = none;
  });
}

-- A text stands for its own digest.
abbrev hashes : Hashes ℕ
hashes = record { sha256 = λ s. s; ir_hash = λ n. "i" }

abbrev source : String → List (AnySchema ℕ) → RegistrySourceEntry ℕ
source path schemas = record { source_path = path; source_text = "t"; schemas = schemas }

abbrev two_files : List (RegistrySourceEntry ℕ)
two_files =
    source "a.schema.ts" (named "a" "1" ∷ named "a" "2" ∷ [])
    ∷ source "b.schema.ts" (named "a" "1" ∷ [])
    ∷ []

no_repeats : repeats [] (built_of hashes (source "a.schema.ts" (named "a" "1" ∷ []) ∷ [])) ≡ 0
unfolding repeats built_of built_entry id_of
no_repeats = refl

one_repeat : repeats [] (built_of hashes two_files) ≡ 1
unfolding repeats built_of built_entry id_of
one_repeat = refl

build_registry_lem_example :
    (issues : List Issue) × (build_registry hashes two_files ≡ failure issues)
    × (length issues ≡ repeats [] (built_of hashes two_files))
build_registry_lem_example =
    (build_registry_lem hashes two_files).1 (λ e. absurd (omega (arith, e, one_repeat)))
