-- ===== src/Schema/Diff/Changes.antt =====
-- `DiffSeverity`, `DiffKind` and `DiffChange` of registry/types.ts, and the aggregation of severities
-- (`computeWorstSeverity`, the same code in registry/handlers/diff.ts and plan-migration.ts).
use neko_stack.Common.{ℕ, String, Bool, Option, none, some, List, [], ◌∷◌, ltb, if◌then◌else◌}
use neko_stack.Js.Json.{Json}
use neko_stack.Schema.Issues.{IssuePath}
use neko_stack.Schema.Ir.{SchemaNode, PortableRefinement}

pub data DiffSeverity : Type 0 where
  breaking additive cosmetic : DiffSeverity

pub data DiffKind : Type 0 where
  field_added field_removed refinement_changed unknown_keys_changed : DiffKind
  enum_value_added enum_value_removed literal_changed : DiffKind
  default_added default_removed default_value_changed : DiffKind
  absence_modifier_changed metadata_changed refinements_reordered : DiffKind
  schema_version_changed type_changed : DiffKind

-- What stands in `before` and `after` (`unknown` in the source).
pub data Shown (N : Type 0) : Type 0 where
  null undefined : Shown N
  text : String → Shown N
  flag : Bool → Shown N
  json : Json N → Shown N
  node : SchemaNode N → Shown N
  refinement : PortableRefinement N → Shown N

pub record DiffChange (N : Type 0) : Type 0 where
  pub severity : DiffSeverity
  pub path : IssuePath
  pub kind : DiffKind
  pub before : Option (Shown N)
  pub after : Option (Shown N)
  pub message : String

abbrev pub severity_rank : DiffSeverity → ℕ
severity_rank cosmetic = 0
severity_rank additive = 1
severity_rank breaking = 2

module _ {N : Type 0} where
  -- the loop of `computeWorstSeverity`
  unfoldable pub worst_from : DiffSeverity → List (DiffChange N) → DiffSeverity
  worst_from worst [] = worst
  worst_from worst (c ∷ changes) =
      worst_from
        (if ltb (severity_rank worst) (severity_rank c.severity) then c.severity else worst) changes

  unfoldable pub compute_worst_severity : List (DiffChange N) → Option DiffSeverity
  unfolding worst_from
  compute_worst_severity [] = none
  compute_worst_severity (c ∷ changes) = some (worst_from cosmetic (c ∷ changes))
