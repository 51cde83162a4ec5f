-- ===== src/Runner/Types.antt =====
-- types.ts of packages/migrate-runner. The world that the adapters, the clock and the abort signal
-- read and change is a type `W`; an adapter's call returns the new world.
use neko_stack.Common.{ℕ, String, Bool, Option, none, some, List}
use neko_stack.Schema.Issues.{Issue}
use neko_stack.Schema.Registry.{Registry}
use neko_stack.Schema.Diff.Changes.{DiffSeverity}
use neko_stack.Js.Throws.{Cause, error, text, other}
use neko_stack.Migration.Types.{MigrationEntry, MigrationRegistry, PlanNote}

pub data RunMode : Type 0 where
  validate_only dry_run execute : RunMode

pub data ErrorClassification : Type 0 where
  input_validation_failed transform_threw transform_timeout : ErrorClassification
  output_validation_failed persist_failed : ErrorClassification
  pre_flight_failed adapter_init_failed cancelled : ErrorClassification

unfoldable pub classification_text : ErrorClassification → String
classification_text input_validation_failed = "input_validation_failed"
classification_text transform_threw = "transform_threw"
classification_text transform_timeout = "transform_timeout"
classification_text output_validation_failed = "output_validation_failed"
classification_text persist_failed = "persist_failed"
classification_text pre_flight_failed = "pre_flight_failed"
classification_text adapter_init_failed = "adapter_init_failed"
classification_text cancelled = "cancelled"

-- `errorMessageOf` of runner.ts, the same code in per-record-pipeline.ts
unfoldable pub error_message_of : Cause → String
error_message_of (error message) = message
error_message_of (text message) = message
error_message_of (other (some json) shown) = json
error_message_of (other none shown) = shown

pub data AuditStatus : Type 0 where
  success failure : AuditStatus

pub record AuditedHop : Type 0 where
  pub from_version : String
  pub to_version : String
  pub source_path : String

-- The discriminator `__auditSchemaVersion` is the constant "1" and is left out.
pub record AuditEntry (V : Type 0) : Type 0 where
  pub run_id : String
  pub schema_id : String
  pub from_version : String
  pub to_version : String
  pub chain_entries : List AuditedHop
  pub record_index : ℕ
  pub record_key : Option String
  pub status : AuditStatus
  pub classification : Option ErrorClassification
  pub error_message : Option String
  pub before : Option V
  pub after : Option V
  pub timestamp : String

-- An awaited call: it is fulfilled, or it throws; either way the world may have changed.
pub data Attempt (W A : Type 0) : Type 0 where
  fulfilled : A → W → Attempt W A
  threw : Cause → W → Attempt W A

-- The adapters, the clock and the signal, which are not the package's own code.
pub record Host (V W : Type 0) : Type 0 where
  pub random_uuid : W → String × W
  pub now : W → ℕ × W
  pub iso_timestamp : W → String × W
  -- what happens while the next record is awaited, and while a transform runs
  pub awaited : W → W
  pub transforming : MigrationEntry V → V → W → W
  -- `signal?.aborted`
  pub is_aborted : W → Bool
  pub persist : V → W → Attempt W (Unit {0})
  pub flush : Option (W → Attempt W (Unit {0}))
  pub append : AuditEntry V → W → Attempt W (Unit {0})
  pub cursor : String → W → Attempt W (List ℕ)

-- The input adapter's stream: the records that it yields, and what it throws at its end, if it does.
pub record RunnerOptions (N V W : Type 0) : Type 0 where
  pub schema_registry : Registry N
  pub migration_registry : MigrationRegistry V
  pub records : List V
  pub stream_throws : Option Cause
  pub host : Host V W

pub data OnError : Type 0 where
  continue stop : OnError

pub record RunOpts : Type 0 where
  pub schema_id : String
  pub from_version : String
  pub to_version : String
  pub mode : RunMode
  pub allow_cosmetic_drift : Option Bool
  pub transform_timeout_ms : Option ℕ
  pub on_error : Option OnError
  pub audit_before : Bool
  pub audit_after : Bool
  -- the run id of `resumeFrom`
  pub resume_from : Option String

pub record RunCounts : Type 0 where
  pub record_count : ℕ
  pub success_count : ℕ
  pub failure_count : ℕ

pub data RunResult : Type 0 where
  run_success : (run_id : String) → RunMode → RunCounts → RunResult
  run_failure :
      (run_id : String)
      → RunMode
      → ErrorClassification
      → (error_message : String) → Option RunCounts
      → RunResult

pub record PreFlightOpts (N V : Type 0) : Type 0 where
  pub schema_registry : Registry N
  pub migration_registry : MigrationRegistry V
  pub schema_id : String
  pub from_version : String
  pub to_version : String
  pub allow_cosmetic_drift : Option Bool

pub record PreFlightSuccess (V : Type 0) : Type 0 where
  pub schema_id : String
  pub from_version : String
  pub to_version : String
  pub chain : List (MigrationEntry V)
  pub version_path : List String
  pub worst_severity : Option DiffSeverity
  pub notes : List (PlanNote V)
  pub chain_scoped_registry : MigrationRegistry V

pub data PreFlightResult (V : Type 0) : Type 0 where
  ready : PreFlightSuccess V → PreFlightResult V
  refused : (error_message : String) → List Issue → PreFlightResult V

-- `chainIndex` is -1 where the input is refused: `none` here.
pub data PipelineResult (V : Type 0) : Type 0 where
  migrated : V → PipelineResult V
  failed :
      ErrorClassification
      → (chain_index : Option ℕ) → (error_message : String) → List Issue
      → PipelineResult V
