-- ===== src/Runner/Audit.antt =====
-- audit.ts of packages/migrate-runner: `makeAuditEntry` and the in-memory adapter. A shallow freeze
-- has no effect on the values of the model. An input that is `undefined` is not told apart from one
-- that is not given.
pub mod Cursor
use neko_stack.Common.{
  ℕ, String, Option, none, some, List, [], ◌∷◌, ◌++◌, Bool, true, false, ◌==◌, ◌&&◌, if◌then◌else◌,
}
use neko_stack.Runner.Types.{ErrorClassification, AuditStatus, AuditedHop, AuditEntry}

pub record MakeAuditEntryOpts (V : Type 0) : Type 0 where
  pub run_id : String
  pub schema_id : String
  pub from_version : String
  pub to_version : String
  pub chain_entries : List AuditedHop
  pub record_index : ℕ
  pub record_key : Option String
  pub status : AuditStatus
  pub classification : Option ErrorClassification
  pub error_message : Option String
  pub before : Option V
  pub after : Option V
  pub timestamp : Option String

-- `opts.timestamp ?? new Date().toISOString()`
abbrev pub stamp : {W : Type 0} → (W → String × W) → Option String → W → String × W
stamp clock none w = clock w
stamp clock (some given) w = (given, w)

abbrev pub is_success : AuditStatus → Bool
is_success AuditStatus.success = true
is_success AuditStatus.failure = false

module _ {V W : Type 0} where
  unfoldable pub make_audit_entry : (W → String × W) → MakeAuditEntryOpts V → W → AuditEntry V × W
  make_audit_entry clock opts w =
      let (timestamp, w') = stamp clock opts.timestamp w in
      (
        record {
          run_id = opts.run_id;
          schema_id = opts.schema_id;
          from_version = opts.from_version;
          to_version = opts.to_version;
          chain_entries = opts.chain_entries;
          record_index = opts.record_index;
          record_key = opts.record_key;
          status = opts.status;
          classification = opts.classification;
          error_message = opts.error_message;
          before = opts.before;
          after = opts.after;
          timestamp = timestamp;
        },
        w',
      )

module _ {V : Type 0} where
  -- The adapter's store is the list of its entries.
  unfoldable pub memory_append : AuditEntry V → List (AuditEntry V) → List (AuditEntry V)
  memory_append entry store = store ++ entry ∷ []

  unfoldable pub memory_cursor : String → List (AuditEntry V) → List ℕ
  memory_cursor run_id [] = []
  memory_cursor run_id (entry ∷ store) =
      let rest = memory_cursor run_id store in
      if entry.run_id == run_id && is_success entry.status then entry.record_index ∷ rest else rest
