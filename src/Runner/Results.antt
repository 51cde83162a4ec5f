-- ===== src/Runner/Results.antt =====
-- runner.ts of packages/migrate-runner: the variables that the loop over the records changes, and the
-- results that are made of them.
use neko_stack.Common.{ℕ, ◌+◌, String, Option, none, some, [], ◌∷◌, ltb, nat_eq, if◌then◌else◌}
use neko_stack.Js.Text.{template, nat_text}
use neko_stack.Js.Throws.{Cause}
use neko_stack.Runner.Types.{
  RunMode, ErrorClassification, adapter_init_failed, cancelled, classification_text, RunCounts,
  RunResult, run_failure,
}

pub record FirstFailure : Type 0 where
  pub classification : ErrorClassification
  pub message : String

-- The variables that the loop changes.
pub record Progress : Type 0 where
  pub record_count : ℕ
  pub success_count : ℕ
  pub failure_count : ℕ
  pub first_failure : Option FirstFailure

abbrev pub no_progress : Progress
no_progress = record {
  record_count = 0;
  success_count = 0;
  failure_count = 0;
  first_failure = none;
}

abbrev pub counts_of : Progress → RunCounts
counts_of p = record {
  record_count = p.record_count;
  success_count = p.success_count;
  failure_count = p.failure_count;
}

-- How an iteration, and the loop, end: the loop goes on (or is over), the run returns, or an error
-- is thrown.
pub data Step : Type 0 where
  going : Progress → Step
  ended : RunResult → Step
  thrown : Cause → Progress → Step

abbrev pub plural : ℕ → String
plural n = if nat_eq n 1 then "" else "s"

abbrev pub first_or_fallback : Option FirstFailure → FirstFailure
first_or_fallback none = record {
  classification = adapter_init_failed;
  message = "no per-record failure recorded";
}
first_or_fallback (some first) = first

unfoldable pub aggregate_failure_result : String → RunMode → Progress → RunResult
unfolding template nat_text classification_text
aggregate_failure_result run_id mode p =
    let first = first_or_fallback p.first_failure in
    run_failure run_id mode first.classification
      (if ltb 1 p.failure_count
        then template (
            nat_text p.failure_count
            ∷ " of "
            ∷ nat_text p.record_count
            ∷ " record"
            ∷ plural p.record_count
            ∷ " failed; first failure (`"
            ∷ classification_text first.classification
            ∷ "`): "
            ∷ first.message
            ∷ [])
        else first.message)
      (some (counts_of p))

-- `processed` is `p.record_count` at the calls in the loop, and 0 before it.
unfoldable pub cancelled_result : String → RunMode → Progress → RunResult
unfolding template nat_text
cancelled_result run_id mode p =
    run_failure run_id mode cancelled
      (if nat_eq p.record_count 0
        then "Run cancelled before any record was processed."
        else template (
            "Run cancelled after "
            ∷ nat_text p.record_count
            ∷ " record"
            ∷ plural p.record_count
            ∷ "."
            ∷ []))
      (some (counts_of p))

unfoldable pub note_failure : FirstFailure → Progress → Progress
note_failure failure p = record p {
  failure_count = p.failure_count + 1;
  first_failure = elim p.first_failure [ none ↦ some failure | some first ↦ some first ];
}
