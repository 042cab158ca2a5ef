-- ===== src/JobStore/Tables.antt =====
-- The rows of the tables of database.rs, by the columns that the operations here read or write, and
-- the errors of its operations. The states and stages that a column holds as text are the values
-- that the text stands for, which the `CHECK`s of the schema ask for.
use document_studio.Base.{
  ℕ, ◌^◌, String, Bool, true, ◌&&◌, ◌||◌, List, Option, none, some, ltb, leb, ◌==◌, all, length,
  within, Result, ok, err, if◌then◌else◌,
}
use document_studio.Base.Text.{codes}
use document_studio.Contracts.JobState.{JobState}
use document_studio.Contracts.OperationStage.{OperationStage}
use document_studio.Contracts.ProgressUnit.{ProgressUnit}
use document_studio.Contracts.OutputStatus.{OutputStatus}
use document_studio.Contracts.CompletionKind.{JobCompletionKind}
use document_studio.Contracts.CompletionReason.{JobCompletionReason}
use document_studio.Contracts.Records.{JobOutput}

pub data DatabaseError : Type 0 where
  sqlite : DatabaseError
  migration_checksum : ℕ → DatabaseError
  unknown_migration : ℕ → DatabaseError
  invalid_contract_value : String → DatabaseError
  setting_not_allowed setting_conflict job_conflict illegal_transition : DatabaseError
  terminal_evidence_missing legacy_cleanup_unproven json : DatabaseError
  operation_plan_invalid operation_plan_mismatch : DatabaseError
  operation_spec_invalid operation_spec_mismatch batch_plan_conflict : DatabaseError

pub record PublicationEvidence : Type 0 where
  pub final_path : String
  pub resolved_name : String
  pub size_bytes : ℕ
  pub sha256 : String
  pub status : OutputStatus
  pub partial_path : Option String

-- A row of `jobs`.
pub record JobRow : Type 0 where
  pub id : String
  pub operation_id : String
  pub state : JobState
  pub stage : Option OperationStage
  pub sequence : ℕ
  pub completed_units : ℕ
  pub total_units : ℕ
  pub unit : ProgressUnit
  pub resolved_output_name : Option String
  pub cancellation_requested_at : Option String
  pub updated_at : String
  pub finished_at : Option String
  pub recovery_count : ℕ
  pub version : ℕ

-- A row of `job_outputs`.
pub record OutputRow : Type 0 where
  pub job_id : String
  pub output : JobOutput

-- A row of `job_completion_outcomes`.
pub record OutcomeRow : Type 0 where
  pub job_id : String
  pub completion_kind : JobCompletionKind
  pub reason : Option JobCompletionReason
  pub created_at : String

-- A row of `job_stage_runs`; the units of the ones written here are 0.
pub record StageRunRow : Type 0 where
  pub job_id : String
  pub sequence : ℕ
  pub stage : OperationStage
  pub started_at : String
  pub finished_at : Option String
  pub safe_result_code : Option String

pub record Database : Type 0 where
  pub jobs : List JobRow
  pub job_outputs : List OutputRow
  -- The job of each row of `job_errors`.
  pub job_errors : List String
  pub job_completion_outcomes : List OutcomeRow
  pub job_stage_runs : List StageRunRow

-- The largest integer of SQLite is `2 ^ 63 - 1`.
abbrev pub is_i64 : ℕ → Bool
is_i64 n = ltb n (2 ^ 63)

unfoldable pub is_lower_sha256 : String → Bool
is_lower_sha256 value =
    (length (codes value) == 64)
    && all (λ byte. within 48 57 byte || within 97 102 byte) (codes value)

-- The `CHECK`s of `jobs` and `job_outputs` that the writes here could break.
unfoldable pub job_row_is_valid : JobRow → Bool
job_row_is_valid j =
    (leb j.completed_units j.total_units || (j.total_units == 0))
    && (is_i64 j.sequence
        && (is_i64 j.version
            && (is_i64 j.recovery_count && (is_i64 j.completed_units && is_i64 j.total_units))))

unfoldable pub output_row_is_valid : OutputRow → Bool
output_row_is_valid o = is_valid_hash o.output.sha256
  where
    is_valid_hash : Option String → Bool
    is_valid_hash none = true
    is_valid_hash (some h) = is_lower_sha256 h

unfoldable pub metadata_i64 : ℕ → String → Result DatabaseError ℕ
metadata_i64 value field = if is_i64 value then ok value else err (invalid_contract_value field)
