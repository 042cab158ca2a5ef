-- ===== src/JobStore/Changes.antt =====
-- The operations of database.rs that change the state or the progress of one job.
use document_studio.Base.{
  ℕ, ◌+◌, String, Bool, true, not, ◌&&◌, ◌||◌, ◌∷◌, Option, none, some, is_some, is_none, str_eq,
  ◌==◌, Result, ok, ◌>>=◌, ◌>>◌, refuse_if, ok_or, if◌then◌else◌, count_if,
}
use document_studio.Contracts.JobState.{
  JobState, verifying, publishing, completed, interrupted, is_terminal,
}
use document_studio.Contracts.OperationStage.{OperationStage}
use document_studio.Contracts.ProgressUnit.{ProgressUnit}
use document_studio.Contracts.CompletionKind
use document_studio.Contracts.CompletionReason.{JobCompletionReason}
use document_studio.JobEngine.{can_transition, is_cancellable, state_eq, next_u64}
use document_studio.JobStore.Tables.{
  DatabaseError, sqlite, invalid_contract_value, job_conflict, illegal_transition,
  terminal_evidence_missing, JobRow, Database, job_row_is_valid, metadata_i64,
}
use document_studio.JobStore.Sql.{update, query_row}
use document_studio.JobStore.Evidence.{
  count_outputs, count_outcomes, count_errors, is_fully_published, terminal_evidence_is_ready,
}

-- `now` is the time of the call.
unfoldable pub transition_job :
    String
    → String
    → JobState
    → ℕ
    → JobState
    → Option OperationStage
    → Database
    → Result DatabaseError (Database × ℕ)
transition_job now id expected_state expected_version next stage db = do
  refuse_if (not (can_transition expected_state next)) illegal_transition
  is_ready ← if is_terminal next then terminal_evidence_is_ready id next db else ok true
  refuse_if (not is_ready) terminal_evidence_missing
  version ← metadata_i64 expected_version "job version"
  (jobs, changed) ←
      update job_row_is_valid
        (λ j. str_eq j.id id && (state_eq j.state expected_state && (j.version == version)))
        (λ j. record j {
          state = next;
          stage = stage;
          updated_at = now;
          finished_at = if is_terminal next then some now else none;
          version = j.version + 1;
          sequence = j.sequence + 1;
        })
        db.jobs
  refuse_if (not (changed == 1)) job_conflict
  ok (record db { jobs = jobs }, next_u64 expected_version)

-- The change of a job's row that ends it with an outcome.
abbrev pub completed_row : String → JobRow → JobRow
completed_row timestamp j = record j {
  state = completed;
  stage = none;
  completed_units = j.total_units;
  finished_at = some timestamp;
  updated_at = timestamp;
  version = j.version + 1;
  sequence = j.sequence + 1;
}

-- `DateTime::parse_from_rfc3339`, or rather whether it accepts a text.
module _ (parse_from_rfc3339 : String → Bool) where
  unfoldable pub validate_completion_timestamp : String → Result DatabaseError (Unit {0})
  validate_completion_timestamp timestamp =
      refuse_if (not (parse_from_rfc3339 timestamp)) (invalid_contract_value "completion timestamp")

  unfoldable pub complete_no_benefit :
      String → ℕ → JobCompletionReason → String → Database → Result DatabaseError (Database × ℕ)
  complete_no_benefit id expected_version reason timestamp db = do
    validate_completion_timestamp timestamp
    version ← metadata_i64 expected_version "job version"
    header ← ok_or (query_row (λ j. str_eq j.id id) db.jobs) job_conflict
    refuse_if
        (not (state_eq header.state verifying)
          || (not (header.version == expected_version) || is_some header.cancellation_requested_at))
        job_conflict
    refuse_if (is_some header.resolved_output_name) terminal_evidence_missing
    refuse_if
        (not (count_outputs id db.job_outputs == 0) || not (count_errors id db.job_errors == 0))
        terminal_evidence_missing
    refuse_if (not (count_outcomes id db.job_completion_outcomes == 0)) job_conflict
    (jobs, changed) ←
        update job_row_is_valid
          (λ j.
            str_eq j.id id
            && (state_eq j.state verifying
                && ((j.version == version)
                    && (is_none j.cancellation_requested_at && is_none j.resolved_output_name))))
          (completed_row timestamp) db.jobs
    refuse_if (not (changed == 1)) job_conflict
    ok (
      record db {
        jobs = jobs;
        job_completion_outcomes =
            record {
              job_id = id;
              completion_kind = CompletionKind.no_benefit;
              reason = some reason;
              created_at = timestamp;
            }
            ∷ db.job_completion_outcomes;
      },
      next_u64 expected_version,
    )

  unfoldable pub complete_published_from_state :
      String → JobState → ℕ → String → Database → Result DatabaseError (Database × ℕ)
  complete_published_from_state id expected_state expected_version timestamp db = do
    validate_completion_timestamp timestamp
    version ← metadata_i64 expected_version "job version"
    header ← ok_or (query_row (λ j. str_eq j.id id) db.jobs) job_conflict
    refuse_if
        (not (state_eq header.state expected_state)
          || (not (header.version == expected_version) || is_some header.cancellation_requested_at))
        job_conflict
    refuse_if (is_none header.resolved_output_name) terminal_evidence_missing
    let expected_outputs = count_outputs id db.job_outputs
    let published_outputs =
        count_if (λ o. str_eq o.job_id id && is_fully_published o.output) db.job_outputs
    refuse_if ((expected_outputs == 0) || not (published_outputs == expected_outputs))
        terminal_evidence_missing
    refuse_if (not (count_outcomes id db.job_completion_outcomes == 0)) job_conflict
    (jobs, changed) ←
        update job_row_is_valid
          (λ j.
            str_eq j.id id
            && (state_eq j.state expected_state
                && ((j.version == version)
                    && (is_none j.cancellation_requested_at && is_some j.resolved_output_name))))
          (completed_row timestamp) db.jobs
    refuse_if (not (changed == 1)) job_conflict
    ok (
      record db {
        jobs = jobs;
        job_completion_outcomes =
            record {
              job_id = id;
              completion_kind = CompletionKind.published;
              reason = none;
              created_at = timestamp;
            }
            ∷ db.job_completion_outcomes;
      },
      next_u64 expected_version,
    )

  unfoldable pub complete_published :
      String → ℕ → String → Database → Result DatabaseError (Database × ℕ)
  complete_published id expected_version timestamp =
      complete_published_from_state id publishing expected_version timestamp

  -- `now` is the time of the call.
  unfoldable pub complete_recovered_published :
      String → String → JobState → ℕ → Database → Result DatabaseError (Database × ℕ)
  complete_recovered_published now id expected_state expected_version db = do
    refuse_if (not (state_eq expected_state publishing || state_eq expected_state interrupted))
        illegal_transition
    complete_published_from_state id expected_state expected_version now db

-- `changed == 1` is the answer: an update of no row is no error.
unfoldable pub request_cancellation :
    String → String → Database → Result DatabaseError (Database × Bool)
request_cancellation now id db = do
  (jobs, changed) ←
      update job_row_is_valid
        (λ j. str_eq j.id id && (is_cancellable j.state && is_none j.cancellation_requested_at))
        (λ j. record j {
          cancellation_requested_at = some now;
          updated_at = now;
          version = j.version + 1;
        })
        db.jobs
  ok (record db { jobs = jobs }, changed == 1)

unfoldable pub update_progress :
    String
    → String
    → JobState
    → OperationStage
    → ℕ
    → ℕ
    → ProgressUnit
    → Database
    → Result DatabaseError (Database × ℕ)
update_progress now id expected_state stage completed_units total_units unit db = do
  done ← metadata_i64 completed_units "completed units"
  total ← metadata_i64 total_units "total units"
  (jobs, changed) ←
      update job_row_is_valid (λ j. str_eq j.id id && state_eq j.state expected_state)
        (λ j. record j {
          stage = some stage;
          completed_units = done;
          total_units = total;
          unit = unit;
          sequence = j.sequence + 1;
          version = j.version + 1;
          updated_at = now;
        })
        db.jobs
  refuse_if (not (changed == 1)) job_conflict
  row ← ok_or (query_row (λ j. str_eq j.id id) jobs) sqlite
  ok (record db { jobs = jobs }, row.sequence)
