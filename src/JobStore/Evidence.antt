-- ===== src/JobStore/Evidence.antt =====
-- What database.rs asks of a job's rows before it may end, and the counts that it takes of them.
use document_studio.Base.{
  ℕ, String, Bool, true, false, not, ◌&&◌, ◌||◌, List, Option, none, some, is_some, is_none, str_eq,
  ltb, ◌==◌, is_empty, all, count_if, Result, ok, err, ◌>>◌, refuse_if, if◌then◌else◌,
}
use document_studio.Contracts.JobState.{JobState, completed}
use document_studio.Contracts.OutputStatus.{OutputStatus}
use document_studio.Contracts.CompletionKind
use document_studio.Contracts.Records.{JobOutput, JobRecord}
use document_studio.JobEngine.{state_eq}
use document_studio.JobStore.Tables.{
  DatabaseError, sqlite, invalid_contract_value, OutputRow, OutcomeRow, Database,
}

-- `status = 'published'`.
abbrev pub is_published : OutputStatus → Bool
is_published OutputStatus.published = true
is_published _ = false

-- `COUNT(*)` of the rows of one job.
unfoldable pub count_outputs : String → List OutputRow → ℕ
count_outputs id = count_if (λ o. str_eq o.job_id id)

unfoldable pub count_outcomes : String → List OutcomeRow → ℕ
count_outcomes id = count_if (λ o. str_eq o.job_id id)

unfoldable pub count_errors : String → List String → ℕ
count_errors id = count_if (λ job_id. str_eq job_id id)

unfoldable pub has_temporary_path : JobOutput → Bool
has_temporary_path o = is_some o.staging_path || is_some o.partial_path

-- The `CASE` of `terminal_evidence_is_ready`.
unfoldable pub is_delivered : JobOutput → Bool
is_delivered o =
    is_published o.status
    && (is_some o.final_path
        && (is_some o.size_bytes && (is_some o.sha256 && is_some o.published_at)))

-- The `CASE` of `complete_published_from_state`, and the closure of
-- `validate_loaded_completion_outcome`.
unfoldable pub is_fully_published : JobOutput → Bool
is_fully_published o =
    is_published o.status
    && (is_some o.resolved_name
        && (is_none o.staging_path
            && (is_none o.partial_path
                && (is_some o.final_path
                    && (is_some o.size_bytes
                        && (is_some o.sha256
                            && (is_some o.verified_at && is_some o.published_at)))))))

-- `SUM` of no row is `NULL`, which is not read as an integer.
unfoldable pub terminal_evidence_is_ready : String → JobState → Database → Result DatabaseError Bool
terminal_evidence_is_ready id next db =
    let temporary_paths =
      count_if (λ o. str_eq o.job_id id && has_temporary_path o.output) db.job_outputs in
    let expected = count_outputs id db.job_outputs in
    let published = count_if (λ o. str_eq o.job_id id && is_delivered o.output) db.job_outputs in
    if not (temporary_paths == 0)
    then ok false
    else if not (state_eq next completed)
    then ok true
    else if expected == 0
    then err sqlite
    else ok (ltb 0 expected && (published == expected))

-- What a completion outcome that is read from the tables must agree with. There is one reason, so
-- a reason that is not `SavingsThresholdNotMet` is none.
unfoldable pub validate_loaded_completion_outcome : JobRecord → Result DatabaseError (Unit {0})
validate_loaded_completion_outcome job = by_kind job.completion_kind
  where
    of_ended : JobRecord → CompletionKind.JobCompletionKind → Result DatabaseError (Unit {0})
    of_ended job CompletionKind.published =
        refuse_if
          (is_some job.reason
            || (is_none job.resolved_output_name
                || not (not (is_empty job.outputs) && all is_fully_published job.outputs)))
          (invalid_contract_value "published completion evidence")
    of_ended job CompletionKind.no_benefit =
        refuse_if
          (is_none job.reason
            || (not (is_empty job.outputs)
                || (not (is_empty job.errors) || is_some job.resolved_output_name)))
          (invalid_contract_value "no-benefit completion evidence")

    by_kind : Option CompletionKind.JobCompletionKind → Result DatabaseError (Unit {0})
    by_kind none = refuse_if (is_some job.reason) (invalid_contract_value "completion outcome")
    by_kind (some kind) = do
      refuse_if (not (state_eq job.state completed) || is_none job.finished_at)
          (invalid_contract_value "completion outcome state")
      refuse_if (is_some job.cancellation_requested_at)
          (invalid_contract_value "completion outcome cancellation")
      of_ended job kind
