-- ===== src/JobStore/Balanced.antt =====
-- `register_verified_balanced_output` of database.rs: the one output of a balanced compression is
-- written when it has been verified.
use document_studio.Base.{
  ℕ, ◌+◌, String, Bool, true, not, ◌&&◌, ◌||◌, ◌∷◌, Option, none, some, is_some, is_none, str_eq,
  ◌==◌, any, Result, ok, ◌>>=◌, ◌>>◌, refuse_if,
}
use document_studio.Contracts.JobState.{verifying}
use document_studio.Contracts.OutputStatus
use document_studio.Contracts.Operations.{balanced_compression_operation_id}
use document_studio.Contracts.Records.{JobOutput}
use document_studio.JobEngine.{state_eq, next_u64}
use document_studio.JobStore.Tables.{
  DatabaseError, sqlite, invalid_contract_value, job_conflict, OutputRow, Database,
  job_row_is_valid, output_row_is_valid, metadata_i64,
}
use document_studio.JobStore.Sql.{update}
use document_studio.JobStore.Evidence.{count_outputs}
use document_studio.JobStore.Publication.{is_verified}
pub mod Moves

unfoldable pub is_verified_output : JobOutput → Bool
is_verified_output o =
    (o.ordinal == 0)
    && (is_verified o.status
        && (is_some o.staging_path
            && (is_some o.size_bytes
                && (is_some o.sha256
                    && (is_some o.verified_at
                        && (is_none o.resolved_name
                            && (is_none o.partial_path
                                && (is_none o.final_path && is_none o.published_at))))))))

-- `unwrap`, where the value has been tested to be there.
abbrev pub unwrapped : Option ℕ → ℕ
unwrapped none = 0
unwrapped (some n) = n

-- The row that is inserted.
abbrev pub verified_row : String → JobOutput → ℕ → OutputRow
verified_row id output size = record {
  job_id = id;
  output = record {
    ordinal = 0;
    requested_name = output.requested_name;
    resolved_name = none;
    staging_path = output.staging_path;
    partial_path = none;
    final_path = none;
    size_bytes = some size;
    mime_type = output.mime_type;
    sha256 = output.sha256;
    status = OutputStatus.verified;
    verified_at = output.verified_at;
    published_at = none;
  };
}

-- `now` is the time of the call. The `INSERT` fails on a `CHECK` and on a job that is not there.
unfoldable pub register_verified_balanced_output :
    String → String → ℕ → JobOutput → Database → Result DatabaseError (Database × ℕ)
register_verified_balanced_output now id expected_version output db = do
  refuse_if (not (is_verified_output output)) (invalid_contract_value "balanced verified output")
  version ← metadata_i64 expected_version "job version"
  size ← metadata_i64 (unwrapped output.size_bytes) "output size"
  refuse_if (not (count_outputs id db.job_outputs == 0)) job_conflict
  refuse_if
      (not (output_row_is_valid (verified_row id output size) && any (λ j. str_eq j.id id) db.jobs))
      sqlite
  (jobs, changed) ←
      update job_row_is_valid
        (λ j.
          str_eq j.id id
          && (str_eq j.operation_id balanced_compression_operation_id
              && (state_eq j.state verifying
                  && ((j.version == version)
                      && (is_none j.cancellation_requested_at && is_none j.resolved_output_name)))))
        (λ j. record j { updated_at = now; version = j.version + 1; sequence = j.sequence + 1 })
        db.jobs
  refuse_if (not (changed == 1)) job_conflict
  ok (
    record db { jobs = jobs; job_outputs = verified_row id output size ∷ db.job_outputs },
    next_u64 expected_version,
  )
