-- ===== src/JobStore/Recovery.antt =====
-- The operations of database.rs that keep the stage runs of a job, by which a restart knows what
-- was owned, and the interruption of a job.
use document_studio.Base.{
  ℕ, ◌+◌, String, Bool, true, false, not, ◌&&◌, List, [], ◌∷◌, Option, none, some, is_some, str_eq,
  ◌==◌, ltb, any, Result, ok, ◌>>=◌, ◌>>◌, refuse_if, if◌then◌else◌,
}
use document_studio.Contracts.JobState.{JobState, interrupted}
use document_studio.Contracts.OperationStage.{OperationStage}
use document_studio.Contracts.Records.{JobOutput}
use document_studio.JobEngine.{can_transition, state_eq}
use document_studio.JobStore.Tables.{
  DatabaseError, job_conflict, illegal_transition, PublicationEvidence, JobRow, OutputRow,
  StageRunRow, Database, job_row_is_valid,
}
use document_studio.JobStore.Sql.{update, query_row, equals}
use document_studio.JobStore.Publication.{is_output_at, is_near_the_end}

abbrev pub legacy_cleanup_proven : String
legacy_cleanup_proven = "LEGACY_CLEANUP_PROVEN"

abbrev pub is_publish : OperationStage → Bool
is_publish OperationStage.publish = true
is_publish _ = false

abbrev pub is_recovery : OperationStage → Bool
is_recovery OperationStage.recovery = true
is_recovery _ = false

-- `COALESCE(MAX(sequence), -1) + 1` over the runs of one job.
unfoldable pub next_sequence : String → List StageRunRow → ℕ
next_sequence id [] = 0
next_sequence id (run ∷ runs) =
    let rest = next_sequence id runs in
    if str_eq run.job_id id && ltb rest (run.sequence + 1) then run.sequence + 1 else rest

-- A finished run of a stage of one job with one result.
unfoldable pub has_run : String → (OperationStage → Bool) → String → List StageRunRow → Bool
has_run id is_stage result_code =
    any (λ r. str_eq r.job_id id && (is_stage r.stage && equals r.safe_result_code result_code))

-- The `INSERT` of a run that has no units.
abbrev pub insert_run : String → String → OperationStage → String → Database → Database
insert_run now id stage result_code db = record db {
  job_stage_runs =
      record {
        job_id = id;
        sequence = next_sequence id db.job_stage_runs;
        stage = stage;
        started_at = now;
        finished_at = some now;
        safe_result_code = some result_code;
      }
      ∷ db.job_stage_runs;
}

unfoldable pub activate_owned_partial_at :
    String → String → ℕ → String → String → Database → Result DatabaseError Database
activate_owned_partial_at now id ordinal expected_partial_path ownership_result_code db = do
  refuse_if
      (not (
        any (λ j. str_eq j.id id && is_near_the_end j.state) db.jobs
        && any
            (λ o. is_output_at id ordinal o && equals o.output.partial_path expected_partial_path)
            db.job_outputs))
      job_conflict
  ok (
      if has_run id is_publish ownership_result_code db.job_stage_runs
      then db
      else insert_run now id OperationStage.publish ownership_result_code db)

unfoldable pub owned_partial_is_activated_at : String → ℕ → String → String → Database → Bool
owned_partial_is_activated_at id ordinal expected_partial_path ownership_result_code db =
    any (λ j. str_eq j.id id) db.jobs
    && (any (λ o. is_output_at id ordinal o && equals o.output.partial_path expected_partial_path)
          db.job_outputs
        && has_run id is_publish ownership_result_code db.job_stage_runs)

unfoldable pub record_recovery_result_once : String → String → String → Database → Database
record_recovery_result_once now id result_code db =
    if has_run id is_recovery result_code db.job_stage_runs
    then db
    else insert_run now id OperationStage.recovery result_code db

unfoldable pub legacy_cleanup_is_proven : String → Database → Bool
legacy_cleanup_is_proven id db = has_run id is_recovery legacy_cleanup_proven db.job_stage_runs

-- The evidence of a row in which all of its parts are there.
unfoldable pub evidence_of : JobOutput → Option PublicationEvidence
evidence_of o = of_parts o.final_path o.resolved_name o.size_bytes o.sha256
  where
    of_parts : Option String → Option String → Option ℕ → Option String → Option PublicationEvidence
    of_parts (some final_path) (some resolved_name) (some size_bytes) (some sha256) = some (record {
      final_path = final_path;
      resolved_name = resolved_name;
      size_bytes = size_bytes;
      sha256 = sha256;
      status = o.status;
      partial_path = o.partial_path;
    })
    of_parts _ _ _ _ = none

unfoldable pub publication_evidence_at : String → ℕ → Database → Option PublicationEvidence
publication_evidence_at id ordinal db = of_row (
    query_row
      (λ o.
        is_output_at id ordinal o
        && (is_some o.output.final_path
            && (is_some o.output.resolved_name
                && (is_some o.output.size_bytes && is_some o.output.sha256))))
      db.job_outputs)
  where
    of_row : Option OutputRow → Option PublicationEvidence
    of_row none = none
    of_row (some row) = evidence_of row.output

unfoldable pub mark_interrupted :
    String → String → JobState → Database → Result DatabaseError Database
mark_interrupted now id expected_state db =
    if state_eq expected_state interrupted then again else for_the_first_time
  where
    recovering : JobState → JobRow → JobRow
    recovering s j = record j {
      state = s;
      stage = some OperationStage.recovery;
      recovery_count = j.recovery_count + 1;
      updated_at = now;
      version = j.version + 1;
      sequence = j.sequence + 1;
    }

    again : Result DatabaseError Database
    again = do
      (jobs, changed) ←
          update job_row_is_valid (λ j. str_eq j.id id && state_eq j.state interrupted)
            (λ j. recovering j.state j) db.jobs
      ok (record db { jobs = jobs })

    for_the_first_time : Result DatabaseError Database
    for_the_first_time = do
      refuse_if (not (can_transition expected_state interrupted)) illegal_transition
      (jobs, changed) ←
          update job_row_is_valid (λ j. str_eq j.id id && state_eq j.state expected_state)
            (λ j. recovering interrupted j) db.jobs
      refuse_if (not (changed == 1)) job_conflict
      ok (record db { jobs = jobs })
