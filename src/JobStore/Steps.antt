-- ===== src/JobStore/Steps.antt =====
-- The operations of database.rs as the steps of a sequence of calls, in which a call that fails
-- leaves the tables as they were. The operations that add or delete whole jobs (creation, batches,
-- history and retention) are no steps, and neither are those that write to no table that the model
-- has (`record_warning`, `update_input_hash`, the audits) or only a job's errors (`record_error`).
use document_studio.Base.{ℕ, String, Bool, List, [], ◌∷◌, Option, Result, ok, err}
use document_studio.Contracts.JobState.{JobState}
use document_studio.Contracts.OperationStage.{OperationStage}
use document_studio.Contracts.ProgressUnit.{ProgressUnit}
use document_studio.Contracts.CompletionReason.{JobCompletionReason}
use document_studio.Contracts.Records.{JobOutput}
use document_studio.JobStore.Balanced.{register_verified_balanced_output}
use document_studio.JobStore.Tables.{DatabaseError, Database}
use document_studio.JobStore.Changes.{
  transition_job, complete_no_benefit, complete_published, complete_recovered_published,
  request_cancellation, update_progress,
}
use document_studio.JobStore.Publication.{
  set_output_staging_at, reserve_publication_attempt_at, clear_owned_partial_at,
  clear_staging_path_at, clear_unpublished_intent_at, set_publication_intent_at,
  begin_publication_at, set_output_published_at,
}
use document_studio.JobStore.Recovery.{
  activate_owned_partial_at, record_recovery_result_once, mark_interrupted,
}

-- A call with its arguments, of which the first is the job's id.
pub data Call : Type 0 where
  transition : String → JobState → ℕ → JobState → Option OperationStage → Call
  no_benefit : String → ℕ → JobCompletionReason → String → Call
  published : String → ℕ → String → Call
  recovered : String → JobState → ℕ → Call
  cancel : String → Call
  progress : String → JobState → OperationStage → ℕ → ℕ → ProgressUnit → Call
  stage_output : String → ℕ → String → ℕ → String → String → Call
  reserve : String → ℕ → String → String → String → ℕ → String → Call
  clear_partial : String → ℕ → String → Call
  activate : String → ℕ → String → String → Call
  clear_staging : String → ℕ → Option String → Call
  clear_intent : String → ℕ → Call
  intend : String → ℕ → String → String → ℕ → String → Call
  begin : String → ℕ → String → String → ℕ → String → Call
  publish_output : String → ℕ → String → String → ℕ → String → Option String → Call
  interrupt : String → JobState → Call
  record_recovery : String → String → Call
  register : String → ℕ → JobOutput → Call

-- The tables of a result, without the value that the caller also gets.
abbrev pub tables :
    {A : Type 0} → Result DatabaseError (Database × A) → Result DatabaseError Database
tables (ok (db, a)) = ok db
tables (err e) = err e

abbrev pub committed : Database → Result DatabaseError Database → Database
committed db (ok new) = new
committed db (err e) = db

module _ (parse_from_rfc3339 : String → Bool) where
  unfoldable pub call : String → Call → Database → Result DatabaseError Database
  call now (transition id expected version next stage) db =
      tables (transition_job now id expected version next stage db)
  call now (no_benefit id version reason timestamp) db =
      tables (complete_no_benefit parse_from_rfc3339 id version reason timestamp db)
  call now (published id version timestamp) db =
      tables (complete_published parse_from_rfc3339 id version timestamp db)
  call now (recovered id expected version) db =
      tables (complete_recovered_published parse_from_rfc3339 now id expected version db)
  call now (cancel id) db = tables (request_cancellation now id db)
  call now (progress id expected stage done total unit) db =
      tables (update_progress now id expected stage done total unit db)
  call now (stage_output id ordinal path size sha256 verified_at) db =
      set_output_staging_at id ordinal path size sha256 verified_at db
  call now (reserve id ordinal name final_path partial_path size sha256) db =
      reserve_publication_attempt_at now id ordinal name final_path partial_path size sha256 db
  call now (clear_partial id ordinal path) db = clear_owned_partial_at id ordinal path db
  call now (activate id ordinal path code) db =
      activate_owned_partial_at now id ordinal path code db
  call now (clear_staging id ordinal path) db = clear_staging_path_at id ordinal path db
  call now (clear_intent id ordinal) db = clear_unpublished_intent_at now id ordinal db
  call now (intend id ordinal name final_path size sha256) db =
      set_publication_intent_at now id ordinal name final_path size sha256 db
  call now (begin id ordinal name final_path size sha256) db =
      begin_publication_at now id ordinal name final_path size sha256 db
  call now (publish_output id ordinal name final_path size sha256 partial_path) db =
      set_output_published_at now id ordinal name final_path size sha256 partial_path db
  call now (register id version output) db =
      tables (register_verified_balanced_output now id version output db)
  call now (interrupt id expected) db = mark_interrupted now id expected db
  call now (record_recovery id code) db = ok (record_recovery_result_once now id code db)

  -- The calls of a run, each with its time.
  unfoldable pub run : List (String × Call) → Database → Database
  run [] db = db
  run ((now, c) ∷ calls) db = run calls (committed db (call now c db))
