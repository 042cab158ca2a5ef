-- ===== src/JobStore/Publication.antt =====
-- The operations of database.rs that record how the output files of a job are published. The ones
-- without an ordinal call these with ordinal 0.
use document_studio.Base.{
  ℕ, ◌+◌, String, Bool, true, false, not, ◌&&◌, ◌||◌, Option, none, some, is_some, is_none, str_eq,
  ◌==◌, Result, ok, ◌>>=◌, ◌>>◌, refuse_if, ok_or, if◌then◌else◌,
}
use document_studio.Contracts.JobState.{
  JobState, queued, inspecting, preflight, ready, running, verifying, publishing, interrupted,
}
use document_studio.Contracts.OperationStage
use document_studio.Contracts.OutputStatus.{OutputStatus}
use document_studio.JobEngine.{state_eq}
use document_studio.JobStore.Tables.{
  DatabaseError, job_conflict, OutputRow, Database, job_row_is_valid, output_row_is_valid,
  metadata_i64,
}
use document_studio.JobStore.Sql.{update, query_row, equals, matches}
use document_studio.JobStore.Evidence.{is_published}

-- `job_id = … AND ordinal = …`.
abbrev pub is_output_at : String → ℕ → OutputRow → Bool
is_output_at id ordinal o = str_eq o.job_id id && (o.output.ordinal == ordinal)

abbrev pub is_verified : OutputStatus → Bool
is_verified OutputStatus.verified = true
is_verified _ = false

abbrev pub is_publishing : OutputStatus → Bool
is_publishing OutputStatus.publishing = true
is_publishing _ = false

-- `state IN ('verifying', 'publishing')`.
abbrev pub is_near_the_end : JobState → Bool
is_near_the_end s = state_eq s verifying || state_eq s publishing

-- The states in which an intent may be taken back.
abbrev pub may_reset_intent : JobState → Bool
may_reset_intent queued = true
may_reset_intent inspecting = true
may_reset_intent preflight = true
may_reset_intent ready = true
may_reset_intent running = true
may_reset_intent verifying = true
may_reset_intent publishing = true
may_reset_intent interrupted = true
may_reset_intent _ = false

unfoldable pub set_output_staging_at :
    String → ℕ → String → ℕ → String → String → Database → Result DatabaseError Database
set_output_staging_at id ordinal staging_path size_bytes sha256 verified_at db = do
  size ← metadata_i64 size_bytes "output size"
  (job_outputs, changed) ←
      update output_row_is_valid (is_output_at id ordinal)
        (λ o. record o {
          output = record o.output {
            staging_path = some staging_path;
            size_bytes = some size;
            sha256 = some sha256;
            status = OutputStatus.verified;
            verified_at = some verified_at;
          };
        })
        db.job_outputs
  refuse_if (not (changed == 1)) job_conflict
  ok (record db { job_outputs = job_outputs })

unfoldable pub reserve_publication_attempt_at :
    String
    → String
    → ℕ
    → String
    → String
    → String
    → ℕ
    → String
    → Database
    → Result DatabaseError Database
reserve_publication_attempt_at now id ordinal resolved_name final_path partial_path size_bytes
      sha256 db =
    do
      size ← metadata_i64 size_bytes "output size"
      (job_outputs, output_changed) ←
          update output_row_is_valid
            (λ o.
              is_output_at id ordinal o
              && (is_none o.output.partial_path
                  && (is_verified o.output.status || is_publishing o.output.status)))
            (λ o. record o {
              output = record o.output {
                resolved_name = some resolved_name;
                final_path = some final_path;
                partial_path = some partial_path;
                size_bytes = some size;
                sha256 = some sha256;
              };
            })
            db.job_outputs
      (jobs, job_changed) ←
          update job_row_is_valid (λ j. str_eq j.id id && is_near_the_end j.state)
            (λ j. record j {
              resolved_output_name = some resolved_name;
              updated_at = now;
              version = j.version + 1;
            })
            db.jobs
      refuse_if (not (output_changed == 1) || not (job_changed == 1)) job_conflict
      ok (record db { jobs = jobs; job_outputs = job_outputs })

unfoldable pub clear_owned_partial_at :
    String → ℕ → String → Database → Result DatabaseError Database
clear_owned_partial_at id ordinal expected_partial_path db = do
  (job_outputs, changed) ←
      update output_row_is_valid
        (λ o. is_output_at id ordinal o && equals o.output.partial_path expected_partial_path)
        (λ o. record o { output = record o.output { partial_path = none } }) db.job_outputs
  refuse_if (not (changed == 1)) job_conflict
  ok (record db { job_outputs = job_outputs })

unfoldable pub clear_staging_path_at :
    String → ℕ → Option String → Database → Result DatabaseError Database
clear_staging_path_at id ordinal expected_staging_path db = do
  (job_outputs, changed) ←
      update output_row_is_valid
        (λ o. is_output_at id ordinal o && matches o.output.staging_path expected_staging_path)
        (λ o. record o { output = record o.output { staging_path = none } }) db.job_outputs
  refuse_if (not (changed == 1)) job_conflict
  ok (record db { job_outputs = job_outputs })

unfoldable pub clear_unpublished_intent_at :
    String → String → ℕ → Database → Result DatabaseError Database
clear_unpublished_intent_at now id ordinal db = do
  (job_outputs, output_changed) ←
      update output_row_is_valid
        (λ o.
          is_output_at id ordinal o
          && (is_none o.output.partial_path && not (is_published o.output.status)))
        (λ o. record o {
          output = record o.output {
            resolved_name = none;
            final_path = none;
            status =
                if is_publishing o.output.status then OutputStatus.verified else o.output.status;
          };
        })
        db.job_outputs
  (jobs, job_changed) ←
      update job_row_is_valid (λ j. str_eq j.id id && may_reset_intent j.state)
        (λ j. record j { resolved_output_name = none; updated_at = now; version = j.version + 1 })
        db.jobs
  refuse_if (not (output_changed == 1) || not (job_changed == 1)) job_conflict
  ok (record db { jobs = jobs; job_outputs = job_outputs })

-- The new values of an output that is being published.
abbrev pub intended : String → String → ℕ → String → OutputRow → OutputRow
intended resolved_name final_path size sha256 o = record o {
  output = record o.output {
    resolved_name = some resolved_name;
    final_path = some final_path;
    size_bytes = some size;
    sha256 = some sha256;
    status = OutputStatus.publishing;
  };
}

unfoldable pub set_publication_intent_at :
    String → String → ℕ → String → String → ℕ → String → Database → Result DatabaseError Database
set_publication_intent_at now id ordinal resolved_name final_path size_bytes sha256 db = do
  size ← metadata_i64 size_bytes "output size"
  (job_outputs, changed) ←
      update output_row_is_valid
        (λ o.
          is_output_at id ordinal o
          && (is_some o.output.partial_path
              && (equals o.output.resolved_name resolved_name
                  && equals o.output.final_path final_path)))
        (intended resolved_name final_path size sha256) db.job_outputs
  (jobs, state_changed) ←
      update job_row_is_valid (λ j. str_eq j.id id && state_eq j.state publishing)
        (λ j. record j {
          resolved_output_name = some resolved_name;
          updated_at = now;
          version = j.version + 1;
        })
        db.jobs
  refuse_if (not (changed == 1) || not (state_changed == 1)) job_conflict
  ok (record db { jobs = jobs; job_outputs = job_outputs })

unfoldable pub begin_publication_at :
    String → String → ℕ → String → String → ℕ → String → Database → Result DatabaseError Database
begin_publication_at now id ordinal resolved_name final_path size_bytes sha256 db = do
  size ← metadata_i64 size_bytes "output size"
  current ←
      ok_or (query_row (λ j. str_eq j.id id && state_eq j.state verifying) db.jobs) job_conflict
  (job_outputs, output_changed) ←
      update output_row_is_valid
        (λ o.
          is_output_at id ordinal o
          && (is_verified o.output.status
              && (is_some o.output.partial_path
                  && (equals o.output.resolved_name resolved_name
                      && equals o.output.final_path final_path))))
        (intended resolved_name final_path size sha256) db.job_outputs
  (jobs, state_changed) ←
      update job_row_is_valid
        (λ j. str_eq j.id id && (state_eq j.state verifying && (j.version == current.version)))
        (λ j. record j {
          state = publishing;
          stage = some OperationStage.publish;
          resolved_output_name = some resolved_name;
          updated_at = now;
          version = j.version + 1;
          sequence = j.sequence + 1;
        })
        db.jobs
  refuse_if (not (output_changed == 1) || not (state_changed == 1)) job_conflict
  ok (record db { jobs = jobs; job_outputs = job_outputs })

unfoldable pub set_output_published_at :
    String
    → String
    → ℕ
    → String
    → String
    → ℕ
    → String
    → Option String
    → Database
    → Result DatabaseError Database
set_output_published_at now id ordinal resolved_name final_path size_bytes sha256
      expected_partial_path db =
    do
      size ← metadata_i64 size_bytes "output size"
      (job_outputs, changed) ←
          update output_row_is_valid
            (λ o. is_output_at id ordinal o && matches o.output.partial_path expected_partial_path)
            (λ o. record o {
              output = record o.output {
                resolved_name = some resolved_name;
                final_path = some final_path;
                size_bytes = some size;
                sha256 = some sha256;
                status = OutputStatus.published;
                published_at = some now;
                partial_path = none;
              };
            })
            db.job_outputs
      refuse_if (not (changed == 1)) job_conflict
      ok (record db { job_outputs = job_outputs })
