-- ===== src/JobStore/Tests.antt =====
-- A job with one published output, a job that is being verified, and the theorems of this component
-- at them.
use document_studio.Base.{
  ◌<◌, String, Bool, true, false, List, [], ◌∷◌, Option, none, some, ◌≡◌, refl, ap, arith, ok,
  is_ok,
}
use document_studio.Contracts.JobState.{
  JobState, verifying, publishing, completed, interrupted, is_terminal,
}
use document_studio.Contracts.OperationStage
use document_studio.Contracts.ProgressUnit
use document_studio.Contracts.OutputStatus
use document_studio.Contracts.CompletionKind
use document_studio.Contracts.CompletionReason
use document_studio.Contracts.Records.{JobOutput}
use document_studio.JobEngine.{can_transition, is_cancellable, state_eq, next_u64}
use document_studio.JobStore.Tables.{
  JobRow, Database, job_row_is_valid, output_row_is_valid, is_lower_sha256, metadata_i64,
}
use document_studio.JobStore.Sql.{update, query_row}
use document_studio.JobStore.Evidence.{
  has_temporary_path, is_delivered, terminal_evidence_is_ready, count_outputs, count_outcomes,
  is_fully_published,
}
use document_studio.JobStore.Changes.{
  transition_job, complete_no_benefit, complete_published_from_state, complete_published,
  complete_recovered_published, request_cancellation, validate_completion_timestamp,
}
use document_studio.JobStore.Balanced.{is_verified_output, register_verified_balanced_output}
use document_studio.JobStore.Steps.{Call, cancel, interrupt, transition, call, tables, run}
use document_studio.JobStore.Rows.{Follows, Related}
use document_studio.JobStore.History.{call-Follows, Evolves, run-Evolves}
use document_studio.JobStore.Completion.{no_outcome_after_cancellation}
use document_studio.JobStore.Clean.{AllClean}
use document_studio.JobStore.Endings.{call-AllClean}
use document_studio.JobStore.Proofs.{AllPublished, published_evidence}

-- Timestamps are accepted here.
abbrev any_time : String → Bool
any_time text = true

abbrev row : String → JobState → Option String → JobRow
row id state name = record {
  id = id;
  operation_id = "pdf.merge";
  state = state;
  stage = some OperationStage.verify;
  sequence = 5;
  completed_units = 1;
  total_units = 2;
  unit = ProgressUnit.items;
  resolved_output_name = name;
  cancellation_requested_at = none;
  updated_at = "t0";
  finished_at = none;
  recovery_count = 0;
  version = 5;
}

abbrev report : JobOutput
report = record {
  ordinal = 0;
  requested_name = "report.pdf";
  resolved_name = some "report.pdf";
  staging_path = none;
  partial_path = none;
  final_path = some "out/report.pdf";
  size_bytes = some 10;
  mime_type = "application/pdf";
  sha256 = some "hash";
  status = OutputStatus.published;
  verified_at = some "t0";
  published_at = some "t0";
}

abbrev db : Database
db = record {
  jobs = row "a" publishing (some "report.pdf") ∷ row "b" verifying none ∷ [];
  job_outputs = record { job_id = "a"; output = report } ∷ [];
  job_errors = [];
  job_completion_outcomes = [];
  job_stage_runs = [];
}

abbrev asked : Database
asked = record db {
  jobs =
      row "a" publishing (some "report.pdf")
      ∷ record (row "b" verifying none) {
        cancellation_requested_at = some "t1";
        updated_at = "t1";
        version = 6;
      }
      ∷ [];
}

abbrev ended : Database
ended = record db {
  jobs =
      record (row "a" publishing (some "report.pdf")) {
        state = completed;
        stage = none;
        completed_units = 2;
        finished_at = some "t1";
        updated_at = "t1";
        version = 6;
        sequence = 6;
      }
      ∷ row "b" verifying none
      ∷ [];
  job_completion_outcomes =
      record {
        job_id = "a";
        completion_kind = CompletionKind.published;
        reason = none;
        created_at = "t1";
      }
      ∷ [];
}

cancel_accepted : request_cancellation "t1" "b" db ≡ ok (asked, true)
unfolding request_cancellation update job_row_is_valid is_cancellable
cancel_accepted = refl

published_accepted : complete_published_from_state any_time "a" publishing 5 "t1" db ≡ ok (ended, 6)
unfolding complete_published_from_state validate_completion_timestamp metadata_i64 query_row update
    job_row_is_valid state_eq count_outputs count_outcomes is_fully_published
published_accepted = refl

-- The other completion finds no free row any more.
cancelled_not_completed :
    is_ok (complete_no_benefit any_time "b" 6 CompletionReason.savings_threshold_not_met "t2" asked)
    ≡ false
unfolding complete_no_benefit validate_completion_timestamp metadata_i64 query_row state_eq
cancelled_not_completed = refl

call_accepted : call any_time "t1" (cancel "b") db ≡ ok asked
unfolding call request_cancellation update job_row_is_valid is_cancellable
call_accepted = refl

call-Follows_example : Related (Follows db) db.jobs asked.jobs
call-Follows_example = call-Follows any_time "t1" (cancel "b") db asked call_accepted

abbrev calls : List (String × Call)
calls =
    ("t1", cancel "b") ∷ ("t2", interrupt "b" verifying) ∷ ("t3", interrupt "b" interrupted) ∷ []

run-Evolves_example : Related Evolves db.jobs (run any_time calls db).jobs
run-Evolves_example = run-Evolves any_time calls db

no_outcome_after_cancellation_example :
    let later = run any_time calls asked in
    (count_outcomes "b" later.job_completion_outcomes
      ≡ count_outcomes "b" db.job_completion_outcomes)
    × (is_ok
          (complete_no_benefit any_time "b" 6 CompletionReason.savings_threshold_not_met "t4" later)
        ≡ false)
    × (is_ok (complete_published any_time "b" 6 "t4" later) ≡ false)
    × (is_ok (complete_recovered_published any_time "t4" "b" interrupted 6 later) ≡ false)
    × (is_ok (complete_published_from_state any_time "b" interrupted 6 "t4" later) ≡ false)
no_outcome_after_cancellation_example =
    no_outcome_after_cancellation any_time "t1" "b" db asked ((refl, tt), (tt, tt)) cancel_accepted
      calls 6 CompletionReason.savings_threshold_not_met interrupted "t4"

published_evidence_example :
    (0 < count_outputs "a" db.job_outputs)
    × AllPublished "a" db.job_outputs
    × (count_outcomes "a" db.job_completion_outcomes ≡ 0)
    × (count_outcomes "a" ended.job_completion_outcomes ≡ 1)
    × (ended.job_outputs ≡ db.job_outputs)
    × (6 ≡ next_u64 5)
published_evidence_example =
    published_evidence any_time "a" publishing 5 "t1" db ended 6 published_accepted

abbrev delivered : Database
delivered = record db {
  jobs =
      record (row "a" publishing (some "report.pdf")) {
        state = completed;
        stage = none;
        updated_at = "t1";
        finished_at = some "t1";
        version = 6;
        sequence = 6;
      }
      ∷ row "b" verifying none
      ∷ [];
}

ending_accepted : transition_job "t1" "a" publishing 5 completed none db ≡ ok (delivered, 6)
unfolding transition_job can_transition is_terminal terminal_evidence_is_ready has_temporary_path
    is_delivered count_outputs state_eq metadata_i64 update job_row_is_valid
ending_accepted = refl

ending_call : call any_time "t1" (transition "a" publishing 5 completed none) db ≡ ok delivered
unfolding call
ending_call = ap tables ending_accepted

clean_before : AllClean db
unfolding is_terminal
clean_before = (
  (λ h. absurd (cc (h)), λ h. absurd (ground (arith, h))),
  ((λ h. absurd (cc (h)), λ h. absurd (ground (arith, h))), tt),
)

call-AllClean_example : AllClean delivered
call-AllClean_example =
    call-AllClean any_time "t1" (transition "a" publishing 5 completed none) db delivered tt
      clean_before ending_call

-- A balanced compression that is being verified, and its output.
abbrev compressing : Database
compressing = record db {
  jobs = record (row "c" verifying none) { operation_id = "pdf.compress-balanced" } ∷ [];
  job_outputs = [];
}

abbrev smaller : JobOutput
smaller = record report {
  resolved_name = none;
  staging_path = some "staging/report.pdf";
  final_path = none;
  sha256 = some "478c558ea716033cd60c03438f628dfa75694dcf6b5f6d505a2f05fd2b4f3823";
  status = OutputStatus.verified;
  published_at = none;
}

registered : is_ok (register_verified_balanced_output "t1" "c" 5 smaller compressing) ≡ true
unfolding register_verified_balanced_output is_verified_output metadata_i64 count_outputs
    output_row_is_valid is_lower_sha256 update job_row_is_valid state_eq
registered = refl

registered_once :
    is_ok (
      register_verified_balanced_output "t1" "c" 5 smaller
        (record compressing { job_outputs = record { job_id = "c"; output = smaller } ∷ [] }))
    ≡ false
unfolding register_verified_balanced_output is_verified_output metadata_i64 count_outputs
registered_once = refl
