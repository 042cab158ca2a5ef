-- ===== src/JobEngine/Tests.antt =====
-- Concrete runs of job_engine.rs, and the theorems of this component at them.
use document_studio.Base.{
  ◌+◌, ◌≤◌, true, false, List, [], ◌∷◌, length, none, some, ◌≡◌, refl, ◌⊎◌, ◌↔◌, arith, ok, err,
  is_ok,
}
use document_studio.Contracts.JobState.{
  JobState, queued, inspecting, running, cancelled, failed, interrupted, is_terminal,
}
use document_studio.Contracts.ProgressUnit.{steps}
use document_studio.Contracts.Records.{JobRecord}
use document_studio.JobEngine.{
  can_transition, is_cancellable, state_eq, apply_transition, state_conflict, version_conflict,
}
use document_studio.JobEngine.Lifecycle.{
  IsRun, remaining_stages, run_bounded, edges_agree, completion_stages,
}
use document_studio.JobEngine.Walks.{last_of, attempts_walks}
use document_studio.JobEngine.Apply.{
  IsCoherent, Request, attempts, stale_request_refused, attempts_sound,
}

abbrev fresh_job : JobRecord
fresh_job = record {
  id = "00000000-0000-4000-8000-000000000001";
  operation_id = "pdf.merge";
  operation_version = "1.0.0";
  state = queued;
  stage = none;
  sequence = 0;
  progress = record { completed_units = 0; total_units = 3; unit = steps };
  destination_directory = "C:\\out";
  requested_output_name = "merged.pdf";
  resolved_output_name = none;
  cancellation_requested_at = none;
  created_at = "2026-01-01T00:00:00.000Z";
  updated_at = "2026-01-01T00:00:00.000Z";
  finished_at = none;
  version = 4;
  completion_kind = none;
  reason = none;
  inputs = [];
  outputs = [];
  errors = [];
}

abbrev all_stages_run : List JobState
all_stages_run = remaining_stages queued

all_stages_run-IsRun : IsRun queued all_stages_run
unfolding can_transition
all_stages_run-IsRun = (refl, (refl, (refl, (refl, (refl, (refl, (refl, tt)))))))

run_bounded_example : length all_stages_run ≤ 8
run_bounded_example = run_bounded queued all_stages_run all_stages_run-IsRun

edges_agree_example :
    (can_transition running cancelled ≡ is_cancellable running)
    × (can_transition running failed ≡ true)
    × (can_transition running interrupted ≡ true)
    × ((is_terminal running ≡ true) ↔ ((t : JobState) → can_transition running t ≡ false))
unfolding is_terminal state_eq
edges_agree_example = edges_agree running

completion_stages_example : all_stages_run ≡ remaining_stages queued
unfolding state_eq
completion_stages_example = completion_stages all_stages_run all_stages_run-IsRun refl refl

attempts_walks_example :
    ((rs : List Request)
      → (ts : List JobState) × IsRun queued ts
        × ((attempts fresh_job 0 rs).1 ≡ length ts)
        × ((attempts fresh_job 0 rs).0.state ≡ last_of queued ts))
    × ((ts : List JobState)
        → IsRun queued ts
        → (rs : List Request) × ((attempts fresh_job 0 rs).1 ≡ length ts)
          × ((attempts fresh_job 0 rs).0.state ≡ last_of queued ts))
attempts_walks_example = attempts_walks fresh_job

skipping_refused : is_ok (apply_transition fresh_job queued 4 running "now") ≡ false
unfolding apply_transition state_eq can_transition
skipping_refused = refl

abbrev cancelled_job : JobRecord
cancelled_job = record fresh_job {
  state = cancelled;
  version = 5;
  updated_at = "now";
  finished_at = some "now";
}

cancel_first : apply_transition fresh_job queued 4 cancelled "now" ≡ ok cancelled_job
unfolding apply_transition state_eq can_transition is_terminal
cancel_first = refl

stale_request_refused_example :
    (apply_transition cancelled_job queued 4 inspecting "later"
      ≡ err (state_conflict queued cancelled))
    ⊎ (apply_transition cancelled_job queued 4 inspecting "later" ≡ err (version_conflict 4 5))
stale_request_refused_example =
    stale_request_refused fresh_job queued queued cancelled inspecting "now" "later" (omega arith)
      cancel_first

abbrev requests : List Request
requests =
    record { expected_state = queued; expected_version = 4; next = inspecting; at = "a" }
    ∷ record { expected_state = queued; expected_version = 4; next = cancelled; at = "b" }
    ∷ record { expected_state = inspecting; expected_version = 5; next = failed; at = "c" }
    ∷ []

attempts_sound_example :
    let (job', granted) = attempts fresh_job 0 requests in
    IsCoherent job'
    × (job'.version ≡ 4 + granted)
    × (granted ≤ 8)
    × (job'.id ≡ fresh_job.id)
    × (job'.inputs ≡ fresh_job.inputs)
attempts_sound_example =
    attempts_sound fresh_job requests (omega arith) (unfold is_terminal in refl)
