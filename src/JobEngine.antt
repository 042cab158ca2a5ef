-- ===== src/JobEngine.antt =====
-- apps/desktop/src-tauri/src/job_engine.rs: which state a job may go to, and the guarded change.
-- `&mut JobRecord` is the record passed and returned; a refused change returns no new record.
pub mod Lifecycle
pub mod Apply
pub mod Walks
mod Tests
use document_studio.Base.{
  ℕ, ◌+◌, ◌%◌, ◌^◌, String, Bool, true, false, not, some, Result, ok, err, if◌then◌else◌, ◌==◌,
}
use document_studio.Contracts.JobState.{
  JobState, queued, inspecting, preflight, ready, running, verifying, publishing, completed, failed,
  cancelled, interrupted, is_terminal,
}
use document_studio.Contracts.Records.{JobRecord}

pub data TransitionError : Type 0 where
  state_conflict : JobState → JobState → TransitionError
  version_conflict : ℕ → ℕ → TransitionError
  illegal_transition : JobState → JobState → TransitionError

unfoldable pub can_transition : JobState → JobState → Bool
can_transition queued inspecting = true
can_transition queued cancelled = true
can_transition queued failed = true
can_transition queued interrupted = true
can_transition inspecting preflight = true
can_transition inspecting cancelled = true
can_transition inspecting failed = true
can_transition inspecting interrupted = true
can_transition preflight ready = true
can_transition preflight cancelled = true
can_transition preflight failed = true
can_transition preflight interrupted = true
can_transition ready running = true
can_transition ready cancelled = true
can_transition ready failed = true
can_transition ready interrupted = true
can_transition running verifying = true
can_transition running cancelled = true
can_transition running failed = true
can_transition running interrupted = true
can_transition verifying publishing = true
can_transition verifying cancelled = true
can_transition verifying failed = true
can_transition verifying interrupted = true
can_transition publishing completed = true
can_transition publishing failed = true
can_transition publishing interrupted = true
can_transition interrupted completed = true
can_transition interrupted failed = true
can_transition _ _ = false

unfoldable pub is_cancellable : JobState → Bool
is_cancellable queued = true
is_cancellable inspecting = true
is_cancellable preflight = true
is_cancellable ready = true
is_cancellable running = true
is_cancellable verifying = true
is_cancellable _ = false

-- The derived `PartialEq` of `JobState`, by the position of a variant.
abbrev pub discriminant : JobState → ℕ
discriminant queued = 0
discriminant inspecting = 1
discriminant preflight = 2
discriminant ready = 3
discriminant running = 4
discriminant verifying = 5
discriminant publishing = 6
discriminant completed = 7
discriminant failed = 8
discriminant cancelled = 9
discriminant interrupted = 10

unfoldable pub state_eq : JobState → JobState → Bool
state_eq a b = discriminant a == discriminant b

-- `u64` addition of 1, as a release build computes it.
abbrev pub next_u64 : ℕ → ℕ
next_u64 n = (n + 1) % 2 ^ 64

unfoldable pub apply_transition :
    JobRecord → JobState → ℕ → JobState → String → Result TransitionError JobRecord
apply_transition job expected_state expected_version next updated_at =
    if not (state_eq job.state expected_state)
    then err (state_conflict expected_state job.state)
    else if not (job.version == expected_version)
    then err (version_conflict expected_version job.version)
    else if not (can_transition job.state next)
    then err (illegal_transition job.state next)
    else ok (record job {
      state = next;
      version = next_u64 job.version;
      updated_at = updated_at;
      finished_at = if is_terminal next then some updated_at else job.finished_at;
    })
