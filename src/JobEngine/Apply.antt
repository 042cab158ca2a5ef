-- ===== src/JobEngine/Apply.antt =====
-- `apply_transition`: what a change does to the record, and what any sequence of requests can do.
use document_studio.Base.{
  ℕ, ◌+◌, ◌≤◌, ◌<◌, ◌^◌, String, true, false, List, [], ◌∷◌, is_some, ◌≡◌, refl, ◌≢◌, ◌⊎◌, inl, inr,
  ◌↔◌, some, arith, Result, ok, err, Result-cases, if◌then◌else◌,
}
use document_studio.Contracts.JobState.{JobState, is_terminal}
use document_studio.Contracts.Records.{JobRecord}
use document_studio.JobEngine.{
  can_transition, state_eq, next_u64, apply_transition, TransitionError, state_conflict,
  version_conflict,
}
use document_studio.JobEngine.Lifecycle.{rank, can_transition-rank}

state_eq_iff : (a b : JobState) → (state_eq a b ≡ true) ↔ (a ≡ b)
unfolding state_eq
state_eq_iff a b = (λ h. ground arith, λ h. ground arith)

-- What a granted change leaves behind.
pub record Granted (job : JobRecord) (expected : JobState) (version : ℕ) (next : JobState)
    (at : String) (job' : JobRecord) : Type 0 where
  pub was_expected : job.state ≡ expected
  pub was_current : job.version ≡ version
  pub has_edge : can_transition job.state next ≡ true
  pub moved : job' ≡ record job {
    state = next;
    version = next_u64 job.version;
    updated_at = at;
    finished_at = if is_terminal next then some at else job.finished_at;
  }

pub apply_transition-Granted :
    (job : JobRecord) (expected : JobState) (version : ℕ) (next : JobState) (at : String)
    {job' : JobRecord}
    → apply_transition job expected version next at ≡ ok job'
    → Granted job expected version next at job'
unfolding apply_transition
apply_transition-Granted job expected version next at h =
    ground (arith, state_eq_iff job.state expected)

next_u64-ne : (n : ℕ) → n < 2 ^ 64 → next_u64 n ≢ n
next_u64-ne n h = omega arith

stale_refused :
    (job : JobRecord) (expected : JobState) (version : ℕ) (next : JobState) (at : String)
    → job.version ≢ version
    → (apply_transition job expected version next at ≡ err (state_conflict expected job.state))
      ⊎ (apply_transition job expected version next at ≡ err (version_conflict version job.version))
unfolding apply_transition
stale_refused job expected version next at h = ground arith

-- Of two requests made for one version of a job, whatever their states and targets, the second is
-- refused with a conflict once the first has been applied: no update is lost.
pub stale_request_refused :
    (job : JobRecord) (expected expected' : JobState) (next next' : JobState) (at at' : String)
    {job' : JobRecord}
    → job.version < 2 ^ 64
    → apply_transition job expected job.version next at ≡ ok job'
    → (apply_transition job' expected' job.version next' at' ≡ err (state_conflict expected' next))
      ⊎ (apply_transition job' expected' job.version next' at'
          ≡ err (version_conflict job.version (next_u64 job.version)))
stale_request_refused job expected expected' next next' at at' {job'} bound h =
    let g = apply_transition-Granted job expected job.version next at h in
    rw g.moved (stale_refused _ expected' job.version next' at' (next_u64-ne job.version bound))

-- A job has a finishing time exactly when it is in a terminal state.
abbrev pub IsCoherent : JobRecord → Type 0
IsCoherent job = is_some job.finished_at ≡ is_terminal job.state

pub record Request : Type 0 where
  pub expected_state : JobState
  pub expected_version : ℕ
  pub next : JobState
  pub at : String

-- What a caller keeps: the changed record, or the old one after a refusal, and how many requests
-- have been granted.
abbrev pub after : JobRecord → ℕ → Result TransitionError JobRecord → JobRecord × ℕ
after job n (ok job') = (job', n + 1)
after job n (err e) = (job, n)

unfoldable pub attempt : JobRecord → ℕ → Request → JobRecord × ℕ
attempt job n r = after job n (apply_transition job r.expected_state r.expected_version r.next r.at)

unfoldable pub attempts : JobRecord → ℕ → List Request → JobRecord × ℕ
attempts job n [] = (job, n)
attempts job n (r ∷ rs) = attempts (attempt job n r).0 (attempt job n r).1 rs

-- What holds of a job all through a series of requests that began with `start`.
record Inv (start : JobRecord) (job : JobRecord) (n : ℕ) : Type 0 where
  coherent : IsCoherent job
  counted : job.version ≡ start.version + n
  climbed : rank start.state + n ≤ rank job.state
  same_id : job.id ≡ start.id
  same_inputs : job.inputs ≡ start.inputs

rank-le : (s : JobState) → rank s ≤ 8
rank-le s = ground arith

edge_open : (s t : JobState) → can_transition s t ≡ true → is_terminal s ≡ false
unfolding can_transition is_terminal
edge_open s t h = ground arith

Granted-Inv :
    (start job job' : JobRecord) (n : ℕ) (expected : JobState) (version : ℕ) (next : JobState)
    (at : String)
    → start.version + 8 < 2 ^ 64
    → Inv start job n
    → Granted job expected version next at job'
    → Inv start job' (n + 1)
Granted-Inv start job job' n expected version next at bound inv g =
    let climb = can_transition-rank job.state next g.has_edge in
    rw g.moved (record {
      coherent = ground (arith, inv.coherent, edge_open job.state next g.has_edge);
      counted = omega (arith, inv.counted, inv.climbed, climb, rank-le next);
      climbed = omega (arith, inv.climbed, climb);
      same_id = inv.same_id;
      same_inputs = inv.same_inputs;
    })

attempt-Inv :
    (start job : JobRecord) (n : ℕ) (r : Request)
    → start.version + 8 < 2 ^ 64
    → Inv start job n
    → Inv start (attempt job n r).0 (attempt job n r).1
unfolding attempt
attempt-Inv start job n r bound inv =
    elim (Result-cases (apply_transition job r.expected_state r.expected_version r.next r.at)) [
      | inl (job', e) ↦
          rw (e, attempt)
            (Granted-Inv start job job' n _ _ _ _ bound inv
              (apply_transition-Granted job _ _ _ _ e))
      | inr (x, e) ↦ rw (e, attempt) inv
    ]

attempts-Inv :
    (start job : JobRecord) (n : ℕ) (rs : List Request)
    → start.version + 8 < 2 ^ 64
    → Inv start job n
    → Inv start (attempts job n rs).0 (attempts job n rs).1
unfolding attempts
attempts-Inv start job n [] bound inv = inv
attempts-Inv start job n (r ∷ rs) bound inv =
    attempts-Inv start (attempt job n r).0 (attempt job n r).1 rs bound
      (attempt-Inv start job n r bound inv)

-- However many requests are made of a coherent job (fewer than eight versions below the end of
-- `u64`), refused ones included: at most eight are granted, the version counts exactly those, a
-- finishing time is there exactly in a terminal state, and the job is still the same job.
pub attempts_sound :
    (job : JobRecord) (rs : List Request)
    → job.version + 8 < 2 ^ 64
    → IsCoherent job
    → let (job', granted) = attempts job 0 rs in
      IsCoherent job'
      × (job'.version ≡ job.version + granted)
      × (granted ≤ 8)
      × (job'.id ≡ job.id)
      × (job'.inputs ≡ job.inputs)
attempts_sound job rs bound coherent =
    let inv = attempts-Inv job job 0 rs bound (record {
      coherent = coherent;
      counted = omega arith;
      climbed = omega arith;
      same_id = refl;
      same_inputs = refl;
    }) in
    (
      inv.coherent,
      inv.counted,
      omega (arith, inv.climbed, rank-le (attempts job 0 rs).0.state),
      inv.same_id,
      inv.same_inputs,
    )
