-- ===== src/JobEngine/Walks.antt =====
-- The requests that `apply_transition` grants, and the walks through the lifecycle.
use document_studio.Base.{
  ℕ, ◌+◌, true, List, [], ◌∷◌, length, ◌≡◌, refl, ◌∙◌, inl, inr, arith, Result, ok, Result-cases,
  ap, subst, some, if◌then◌else◌,
}
use document_studio.Contracts.JobState.{JobState, is_terminal}
use document_studio.Contracts.Records.{JobRecord}
use document_studio.JobEngine.{state_eq, next_u64, apply_transition, TransitionError}
use document_studio.JobEngine.Lifecycle.{IsRun}
use document_studio.JobEngine.Apply.{Request, after, attempt, attempts, apply_transition-Granted}

state_eq_refl : (s : JobState) → state_eq s s ≡ true
unfolding state_eq
state_eq_refl s = ground arith

-- Where a walk ends.
abbrev pub last_of : JobState → List JobState → JobState
last_of s [] = s
last_of s (t ∷ ts) = last_of t ts

-- One request of a list, by its answer.
attempts-cons :
    (job : JobRecord) (n : ℕ) (r : Request) (rs : List Request)
    {answer : Result TransitionError JobRecord}
    → apply_transition job r.expected_state r.expected_version r.next r.at ≡ answer
    → attempts job n (r ∷ rs) ≡ attempts (after job n answer).0 (after job n answer).1 rs
unfolding attempts attempt
attempts-cons job n r rs e = ap (λ a. attempts (after job n a).0 (after job n a).1 rs) e

-- From a number of granted requests on, the walk of those that are granted.
granted_walk :
    (job : JobRecord) (n : ℕ) (rs : List Request)
    → (ts : List JobState) × IsRun job.state ts
      × ((attempts job n rs).1 ≡ n + length ts)
      × ((attempts job n rs).0.state ≡ last_of job.state ts)
granted_walk job n [] = ([], tt, unfold attempts in omega arith, unfold attempts in refl)
granted_walk job n (r ∷ rs) =
    elim (Result-cases (apply_transition job r.expected_state r.expected_version r.next r.at)) [
      | inl (job', e) ↦
          let g = apply_transition-Granted job _ _ _ _ e in
          let (ts, walk, counted, ends) = granted_walk job' (n + 1) rs in
          let at_next : job'.state ≡ r.next = ap (λ (j : JobRecord). j.state) g.moved in
          rw (attempts-cons job n r rs e) (
            r.next ∷ ts,
            (g.has_edge, subst (λ s. IsRun s ts) at_next walk),
            omega (arith, counted),
            ends ∙ ap (λ s. last_of s ts) at_next,
          )
      | inr (x, e) ↦ rw (attempts-cons job n r rs e) (granted_walk job n rs)
    ]

-- The requests for the next state of a walk are granted at the job's own state and version.
walk_granted :
    (job : JobRecord) (n : ℕ) (ts : List JobState)
    → IsRun job.state ts
    → (rs : List Request) × ((attempts job n rs).1 ≡ n + length ts)
      × ((attempts job n rs).0.state ≡ last_of job.state ts)
unfolding apply_transition
walk_granted job n [] walk = ([], unfold attempts in omega arith, unfold attempts in refl)
walk_granted job n (t ∷ ts) walk =
    let r : Request = record {
      expected_state = job.state;
      expected_version = job.version;
      next = t;
      at = "";
    } in
    let job' : JobRecord = record job {
      state = t;
      version = next_u64 job.version;
      updated_at = "";
      finished_at = if is_terminal t then some "" else job.finished_at;
    } in
    let granted : apply_transition job job.state job.version t "" ≡ ok job' =
      ground (arith, walk.0, state_eq_refl job.state) in
    let (rs, counted, ends) = walk_granted job' (n + 1) ts walk.1 in
    let step = attempts-cons job n r rs granted in
    (r ∷ rs, rw step (omega (arith, counted)), rw step ends)

-- The states that requests can bring a job to are those that the lifecycle leads to. Whatever
-- requests are made of a job, refused ones included, there is a walk along edges from its state to
-- the one that it is left in, with one edge for each granted request; and for every walk along edges
-- from its state there is a list of requests of which as many are granted as the walk has edges, and
-- which leaves the job where the walk ends.
pub attempts_walks :
    (job : JobRecord)
    → ((rs : List Request)
        → (ts : List JobState) × IsRun job.state ts
          × ((attempts job 0 rs).1 ≡ length ts)
          × ((attempts job 0 rs).0.state ≡ last_of job.state ts))
      × ((ts : List JobState)
          → IsRun job.state ts
          → (rs : List Request) × ((attempts job 0 rs).1 ≡ length ts)
            × ((attempts job 0 rs).0.state ≡ last_of job.state ts))
attempts_walks job = (
  λ rs.
      let (ts, walk, counted, ends) = granted_walk job 0 rs in
      (ts, walk, omega (arith, counted), ends),
  λ ts walk.
      let (rs, counted, ends) = walk_granted job 0 ts walk in (rs, omega (arith, counted), ends),
)
