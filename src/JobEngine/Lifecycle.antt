-- ===== src/JobEngine/Lifecycle.antt =====
-- The graph of job states: where each edge leads, and that no run of edges is long.
use document_studio.Base.{
  ℕ, ◌+◌, ◌≤◌, ◌<◌, Bool, true, false, not, ◌||◌, List, [], ◌∷◌, length, any, ◌≡◌, refl, ◌⊎◌, ◌↔◌,
  arith,
}
use document_studio.Contracts.JobState.{
  JobState, queued, inspecting, preflight, ready, running, verifying, publishing, completed, failed,
  cancelled, interrupted, is_terminal,
}
use document_studio.JobEngine.{can_transition, is_cancellable, state_eq}

-- How far along a state is. Every edge leads further.
abbrev pub rank : JobState → ℕ
rank queued = 0
rank inspecting = 1
rank preflight = 2
rank ready = 3
rank running = 4
rank verifying = 5
rank publishing = 6
rank interrupted = 7
rank _ = 8

pub can_transition-rank : (s t : JobState) → can_transition s t ≡ true → rank s < rank t
unfolding can_transition
can_transition-rank s t h = ground arith

-- A run of edges from `s` through the listed states.
abbrev pub IsRun : JobState → List JobState → Type 0
IsRun s [] = Unit {0}
IsRun s (t ∷ ts) = (can_transition s t ≡ true) × IsRun t ts

IsRun-length : (s : JobState) (ts : List JobState) → IsRun s ts → length ts + rank s ≤ 8
IsRun-length queued [] r = omega arith
IsRun-length _ [] r = omega arith
IsRun-length s (t ∷ ts) r = omega (arith, can_transition-rank s t r.0, IsRun-length t ts r.1)

-- Every run of lifecycle edges, from any state, has at most eight steps: no job can be moved
-- forever, and none can come back to a state it has left.
pub run_bounded : (s : JobState) (ts : List JobState) → IsRun s ts → length ts ≤ 8
run_bounded s ts r = omega (arith, IsRun-length s ts r)

-- What the lifecycle graph grants and refuses, for every state: cancellation exactly where
-- `is_cancellable` says so, failure from every state that is not terminal, interruption from every
-- such state but `interrupted` itself, and no edge at all out of exactly the terminal states.
pub edges_agree :
    (s : JobState)
    → (can_transition s cancelled ≡ is_cancellable s)
      × (can_transition s failed ≡ not (is_terminal s))
      × (can_transition s interrupted ≡ not (is_terminal s || state_eq s interrupted))
      × ((is_terminal s ≡ true) ↔ ((t : JobState) → can_transition s t ≡ false))
unfolding can_transition is_cancellable is_terminal state_eq
edges_agree s =
    (ground arith, ground arith, ground arith, (λ h t. ground arith, λ h. ground (arith, h failed)))

-- The stages that are left from a state to a publication.
abbrev pub remaining_stages : JobState → List JobState
remaining_stages queued =
    inspecting ∷ preflight ∷ ready ∷ running ∷ verifying ∷ publishing ∷ completed ∷ []
remaining_stages inspecting = preflight ∷ ready ∷ running ∷ verifying ∷ publishing ∷ completed ∷ []
remaining_stages preflight = ready ∷ running ∷ verifying ∷ publishing ∷ completed ∷ []
remaining_stages ready = running ∷ verifying ∷ publishing ∷ completed ∷ []
remaining_stages running = verifying ∷ publishing ∷ completed ∷ []
remaining_stages verifying = publishing ∷ completed ∷ []
remaining_stages publishing = completed ∷ []
remaining_stages _ = []

step_forward :
    (s t : JobState)
    → can_transition s t ≡ true
    → state_eq t interrupted ≡ false
    → state_eq s interrupted ≡ false
    → (remaining_stages s ≡ t ∷ remaining_stages t) ⊎ ((t ≡ failed) ⊎ (t ≡ cancelled))
unfolding can_transition state_eq
step_forward s t h n m = ground arith

abbrev pub visits : JobState → List JobState → Bool
visits s = any (λ t. state_eq t s)

stuck : (s : JobState) (ts : List JobState) → is_terminal s ≡ true → IsRun s ts → ts ≡ []
stuck s [] h r = refl
stuck s (t ∷ ts) h r = cc ((edges_agree s).3.0 h t)

stuck_unvisited :
    (s : JobState) (ts : List JobState)
    → is_terminal s ≡ true
    → IsRun s ts
    → visits completed ts ≡ false
stuck_unvisited s ts h r = rw (stuck s ts h r)

all_stages :
    (s : JobState) (ts : List JobState)
    → state_eq s interrupted ≡ false
    → IsRun s ts
    → visits interrupted ts ≡ false
    → visits completed ts ≡ true
    → ts ≡ remaining_stages s
unfolding state_eq
all_stages s [] m r calm done = cc
all_stages s (completed ∷ ts) m r calm done =
    ground
      (arith, step_forward s completed r.0, stuck completed ts (unfold is_terminal in refl) r.1)
all_stages s (t ∷ ts) m r calm done = ground (
  arith,
  step_forward s t r.0,
  all_stages t ts,
  stuck_unvisited failed ts (unfold is_terminal in refl),
  stuck_unvisited cancelled ts (unfold is_terminal in refl),
  r.1,
)

-- A run of edges of the lifecycle from `queued` that reaches `completed` and never visits
-- `interrupted` is the one list of stages, in their order, and ends with `completed`: it skips no
-- stage.
pub completion_stages :
    (ts : List JobState)
    → IsRun queued ts
    → visits interrupted ts ≡ false
    → visits completed ts ≡ true
    → ts ≡ inspecting ∷ preflight ∷ ready ∷ running ∷ verifying ∷ publishing ∷ completed ∷ []
unfolding state_eq
completion_stages ts r calm done = all_stages queued ts refl r calm done
