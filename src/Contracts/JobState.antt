-- ===== src/Contracts/JobState.antt =====
-- `JobState` of contracts.rs: the states of a job.
use document_studio.Base.{String, Bool, true, false, List, [], ◌∷◌, Option, some, ◌≡◌, refl}
use document_studio.Contracts.Wire.{Wire, IsExact, match_str, IsExact-of_arms}

pub data JobState : Type 0 where
  queued inspecting preflight ready running verifying : JobState
  publishing completed failed cancelled interrupted : JobState

unfoldable pub is_terminal : JobState → Bool
is_terminal completed = true
is_terminal failed = true
is_terminal cancelled = true
is_terminal _ = false

unfoldable pub as_str : JobState → String
as_str queued = "queued"
as_str inspecting = "inspecting"
as_str preflight = "preflight"
as_str ready = "ready"
as_str running = "running"
as_str verifying = "verifying"
as_str publishing = "publishing"
as_str completed = "completed"
as_str failed = "failed"
as_str cancelled = "cancelled"
as_str interrupted = "interrupted"

abbrev arms : List (String × JobState)
arms =
    ("queued", queued)
    ∷ ("inspecting", inspecting)
    ∷ ("preflight", preflight)
    ∷ ("ready", ready)
    ∷ ("running", running)
    ∷ ("verifying", verifying)
    ∷ ("publishing", publishing)
    ∷ ("completed", completed)
    ∷ ("failed", failed)
    ∷ ("cancelled", cancelled)
    ∷ ("interrupted", interrupted)
    ∷ []

unfoldable pub from_contract : String → Option JobState
from_contract value = match_str value arms

abbrev pub wire : Wire JobState
wire = record { as_str = as_str; from_contract = from_contract }

as_str-accepted : (a : JobState) → from_contract (as_str a) ≡ some a
unfolding as_str from_contract
as_str-accepted queued = refl
as_str-accepted inspecting = refl
as_str-accepted preflight = refl
as_str-accepted ready = refl
as_str-accepted running = refl
as_str-accepted verifying = refl
as_str-accepted publishing = refl
as_str-accepted completed = refl
as_str-accepted failed = refl
as_str-accepted cancelled = refl
as_str-accepted interrupted = refl

pub wire-IsExact : IsExact wire
unfolding as_str from_contract
wire-IsExact = IsExact-of_arms wire arms (λ v. refl) refl as_str-accepted
