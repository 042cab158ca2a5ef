-- ===== src/Contracts/BatchState.antt =====
-- `BatchState` of contracts.rs.
use document_studio.Base.{String, List, [], ◌∷◌, Option, some, ◌≡◌, refl}
use document_studio.Contracts.Wire.{Wire, IsExact, match_str, IsExact-of_arms}

pub data BatchState : Type 0 where
  queued active completed failed cancelled interrupted : BatchState

unfoldable pub as_str : BatchState → String
as_str queued = "queued"
as_str active = "active"
as_str completed = "completed"
as_str failed = "failed"
as_str cancelled = "cancelled"
as_str interrupted = "interrupted"

abbrev arms : List (String × BatchState)
arms =
    ("queued", queued)
    ∷ ("active", active)
    ∷ ("completed", completed)
    ∷ ("failed", failed)
    ∷ ("cancelled", cancelled)
    ∷ ("interrupted", interrupted)
    ∷ []

unfoldable pub from_contract : String → Option BatchState
from_contract value = match_str value arms

abbrev pub wire : Wire BatchState
wire = record { as_str = as_str; from_contract = from_contract }

as_str-accepted : (a : BatchState) → from_contract (as_str a) ≡ some a
unfolding as_str from_contract
as_str-accepted queued = refl
as_str-accepted active = refl
as_str-accepted completed = refl
as_str-accepted failed = refl
as_str-accepted cancelled = refl
as_str-accepted interrupted = refl

pub wire-IsExact : IsExact wire
unfolding as_str from_contract
wire-IsExact = IsExact-of_arms wire arms (λ v. refl) refl as_str-accepted
