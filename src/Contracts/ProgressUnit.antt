-- ===== src/Contracts/ProgressUnit.antt =====
-- `ProgressUnit` of contracts.rs.
use document_studio.Base.{String, List, [], ◌∷◌, Option, some, ◌≡◌, refl}
use document_studio.Contracts.Wire.{Wire, IsExact, match_str, IsExact-of_arms}

pub data ProgressUnit : Type 0 where
  bytes items steps : ProgressUnit

unfoldable pub as_str : ProgressUnit → String
as_str bytes = "bytes"
as_str items = "items"
as_str steps = "steps"

abbrev arms : List (String × ProgressUnit)
arms = ("bytes", bytes) ∷ ("items", items) ∷ ("steps", steps) ∷ []

unfoldable pub from_contract : String → Option ProgressUnit
from_contract value = match_str value arms

abbrev pub wire : Wire ProgressUnit
wire = record { as_str = as_str; from_contract = from_contract }

as_str-accepted : (a : ProgressUnit) → from_contract (as_str a) ≡ some a
unfolding as_str from_contract
as_str-accepted bytes = refl
as_str-accepted items = refl
as_str-accepted steps = refl

pub wire-IsExact : IsExact wire
unfolding as_str from_contract
wire-IsExact = IsExact-of_arms wire arms (λ v. refl) refl as_str-accepted
