-- ===== src/Contracts/CompletionReason.antt =====
-- `JobCompletionReason` of contracts.rs.
use document_studio.Base.{String, List, [], ◌∷◌, Option, some, ◌≡◌, refl}
use document_studio.Contracts.Wire.{Wire, IsExact, match_str, IsExact-of_arms}

pub data JobCompletionReason : Type 0 where
  savings_threshold_not_met : JobCompletionReason

unfoldable pub as_str : JobCompletionReason → String
as_str savings_threshold_not_met = "savings-threshold-not-met"

abbrev arms : List (String × JobCompletionReason)
arms = ("savings-threshold-not-met", savings_threshold_not_met) ∷ []

unfoldable pub from_contract : String → Option JobCompletionReason
from_contract value = match_str value arms

abbrev pub wire : Wire JobCompletionReason
wire = record { as_str = as_str; from_contract = from_contract }

as_str-accepted : (a : JobCompletionReason) → from_contract (as_str a) ≡ some a
unfolding as_str from_contract
as_str-accepted savings_threshold_not_met = refl

pub wire-IsExact : IsExact wire
unfolding as_str from_contract
wire-IsExact = IsExact-of_arms wire arms (λ v. refl) refl as_str-accepted
