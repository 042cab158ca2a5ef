-- ===== src/Contracts/RenderSide.antt =====
-- `BalancedRenderSide` of contracts.rs.
use document_studio.Base.{String, List, [], ◌∷◌, Option, some, ◌≡◌, refl}
use document_studio.Contracts.Wire.{Wire, IsExact, match_str, IsExact-of_arms}

pub data BalancedRenderSide : Type 0 where
  source candidate : BalancedRenderSide

unfoldable pub as_str : BalancedRenderSide → String
as_str source = "source"
as_str candidate = "candidate"

abbrev arms : List (String × BalancedRenderSide)
arms = ("source", source) ∷ ("candidate", candidate) ∷ []

unfoldable pub from_contract : String → Option BalancedRenderSide
from_contract value = match_str value arms

abbrev pub wire : Wire BalancedRenderSide
wire = record { as_str = as_str; from_contract = from_contract }

as_str-accepted : (a : BalancedRenderSide) → from_contract (as_str a) ≡ some a
unfolding as_str from_contract
as_str-accepted source = refl
as_str-accepted candidate = refl

pub wire-IsExact : IsExact wire
unfolding as_str from_contract
wire-IsExact = IsExact-of_arms wire arms (λ v. refl) refl as_str-accepted
