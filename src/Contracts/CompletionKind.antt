-- ===== src/Contracts/CompletionKind.antt =====
-- `JobCompletionKind` of contracts.rs.
use document_studio.Base.{String, List, [], ◌∷◌, Option, some, ◌≡◌, refl}
use document_studio.Contracts.Wire.{Wire, IsExact, match_str, IsExact-of_arms}

pub data JobCompletionKind : Type 0 where
  published no_benefit : JobCompletionKind

unfoldable pub as_str : JobCompletionKind → String
as_str published = "published"
as_str no_benefit = "no-benefit"

abbrev arms : List (String × JobCompletionKind)
arms = ("published", published) ∷ ("no-benefit", no_benefit) ∷ []

unfoldable pub from_contract : String → Option JobCompletionKind
from_contract value = match_str value arms

abbrev pub wire : Wire JobCompletionKind
wire = record { as_str = as_str; from_contract = from_contract }

as_str-accepted : (a : JobCompletionKind) → from_contract (as_str a) ≡ some a
unfolding as_str from_contract
as_str-accepted published = refl
as_str-accepted no_benefit = refl

pub wire-IsExact : IsExact wire
unfolding as_str from_contract
wire-IsExact = IsExact-of_arms wire arms (λ v. refl) refl as_str-accepted
