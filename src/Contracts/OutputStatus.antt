-- ===== src/Contracts/OutputStatus.antt =====
-- `OutputStatus` of contracts.rs: how far one output file has come.
use document_studio.Base.{String, List, [], ◌∷◌, Option, some, ◌≡◌, refl}
use document_studio.Contracts.Wire.{Wire, IsExact, match_str, IsExact-of_arms}

pub data OutputStatus : Type 0 where
  planned staged verified publishing published : OutputStatus

unfoldable pub as_str : OutputStatus → String
as_str planned = "planned"
as_str staged = "staged"
as_str verified = "verified"
as_str publishing = "publishing"
as_str published = "published"

abbrev arms : List (String × OutputStatus)
arms =
    ("planned", planned)
    ∷ ("staged", staged)
    ∷ ("verified", verified)
    ∷ ("publishing", publishing)
    ∷ ("published", published)
    ∷ []

unfoldable pub from_contract : String → Option OutputStatus
from_contract value = match_str value arms

abbrev pub wire : Wire OutputStatus
wire = record { as_str = as_str; from_contract = from_contract }

as_str-accepted : (a : OutputStatus) → from_contract (as_str a) ≡ some a
unfolding as_str from_contract
as_str-accepted planned = refl
as_str-accepted staged = refl
as_str-accepted verified = refl
as_str-accepted publishing = refl
as_str-accepted published = refl

pub wire-IsExact : IsExact wire
unfolding as_str from_contract
wire-IsExact = IsExact-of_arms wire arms (λ v. refl) refl as_str-accepted
