-- ===== src/Contracts/OperationStage.antt =====
-- `OperationStage` of contracts.rs: what a worker is doing.
use document_studio.Base.{String, List, [], ◌∷◌, Option, some, ◌≡◌, refl}
use document_studio.Contracts.Wire.{Wire, IsExact, match_str, IsExact-of_arms}

pub data OperationStage : Type 0 where
  inspect preflight estimate plan execute verify : OperationStage
  publish audit cleanup recovery : OperationStage

unfoldable pub as_str : OperationStage → String
as_str inspect = "inspect"
as_str preflight = "preflight"
as_str estimate = "estimate"
as_str plan = "plan"
as_str execute = "execute"
as_str verify = "verify"
as_str publish = "publish"
as_str audit = "audit"
as_str cleanup = "cleanup"
as_str recovery = "recovery"

abbrev arms : List (String × OperationStage)
arms =
    ("inspect", inspect)
    ∷ ("preflight", preflight)
    ∷ ("estimate", estimate)
    ∷ ("plan", plan)
    ∷ ("execute", execute)
    ∷ ("verify", verify)
    ∷ ("publish", publish)
    ∷ ("audit", audit)
    ∷ ("cleanup", cleanup)
    ∷ ("recovery", recovery)
    ∷ []

unfoldable pub from_contract : String → Option OperationStage
from_contract value = match_str value arms

abbrev pub wire : Wire OperationStage
wire = record { as_str = as_str; from_contract = from_contract }

as_str-accepted : (a : OperationStage) → from_contract (as_str a) ≡ some a
unfolding as_str from_contract
as_str-accepted inspect = refl
as_str-accepted preflight = refl
as_str-accepted estimate = refl
as_str-accepted plan = refl
as_str-accepted execute = refl
as_str-accepted verify = refl
as_str-accepted publish = refl
as_str-accepted audit = refl
as_str-accepted cleanup = refl
as_str-accepted recovery = refl

pub wire-IsExact : IsExact wire
unfolding as_str from_contract
wire-IsExact = IsExact-of_arms wire arms (λ v. refl) refl as_str-accepted
