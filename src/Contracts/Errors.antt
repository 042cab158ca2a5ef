-- ===== src/Contracts/Errors.antt =====
-- `OperationError` of contracts.rs: the error that a user sees, with the stage it arose in.
use document_studio.Base.{ℕ, String, Bool, Option, none}
use document_studio.Contracts.OperationStage.{OperationStage}

pub record OperationError : Type 0 where
  pub code : String
  pub title : String
  pub detail : String
  pub stage : OperationStage
  pub retryable : Bool
  pub input_index : Option ℕ
  pub help_id : Option String

unfoldable pub safe : String → String → String → OperationStage → Bool → OperationError
safe code title detail stage retryable = record {
  code = code;
  title = title;
  detail = detail;
  stage = stage;
  retryable = retryable;
  input_index = none;
  help_id = none;
}
