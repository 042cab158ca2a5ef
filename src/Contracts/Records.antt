-- ===== src/Contracts/Records.antt =====
-- The records of a job in contracts.rs: its inputs, its outputs, its progress and its header.
use document_studio.Base.{ℕ, String, List, Option}
use document_studio.Contracts.JobState.{JobState}
use document_studio.Contracts.OperationStage.{OperationStage}
use document_studio.Contracts.ProgressUnit.{ProgressUnit}
use document_studio.Contracts.OutputStatus.{OutputStatus}
use document_studio.Contracts.CompletionKind.{JobCompletionKind}
use document_studio.Contracts.CompletionReason.{JobCompletionReason}
use document_studio.Contracts.Errors.{OperationError}

pub record JobProgress : Type 0 where
  pub completed_units : ℕ
  pub total_units : ℕ
  pub unit : ProgressUnit

pub record JobInput : Type 0 where
  pub ordinal : ℕ
  pub display_name : String
  pub source_path : String
  pub canonical_path : String
  pub file_identity : String
  pub size_bytes : ℕ
  pub modified_at : String
  pub mime_type : String
  pub sha256 : Option String
  pub password_reference : Option String

pub record JobOutput : Type 0 where
  pub ordinal : ℕ
  pub requested_name : String
  pub resolved_name : Option String
  pub staging_path : Option String
  pub partial_path : Option String
  pub final_path : Option String
  pub size_bytes : Option ℕ
  pub mime_type : String
  pub sha256 : Option String
  pub status : OutputStatus
  pub verified_at : Option String
  pub published_at : Option String

pub record JobRecord : Type 0 where
  pub id : String
  pub operation_id : String
  pub operation_version : String
  pub state : JobState
  pub stage : Option OperationStage
  pub sequence : ℕ
  pub progress : JobProgress
  pub destination_directory : String
  pub requested_output_name : String
  pub resolved_output_name : Option String
  pub cancellation_requested_at : Option String
  pub created_at : String
  pub updated_at : String
  pub finished_at : Option String
  pub version : ℕ
  pub completion_kind : Option JobCompletionKind
  pub reason : Option JobCompletionReason
  pub inputs : List JobInput
  pub outputs : List JobOutput
  pub errors : List OperationError
