-- ===== src/Contracts.antt =====
-- The contract types of apps/desktop/src-tauri/src/contracts.rs: enumerations with their wire
-- spelling, and the records that the services exchange.
pub mod Wire
pub mod JobState
pub mod OperationStage
pub mod ProgressUnit
pub mod OutputStatus
pub mod CompletionKind
pub mod CompletionReason
pub mod BatchState
pub mod RenderSide
pub mod SkipReason
pub mod Errors
pub mod Records
pub mod Manifests
pub mod Operations
pub mod PagePlans
mod RoundTrips
