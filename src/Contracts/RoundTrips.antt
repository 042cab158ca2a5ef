-- ===== src/Contracts/RoundTrips.antt =====
-- The enumerations of contracts.rs and their texts.
use document_studio.Contracts.Wire.{IsExact}
use document_studio.Contracts.JobState
use document_studio.Contracts.OperationStage
use document_studio.Contracts.ProgressUnit
use document_studio.Contracts.OutputStatus
use document_studio.Contracts.CompletionKind
use document_studio.Contracts.CompletionReason
use document_studio.Contracts.BatchState
use document_studio.Contracts.RenderSide
use document_studio.Contracts.SkipReason

-- For each of the nine enumerations with `as_str` and `from_contract`, the reader turns a text into
-- a value exactly when the text is the spelling that the writer gives that value: both round trips
-- hold, and no other text is read.
enumerations-IsExact :
    IsExact JobState.wire
    × IsExact OperationStage.wire
    × IsExact ProgressUnit.wire
    × IsExact OutputStatus.wire
    × IsExact CompletionKind.wire
    × IsExact CompletionReason.wire
    × IsExact BatchState.wire
    × IsExact RenderSide.wire
    × IsExact SkipReason.wire
enumerations-IsExact = (
  JobState.wire-IsExact, OperationStage.wire-IsExact, ProgressUnit.wire-IsExact,
  OutputStatus.wire-IsExact, CompletionKind.wire-IsExact, CompletionReason.wire-IsExact,
  BatchState.wire-IsExact, RenderSide.wire-IsExact, SkipReason.wire-IsExact,
)
