-- ===== src/Contracts/PagePlans.antt =====
-- The page plans of contracts.rs. Names are walked by the validation, so they are texts.
use document_studio.Base.{ℕ, String, List, Result, ok, err, if◌then◌else◌, ◌==◌}
use document_studio.Base.Text.{Text}

pub data OutputRotation : Type 0 where
  clockwise_90 clockwise_180 clockwise_270 : OutputRotation

unfoldable pub degrees : OutputRotation → ℕ
degrees clockwise_90 = 90
degrees clockwise_180 = 180
degrees clockwise_270 = 270

-- `TryFrom<u16>`, by which a rotation is read.
unfoldable pub try_from : ℕ → Result String OutputRotation
try_from value =
    if value == 90
    then ok clockwise_90
    else if value == 180
    then ok clockwise_180
    else if value == 270
    then ok clockwise_270
    else err "rotation must be 90, 180, or 270 degrees"

pub record ExtractPagesPlan : Type 0 where
  pub selected_page_indexes : List ℕ
  pub output_name : Text

pub record RemovePagesPlan : Type 0 where
  pub removed_page_indexes : List ℕ
  pub output_name : Text

pub record ReorderPagesPlan : Type 0 where
  pub ordered_page_indexes : List ℕ
  pub output_name : Text

pub record PageRotation : Type 0 where
  pub page_index : ℕ
  pub clockwise_degrees : OutputRotation

pub record RotatePagesPlan : Type 0 where
  pub rotations : List PageRotation
  pub output_name : Text

pub record SplitOutputRange : Type 0 where
  pub start_page_index : ℕ
  pub end_page_index : ℕ
  pub output_name : Text

pub record SplitPlan : Type 0 where
  pub ranges : List SplitOutputRange

pub data CorePdfPlanPayload : Type 0 where
  extract : ExtractPagesPlan → CorePdfPlanPayload
  remove : RemovePagesPlan → CorePdfPlanPayload
  reorder : ReorderPagesPlan → CorePdfPlanPayload
  rotate : RotatePagesPlan → CorePdfPlanPayload
  split : SplitPlan → CorePdfPlanPayload

pub record OperationPlanEnvelope : Type 0 where
  pub schema_version : ℕ
  pub operation_id : String
  pub source_page_count : ℕ
  pub payload : CorePdfPlanPayload

pub record StoredOperationPlan : Type 0 where
  pub envelope : OperationPlanEnvelope
  pub canonical_json : Text
  pub sha256 : String
  pub created_at : String
