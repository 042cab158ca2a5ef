-- ===== src/Batch.antt =====
-- apps/desktop/src-tauri/src/batch.rs: the disk estimate of a batch, the plan of its output names
-- and the proof of a preview. The rest of a preview reads the disk.
pub mod Estimate
pub mod Collisions
pub mod Attempts
mod Tests
use document_studio.Base.{
  ℕ, zero, suc, ◌+◌, ◌*◌, ◌/◌, ◌^◌, String, Bool, true, false, not, ◌||◌, List, [], ◌∷◌, Option,
  none, some, any, if◌then◌else◌, ltb, leb, ◌==◌, str_eq, Result, ok, err, ◌>>=◌, ◌>>◌, refuse_if,
  ok_or, is_ok,
}
use document_studio.Base.Text.{Text}
use document_studio.Contracts.OperationStage
use document_studio.Contracts.Errors.{OperationError, safe}
use document_studio.OutputNames.Policy.{validate_output_name}
use document_studio.OutputNames.Collision.{collision_name}

abbrev pub space_margin_minimum : ℕ
space_margin_minimum = 64 * 1024 * 1024

abbrev pub max_collision_attempts : ℕ
max_collision_attempts = 1000

pub record BatchDiskEstimate : Type 0 where
  pub workspace_peak_bytes : ℕ
  pub destination_total_bytes : ℕ
  pub combined_required_bytes : ℕ
  pub workspace_and_destination_share_volume : Bool

pub record CollisionPlanEntry : Type 0 where
  pub ordinal : ℕ
  pub requested_name : Text
  pub planned_name : Text
  pub collision_index : ℕ

unfoldable pub size_overflow : OperationError
size_overflow =
    safe "BATCH_ESTIMATE_OVERFLOW" "The batch disk estimate is too large"
      "Reduce the number or size of the selected PDFs." OperationStage.estimate false

unfoldable pub collision_exhausted : OperationError
collision_exhausted =
    safe "BATCH_COLLISION_EXHAUSTED" "No safe collision-free preview name is available"
      "Choose different requested names or another destination." OperationStage.plan false

unfoldable pub invalid_request : OperationError
invalid_request =
    safe "BATCH_REQUEST_INVALID" "The batch preview request is not valid"
      "Choose 1–128 local PDFs and the supported contract version." OperationStage.inspect false

-- `checked_add` and `checked_mul` of `u64`.
abbrev pub checked_u64 : ℕ → Option ℕ
checked_u64 n = if ltb n (2 ^ 64) then some n else none

-- `Ord::max`.
abbrev pub larger : ℕ → ℕ → ℕ
larger a b = if leb a b then b else a

unfoldable pub margin : ℕ → ℕ
margin size = larger space_margin_minimum (size / 10)

-- The loop over the sizes: the peak and the total so far.
unfoldable pub estimate_sizes : ℕ → ℕ → List ℕ → Result OperationError (ℕ × ℕ)
estimate_sizes peak total [] = ok (peak, total)
estimate_sizes peak total (size ∷ sizes) = do
  doubled ← ok_or (checked_u64 (size * 2)) size_overflow
  workspace ← ok_or (checked_u64 (doubled + margin size)) size_overflow
  destination ← ok_or (checked_u64 (size + margin size)) size_overflow
  sum ← ok_or (checked_u64 (total + destination)) size_overflow
  estimate_sizes (larger peak workspace) sum sizes

unfoldable pub estimate_disk_sizes : List ℕ → Bool → Result OperationError BatchDiskEstimate
estimate_disk_sizes sizes shared_volume = do
  (peak, total) ← estimate_sizes 0 0 sizes
  combined ← ok_or (checked_u64 (peak + total)) size_overflow
  ok (record {
    workspace_peak_bytes = peak;
    destination_total_bytes = total;
    combined_required_bytes = combined;
    workspace_and_destination_share_volume = shared_volume;
  })

-- `CompareStringOrdinal` of Windows, which ignores case.
module _ (windows_file_names_equal : Text → Text → Bool) where
  -- Whether a candidate is safe and not taken. The order of the reserved names does not matter.
  unfoldable pub is_available : List Text → List Text → Text → Bool
  is_available reserved existing_names candidate =
      if not (is_ok (validate_output_name candidate))
      then false
      else not (
          any (λ name. windows_file_names_equal name candidate) reserved
          || any (λ name. windows_file_names_equal name candidate) existing_names)

  -- The loop over the attempts: the next attempt, and how many are left.
  unfoldable pub select_name : List Text → List Text → Text → ℕ → ℕ → Option (Text × ℕ)
  select_name reserved existing_names requested_name collision_index zero = none
  select_name reserved existing_names requested_name collision_index (suc left) =
      let rest = select_name reserved existing_names requested_name (collision_index + 1) left in
      if is_available reserved existing_names (collision_name requested_name collision_index)
      then some (collision_name requested_name collision_index, collision_index)
      else rest

  -- The loop over the requested names: the reserved names and the index of the next one.
  unfoldable pub plan_names :
      List Text → List Text → ℕ → List Text → Result OperationError (List CollisionPlanEntry)
  plan_names reserved existing_names index [] = ok []
  plan_names reserved existing_names index (requested_name ∷ requested_names) = do
    (planned_name, collision_index) ←
        ok_or (select_name reserved existing_names requested_name 0 max_collision_attempts)
          collision_exhausted
    ordinal ← ok_or (if ltb index (2 ^ 32) then some index else none) invalid_request
    rest ← plan_names (planned_name ∷ reserved) existing_names (index + 1) requested_names
    ok (
        record {
          ordinal = ordinal;
          requested_name = requested_name;
          planned_name = planned_name;
          collision_index = collision_index;
        }
        ∷ rest)

  unfoldable pub plan_collisions_against_names :
      List Text → List Text → Result OperationError (List CollisionPlanEntry)
  plan_collisions_against_names requested_names existing_names =
      plan_names [] existing_names 0 requested_names
