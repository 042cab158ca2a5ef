-- ===== src/PagePlan.antt =====
-- apps/desktop/src-tauri/src/page_plan.rs: which page plans are accepted, and the outputs that an
-- accepted plan stands for. A `HashSet` is the list of what has been inserted. The serialiser, the
-- hash and the clock are third-party code, and parameters.
pub mod Indexes
pub mod Ranges
pub mod Outputs
pub mod Pages
pub mod Removal
mod Tests
use document_studio.Base.{
  ℕ, zero, suc, ◌+◌, ◌-◌, ◌^◌, String, Bool, true, false, not, ◌&&◌, ◌||◌, List, [], ◌∷◌, map,
  Option, none, some, length, is_empty, any, filter_if, if◌then◌else◌, ltb, leb, ◌==◌, str_eq,
  Result, ok, err, ◌>>=◌, ◌>>◌, refuse_if, ok_or, map_err,
}
use document_studio.Base.Text.{Text, codes, text_eq, ascii_lower, ends_with, utf8_len}
use document_studio.Contracts.OperationStage
use document_studio.Contracts.Errors.{OperationError, safe}
use document_studio.Contracts.PagePlans.{
  OutputRotation, PageRotation, SplitOutputRange, extract, remove, reorder, rotate, split,
  CorePdfPlanPayload, OperationPlanEnvelope, StoredOperationPlan,
}
use document_studio.OutputNames.Policy.{validate_output_name}

abbrev pub core_pdf_max_pages : ℕ
core_pdf_max_pages = 4096

abbrev pub pdf_split_max_outputs : ℕ
pdf_split_max_outputs = 128

abbrev pub operation_plan_schema_version : ℕ
operation_plan_schema_version = 1

abbrev pub operation_plan_max_bytes : ℕ
operation_plan_max_bytes = 65536

pub record PlannedOutput : Type 0 where
  pub output_name : Text
  pub page_indexes : List ℕ

pub record ValidatedPagePlan : Type 0 where
  pub stored : StoredOperationPlan
  pub outputs : List PlannedOutput
  pub rotations : List (ℕ × OutputRotation)

unfoldable pub invalid_plan : OperationError
invalid_plan =
    safe "PAGE_PLAN_INVALID" "The page operation plan is not valid"
      "Review the selected pages, order, rotations, split ranges, and output names."
      OperationStage.plan false

-- `(start..start + count).collect()`.
unfoldable pub range_from : ℕ → ℕ → List ℕ
range_from start zero = []
range_from start (suc count) = start ∷ range_from (start + 1) count

-- `contains` of a set of numbers.
unfoldable pub contains : ℕ → List ℕ → Bool
contains i = any (λ j. j == i)

unfoldable pub contains_text : Text → List Text → Bool
contains_text name = any (λ other. text_eq other name)

-- The test of `any` over the indexes, with the set filled as it goes.
unfoldable pub any_invalid : List ℕ → ℕ → List ℕ → Bool
any_invalid seen page_count [] = false
any_invalid seen page_count (i ∷ indexes) =
    leb page_count i || (contains i seen || any_invalid (i ∷ seen) page_count indexes)

unfoldable pub validate_unique_indexes : List ℕ → ℕ → Bool → Result OperationError (Unit {0})
validate_unique_indexes indexes page_count require_permutation = do
  refuse_if
      (is_empty indexes
        || (ltb page_count (length indexes)
            || (require_permutation && not (length indexes == page_count))))
      invalid_plan
  refuse_if (any_invalid [] page_count indexes) invalid_plan
  ok tt

unfoldable pub validate_output : Text → Result OperationError (Unit {0})
validate_output name = do
  map_err (λ _. invalid_plan) (validate_output_name name)
  refuse_if (not (ends_with (codes ".pdf") (map ascii_lower name))) invalid_plan
  ok tt

-- The loop over the rotations, with the pages already seen.
unfoldable pub collect_rotations :
    List ℕ → ℕ → List PageRotation → Result OperationError (List (ℕ × OutputRotation))
collect_rotations seen page_count [] = ok []
collect_rotations seen page_count (r ∷ rotations) = do
  refuse_if (leb page_count r.page_index || contains r.page_index seen) invalid_plan
  rest ← collect_rotations (r.page_index ∷ seen) page_count rotations
  ok ((r.page_index, r.clockwise_degrees) ∷ rest)

-- `u32::checked_add`.
unfoldable pub checked_add_u32 : ℕ → ℕ → Option ℕ
checked_add_u32 a b = if ltb (a + b) (2 ^ 32) then some (a + b) else none

-- `(start..=end).collect()`.
unfoldable pub range_inclusive : ℕ → ℕ → List ℕ
range_inclusive first last = range_from first (suc last - first)

-- The loop over the ranges: the names so far, the start that is expected next and the outputs.
unfoldable pub collect_ranges :
    List Text → ℕ → ℕ → List SplitOutputRange → Result OperationError (List PlannedOutput × ℕ)
collect_ranges names expected_start page_count [] = ok ([], expected_start)
collect_ranges names expected_start page_count (r ∷ ranges) = do
  validate_output r.output_name
  let lower = map ascii_lower r.output_name
  refuse_if
      (contains_text lower names
        || (not (r.start_page_index == expected_start)
            || (ltb r.end_page_index r.start_page_index || leb page_count r.end_page_index)))
      invalid_plan
  next ← ok_or (checked_add_u32 r.end_page_index 1) invalid_plan
  (rest, last) ← collect_ranges (lower ∷ names) next page_count ranges
  ok (
    record {
      output_name = r.output_name;
      page_indexes = range_inclusive r.start_page_index r.end_page_index;
    }
        ∷ rest,
    last,
  )

-- `matches!(…)` on the operation's name and the payload together.
unfoldable pub plan_outputs :
    String
    → CorePdfPlanPayload
    → ℕ
    → Result OperationError (List PlannedOutput × List (ℕ × OutputRotation))
plan_outputs operation_id (extract plan) page_count = do
  refuse_if (not (str_eq operation_id "pdf.extract-pages")) invalid_plan
  validate_output plan.output_name
  validate_unique_indexes plan.selected_page_indexes page_count false
  ok (record { output_name = plan.output_name; page_indexes = plan.selected_page_indexes } ∷ [], [])
plan_outputs operation_id (remove plan) page_count = do
  refuse_if (not (str_eq operation_id "pdf.remove-pages")) invalid_plan
  validate_output plan.output_name
  validate_unique_indexes plan.removed_page_indexes page_count false
  refuse_if (leb page_count (length plan.removed_page_indexes)) invalid_plan
  ok (
    record {
      output_name = plan.output_name;
      page_indexes =
          filter_if (λ i. not (contains i plan.removed_page_indexes)) (range_from 0 page_count);
    }
        ∷ [],
    [],
  )
plan_outputs operation_id (reorder plan) page_count = do
  refuse_if (not (str_eq operation_id "pdf.reorder-pages")) invalid_plan
  validate_output plan.output_name
  validate_unique_indexes plan.ordered_page_indexes page_count true
  ok (record { output_name = plan.output_name; page_indexes = plan.ordered_page_indexes } ∷ [], [])
plan_outputs operation_id (rotate plan) page_count = do
  refuse_if (not (str_eq operation_id "pdf.rotate-pages")) invalid_plan
  validate_output plan.output_name
  refuse_if (is_empty plan.rotations || ltb page_count (length plan.rotations)) invalid_plan
  rotations ← collect_rotations [] page_count plan.rotations
  ok (
    record { output_name = plan.output_name; page_indexes = range_from 0 page_count } ∷ [],
    rotations,
  )
plan_outputs operation_id (split plan) page_count = do
  refuse_if (not (str_eq operation_id "pdf.split")) invalid_plan
  refuse_if (is_empty plan.ranges || ltb pdf_split_max_outputs (length plan.ranges)) invalid_plan
  (outputs, expected_start) ← collect_ranges [] 0 page_count plan.ranges
  refuse_if (not (expected_start == page_count)) invalid_plan
  ok (outputs, [])

-- `serde_json::to_string`, the hexadecimal SHA-256 digest of a text's bytes, and the time of the
-- call.
module _ (to_string : OperationPlanEnvelope → Option Text) (sha256_hex : Text → String)
    (now : String) where
  unfoldable pub validate_plan : OperationPlanEnvelope → Result OperationError ValidatedPagePlan
  validate_plan envelope = do
    refuse_if
        (not (envelope.schema_version == operation_plan_schema_version)
          || (envelope.source_page_count == 0 || ltb core_pdf_max_pages envelope.source_page_count))
        invalid_plan
    (outputs, rotations) ←
        plan_outputs envelope.operation_id envelope.payload envelope.source_page_count
    canonical_json ← ok_or (to_string envelope) invalid_plan
    refuse_if
        (ltb (utf8_len canonical_json) 2 || ltb operation_plan_max_bytes (utf8_len canonical_json))
        invalid_plan
    ok (record {
      stored = record {
        envelope = envelope;
        canonical_json = canonical_json;
        sha256 = sha256_hex canonical_json;
        created_at = now;
      };
      outputs = outputs;
      rotations = rotations;
    })
