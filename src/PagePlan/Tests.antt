-- ===== src/PagePlan/Tests.antt =====
-- The plans of page_plan.rs's own tests, and the theorems of this component at them.
use document_studio.Base.{ℕ, ltb, not, ◌&&◌, ◌<◌, true, List, [], ◌∷◌, ◌≡◌, refl, ok, ◌↔◌, is_ok}
use document_studio.Base.Text.{
  codes, text_eq, utf16_count, ascii_upper, ascii_lower, ends_with, starts_with, strip_prefix,
}
use document_studio.OutputNames.Policy.{
  validate_output_name, has_unsafe_shape, is_reserved, device_stem, first_segment, reserved_number,
  is_unsafe_character, ends_with_dot_or_space,
}
use mathlib.Core.List.{Perm}
use document_studio.Contracts.PagePlans.{
  remove, RemovePagesPlan, split, reorder, ReorderPagesPlan, SplitPlan,
}
use document_studio.PagePlan.Indexes.{AllBelow, IsDistinct}
use document_studio.PagePlan.Removal.{pages_left, remove_keeps_others}
use document_studio.PagePlan.{
  contains, any_invalid, validate_unique_indexes, PlannedOutput, plan_outputs, collect_ranges,
  range_from, range_inclusive, checked_add_u32, contains_text, validate_output,
}
use document_studio.PagePlan.Outputs.{IsPdfName}
use document_studio.PagePlan.Pages.{
  IsPartition, split-IsPartition, IsOrderOf, reordered, reorder-decides,
}

abbrev two_parts : SplitPlan
two_parts = record {
  ranges =
      record { start_page_index = 0; end_page_index = 0; output_name = codes "part-1.pdf" }
      ∷ record { start_page_index = 1; end_page_index = 3; output_name = codes "part-2.pdf" }
      ∷ [];
}

abbrev parts : List PlannedOutput
parts =
    record { output_name = codes "part-1.pdf"; page_indexes = 0 ∷ [] }
    ∷ record { output_name = codes "part-2.pdf"; page_indexes = 1 ∷ 2 ∷ 3 ∷ [] }
    ∷ []

two_parts_accepted : plan_outputs "pdf.split" (split two_parts) 4 ≡ ok (parts, [])
unfolding plan_outputs collect_ranges range_from range_inclusive checked_add_u32 contains_text
    validate_output validate_output_name has_unsafe_shape is_reserved device_stem first_segment
    reserved_number is_unsafe_character ends_with_dot_or_space text_eq utf16_count ascii_upper
    ascii_lower ends_with starts_with strip_prefix
two_parts_accepted = refl

split-IsPartition_example : IsPartition 4 parts
split-IsPartition_example = split-IsPartition two_parts 4 parts [] two_parts_accepted

abbrev last_page_first : ReorderPagesPlan
last_page_first = record {
  ordered_page_indexes = 2 ∷ 0 ∷ 1 ∷ [];
  output_name = codes "reordered.pdf";
}

reordered_name : IsPdfName (codes "reordered.pdf")
unfolding validate_output_name has_unsafe_shape is_reserved device_stem first_segment
    reserved_number is_unsafe_character ends_with_dot_or_space text_eq utf16_count ascii_upper
    ascii_lower ends_with starts_with strip_prefix
reordered_name = (refl, refl)

reorder-decides_example :
    ((plan_outputs "pdf.reorder-pages" (reorder last_page_first) 3
        ≡ ok (reordered last_page_first, []))
      ↔ IsOrderOf (2 ∷ 0 ∷ 1 ∷ []) 3)
    × (is_ok (plan_outputs "pdf.reorder-pages" (reorder last_page_first) 3) ≡ true
        → (plan_outputs "pdf.reorder-pages" (reorder last_page_first) 3
            ≡ ok (reordered last_page_first, []))
          × Perm (2 ∷ 0 ∷ 1 ∷ []) (range_from 0 3))
reorder-decides_example = reorder-decides last_page_first 3 reordered_name

abbrev middle_page : RemovePagesPlan
middle_page = record { removed_page_indexes = 1 ∷ []; output_name = codes "reordered.pdf" }

abbrev outer_pages : List PlannedOutput
outer_pages = record { output_name = codes "reordered.pdf"; page_indexes = 0 ∷ 2 ∷ [] } ∷ []

middle_page_accepted : plan_outputs "pdf.remove-pages" (remove middle_page) 3 ≡ ok (outer_pages, [])
unfolding plan_outputs range_from contains any_invalid validate_unique_indexes validate_output
    validate_output_name has_unsafe_shape is_reserved device_stem first_segment reserved_number
    is_unsafe_character ends_with_dot_or_space text_eq utf16_count ascii_upper ascii_lower ends_with
    starts_with strip_prefix
middle_page_accepted = refl

remove_keeps_others_example :
    IsPdfName (codes "reordered.pdf")
    × (1 < 3)
    × AllBelow 3 (1 ∷ [])
    × IsDistinct (1 ∷ [])
    × (outer_pages
        ≡ record { output_name = codes "reordered.pdf"; page_indexes = pages_left middle_page 3 }
          ∷ [])
    × ((i : ℕ) → contains i (pages_left middle_page 3) ≡ (ltb i 3 && not (contains i (1 ∷ []))))
remove_keeps_others_example = remove_keeps_others middle_page 3 outer_pages [] middle_page_accepted
