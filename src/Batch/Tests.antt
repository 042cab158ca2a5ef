-- ===== src/Batch/Tests.antt =====
-- A batch of two files with one name, and the theorems of this component at it.
use document_studio.Base.{
  ◌+◌, ◌^◌, Bool, true, List, [], ◌∷◌, map, ◌≡◌, refl, ok, err, if◌then◌else◌, ltb,
}
use document_studio.Base.Text.{
  Text, codes, text_eq, utf16_count, ascii_upper, ascii_lower, strip_prefix,
}
use document_studio.OutputNames.Policy.{
  validate_output_name, has_unsafe_shape, is_reserved, device_stem, first_segment, reserved_number,
  is_unsafe_character, ends_with_dot_or_space,
}
use document_studio.OutputNames.Decimal.{decimal}
use document_studio.OutputNames.Collision.{
  collision_name, numbered, split_file_name, last_dot, counter,
}
use document_studio.Batch.{
  CollisionPlanEntry, size_overflow, margin, estimate_sizes, estimate_disk_sizes, is_available,
  select_name, plan_names, plan_collisions_against_names,
}
use document_studio.Batch.Estimate.{peak_of, total_of, estimate_disk_sizes-exact}
use document_studio.Batch.Attempts.{SelectsLeast, select_name-SelectsLeast}
use document_studio.Batch.Collisions.{
  IsCollisionFree, plan_collisions_against_names-IsCollisionFree,
}

two_sizes :
    estimate_disk_sizes (1000 ∷ 2000000000 ∷ []) true
    ≡ ok (record {
      workspace_peak_bytes = 4200000000;
      destination_total_bytes = 2267109864;
      combined_required_bytes = 6467109864;
      workspace_and_destination_share_volume = true;
    })
unfolding estimate_disk_sizes estimate_sizes margin
two_sizes = refl

estimate_disk_sizes-exact_example : estimate_disk_sizes (1000 ∷ 2000000000 ∷ []) true ≡ (
    if ltb (peak_of (1000 ∷ 2000000000 ∷ []) + total_of (1000 ∷ 2000000000 ∷ [])) (2 ^ 64)
    then ok (record {
      workspace_peak_bytes = peak_of (1000 ∷ 2000000000 ∷ []);
      destination_total_bytes = total_of (1000 ∷ 2000000000 ∷ []);
      combined_required_bytes =
          peak_of (1000 ∷ 2000000000 ∷ []) + total_of (1000 ∷ 2000000000 ∷ []);
      workspace_and_destination_share_volume = true;
    })
    else err size_overflow)
estimate_disk_sizes-exact_example = estimate_disk_sizes-exact (1000 ∷ 2000000000 ∷ []) true

-- File names that are equal up to ASCII case.
abbrev same_letters : Text → Text → Bool
same_letters a b = text_eq (map ascii_lower a) (map ascii_lower b)

abbrev requested : List Text
requested = codes "a.pdf" ∷ codes "A.pdf" ∷ []

abbrev existing : List Text
existing = codes "A (1).PDF" ∷ []

abbrev planned : List CollisionPlanEntry
planned =
    record {
      ordinal = 0;
      requested_name = codes "a.pdf";
      planned_name = codes "a.pdf";
      collision_index = 0;
    }
    ∷ record {
      ordinal = 1;
      requested_name = codes "A.pdf";
      planned_name = codes "A (2).pdf";
      collision_index = 2;
    }
    ∷ []

names_planned : plan_collisions_against_names same_letters requested existing ≡ ok planned
unfolding plan_collisions_against_names plan_names select_name is_available collision_name numbered
    split_file_name last_dot counter decimal validate_output_name has_unsafe_shape is_reserved
    device_stem first_segment reserved_number is_unsafe_character ends_with_dot_or_space text_eq
    utf16_count ascii_upper ascii_lower strip_prefix
names_planned = refl

plan_collisions_against_names-IsCollisionFree_example :
    IsCollisionFree same_letters requested existing planned
plan_collisions_against_names-IsCollisionFree_example =
    plan_collisions_against_names-IsCollisionFree same_letters requested existing planned
      names_planned

select_name-SelectsLeast_example : SelectsLeast same_letters [] existing (codes "A.pdf") 0 1000
select_name-SelectsLeast_example =
    select_name-SelectsLeast same_letters [] existing (codes "A.pdf") 0 1000
