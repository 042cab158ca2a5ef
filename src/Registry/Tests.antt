-- ===== src/Registry/Tests.antt =====
-- The theorem of this component at a merge of two documents.
use document_studio.Base.{true, [], ◌∷◌, ◌≡◌, refl, ok, ◌↔◌}
use document_studio.Base.Text.{
  codes, text_eq, utf16_count, ascii_upper, ascii_lower, ends_with, strip_prefix,
}
use document_studio.OutputNames.Policy.{
  validate_output_name, has_unsafe_shape, is_reserved, device_stem, first_segment, reserved_number,
  is_unsafe_character, ends_with_dot_or_space,
}
use document_studio.Contracts.Manifests.{JobsCreateRequest}
use document_studio.Registry.Requests.{
  match_operation, with_pdf_name, all_manifests, validate_create_request,
}
use document_studio.Registry.Requests.OperationKind.{pdf_merge}
use document_studio.Registry.Limits.{
  operation_id_of, admits, find_manifest, validate_create_request_iff,
}

abbrev merge_of_two : JobsCreateRequest
merge_of_two = record {
  operation_id = "pdf.merge";
  input_paths = "C:\\a.pdf" ∷ "C:\\b.pdf" ∷ [];
  destination_directory = "C:\\out";
  requested_output_name = codes "merged.PDF";
}

merge_of_two_accepted : validate_create_request merge_of_two ≡ ok pdf_merge
unfolding validate_create_request match_operation with_pdf_name validate_output_name
    has_unsafe_shape is_reserved device_stem first_segment reserved_number is_unsafe_character
    ends_with_dot_or_space text_eq utf16_count ascii_upper ascii_lower ends_with strip_prefix
merge_of_two_accepted = refl

validate_create_request_iff_example : (validate_create_request merge_of_two ≡ ok pdf_merge) ↔ (
    (validate_output_name merge_of_two.requested_output_name ≡ ok tt)
    × (operation_id_of pdf_merge ≡ merge_of_two.operation_id)
    × (admits
          (find_manifest merge_of_two.operation_id all_manifests)
          2
          merge_of_two.requested_output_name
        ≡ true))
validate_create_request_iff_example = validate_create_request_iff merge_of_two pdf_merge
