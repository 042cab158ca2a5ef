-- ===== src/Registry/Requests.antt =====
-- `validate_batch_eligibility`, `all_manifests` and `validate_create_request` of
-- operation_registry.rs.
use document_studio.Base.{
  ℕ, String, false, not, ◌&&◌, List, [], ◌∷◌, length, map, if◌then◌else◌, ◌==◌, within, str_eq,
  Result, ok, err, ◌>>◌, map_err,
}
use document_studio.Base.Text.{Text, codes, ascii_lower, ends_with}
use document_studio.Contracts.OperationStage
use document_studio.Contracts.Errors.{OperationError, safe}
use document_studio.Contracts.Manifests.{OperationManifest, JobsCreateRequest}
use document_studio.Contracts.Operations.{
  diagnostic_copy_operation_id, image_to_pdf_max_inputs, image_to_pdf_operation_id,
  pdf_compress_lossless_operation_id, pdf_compress_lossless_version, pdf_merge_max_inputs,
  pdf_merge_min_inputs, pdf_merge_operation_id,
}
use document_studio.OutputNames.Policy.{validate_output_name}
use document_studio.Registry.Manifests.{
  diagnostic_copy_manifest, pdf_merge_manifest, pdf_compress_lossless_manifest,
  pdf_compress_balanced_manifest, image_to_pdf_manifest, text_to_pdf_manifest,
  pdf_to_images_manifest,
}
use document_studio.Registry.CorePdf.{
  extract_pages_manifest, remove_pages_manifest, reorder_pages_manifest, rotate_pages_manifest,
  split_manifest,
}

pub data OperationKind : Type 0 where
  diagnostic_copy pdf_merge pdf_compress_lossless image_to_pdf : OperationKind

unfoldable pub batch_operation_ineligible : OperationError
batch_operation_ineligible =
    safe "BATCH_OPERATION_INELIGIBLE" "This operation is not eligible for batch preview"
      "Batch V1 supports only pdf.compress-lossless@1.0.0." OperationStage.inspect false

unfoldable pub validate_batch_eligibility : String → String → Result OperationError (Unit {0})
validate_batch_eligibility operation_id operation_version =
    if str_eq operation_id pdf_compress_lossless_operation_id
      && str_eq operation_version pdf_compress_lossless_version
    then ok tt
    else err batch_operation_ineligible

unfoldable pub all_manifests : List OperationManifest
all_manifests =
    diagnostic_copy_manifest ∷ pdf_merge_manifest ∷ pdf_compress_lossless_manifest
    ∷ pdf_compress_balanced_manifest ∷ image_to_pdf_manifest ∷ text_to_pdf_manifest
    ∷ pdf_to_images_manifest ∷ extract_pages_manifest ∷ remove_pages_manifest
    ∷ reorder_pages_manifest ∷ rotate_pages_manifest ∷ split_manifest ∷ []

unfoldable pub invalid_output_name : OperationError
invalid_output_name =
    safe "INVALID_OUTPUT_NAME" "The output name is not valid"
      "Use a Windows-safe file name without a path." OperationStage.preflight false

unfoldable pub invalid_pdf_output_name : OperationError
invalid_pdf_output_name =
    safe "INVALID_OUTPUT_NAME" "The output name must end in .pdf"
      "Choose a Windows-safe PDF file name without a path." OperationStage.preflight false

-- The errors of the arms without a guard.
unfoldable pub count_error : String → String → OperationError
count_error title detail = safe "INVALID_INPUT_COUNT" title detail OperationStage.inspect false

unfoldable pub unsupported_operation : OperationError
unsupported_operation =
    safe "UNSUPPORTED_OPERATION" "The operation is not supported"
      "Refresh the operation list and choose an available operation." OperationStage.inspect false

-- The body of an arm that asks for a PDF name.
unfoldable pub with_pdf_name : Text → OperationKind → Result OperationError OperationKind
with_pdf_name name kind =
    if not (ends_with (codes ".pdf") (map ascii_lower name))
    then err invalid_pdf_output_name
    else ok kind

-- The `match`: an arm whose guard fails falls through to the later arm of its operation.
unfoldable pub match_operation : String → ℕ → Text → Result OperationError OperationKind
match_operation id inputs name =
    if str_eq id diagnostic_copy_operation_id && (inputs == 1)
    then ok diagnostic_copy
    else if str_eq id pdf_merge_operation_id
        && within pdf_merge_min_inputs pdf_merge_max_inputs inputs
    then with_pdf_name name pdf_merge
    else if str_eq id pdf_compress_lossless_operation_id && (inputs == 1)
    then with_pdf_name name pdf_compress_lossless
    else if str_eq id image_to_pdf_operation_id && within 1 image_to_pdf_max_inputs inputs
    then with_pdf_name name image_to_pdf
    else if str_eq id diagnostic_copy_operation_id
    then err
        (count_error "Choose exactly one input" "Diagnostic copy accepts exactly one local file.")
    else if str_eq id pdf_merge_operation_id
    then err (
        count_error "Choose between 2 and 128 PDFs"
          "PDF Merge requires at least two and no more than 128 input files.")
    else if str_eq id pdf_compress_lossless_operation_id
    then err (
        count_error "Choose exactly one PDF"
          "Lossless PDF Compression accepts exactly one local PDF.")
    else if str_eq id image_to_pdf_operation_id
    then err (
        count_error "Choose between 1 and 128 images"
          "Image to PDF accepts JPEG, PNG, or WebP files in the selected order.")
    else err unsupported_operation

unfoldable pub validate_create_request : JobsCreateRequest → Result OperationError OperationKind
validate_create_request request = do
  map_err (λ _. invalid_output_name) (validate_output_name request.requested_output_name)
  match_operation request.operation_id (length request.input_paths) request.requested_output_name
