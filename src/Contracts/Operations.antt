-- ===== src/Contracts/Operations.antt =====
-- The identifiers, versions and limits of the operations, constants of contracts.rs and text_to_pdf.rs.
use document_studio.Base.{ℕ, String}

abbrev pub balanced_compression_operation_id : String
balanced_compression_operation_id = "pdf.compress-balanced"

abbrev pub balanced_compression_profile : String
balanced_compression_profile = "balanced-v1"

abbrev pub balanced_compression_version : String
balanced_compression_version = "1.0.0"

abbrev pub diagnostic_copy_operation_id : String
diagnostic_copy_operation_id = "diagnostic.copy"

abbrev pub diagnostic_copy_version : String
diagnostic_copy_version = "1.0.1"

abbrev pub image_to_pdf_max_inputs : ℕ
image_to_pdf_max_inputs = 128

abbrev pub image_to_pdf_operation_id : String
image_to_pdf_operation_id = "image.to-pdf"

abbrev pub image_to_pdf_version : String
image_to_pdf_version = "1.0.0"

abbrev pub pdf_compress_lossless_operation_id : String
pdf_compress_lossless_operation_id = "pdf.compress-lossless"

abbrev pub pdf_compress_lossless_version : String
pdf_compress_lossless_version = "1.0.0"

abbrev pub pdf_extract_operation_id : String
pdf_extract_operation_id = "pdf.extract-pages"

abbrev pub pdf_merge_max_inputs : ℕ
pdf_merge_max_inputs = 128

abbrev pub pdf_merge_min_inputs : ℕ
pdf_merge_min_inputs = 2

abbrev pub pdf_merge_operation_id : String
pdf_merge_operation_id = "pdf.merge"

abbrev pub pdf_merge_version : String
pdf_merge_version = "1.0.0"

abbrev pub pdf_remove_operation_id : String
pdf_remove_operation_id = "pdf.remove-pages"

abbrev pub pdf_reorder_operation_id : String
pdf_reorder_operation_id = "pdf.reorder-pages"

abbrev pub pdf_rotate_operation_id : String
pdf_rotate_operation_id = "pdf.rotate-pages"

abbrev pub pdf_split_operation_id : String
pdf_split_operation_id = "pdf.split"

abbrev pub pdf_to_images_max_outputs : ℕ
pdf_to_images_max_outputs = 128

abbrev pub pdf_to_images_operation_id : String
pdf_to_images_operation_id = "pdf.to-images"

abbrev pub pdf_to_images_version : String
pdf_to_images_version = "1.0.0"

abbrev pub qpdf_dependency_id : String
qpdf_dependency_id = "qpdf"

abbrev pub text_to_pdf_operation_id : String
text_to_pdf_operation_id = "text.to-pdf"

abbrev pub text_to_pdf_version : String
text_to_pdf_version = "1.0.0"

abbrev pub core_pdf_operation_version : String
core_pdf_operation_version = "1.0.0"
