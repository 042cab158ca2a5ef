-- ===== src/Viewer/Errors.antt =====
-- The errors of apps/desktop/src-tauri/src/viewer_sessions.rs.
use document_studio.Base.{true, false}
use document_studio.Contracts.OperationStage
use document_studio.Contracts.Errors.{OperationError, safe}

unfoldable pub unsafe_source : OperationError
unsafe_source =
    safe "PATH_UNSAFE" "The selected PDF path is not safe"
      "Choose a regular local PDF without links or special path syntax." OperationStage.inspect
      false

unfoldable pub unsupported_source : OperationError
unsupported_source =
    safe "PDF_UNSUPPORTED" "The selected file is not a supported PDF"
      "Choose a non-empty local file with a PDF header and .pdf extension." OperationStage.inspect
      false

unfoldable pub source_changed : OperationError
source_changed =
    safe "SOURCE_CHANGED" "The source document changed"
      "Close this document and select it again before continuing." OperationStage.inspect true

unfoldable pub unsafe_text_source : OperationError
unsafe_text_source =
    safe "PATH_UNSAFE" "The selected TXT path is not safe"
      "Choose one regular local .txt file without links or special path syntax."
      OperationStage.inspect false

unfoldable pub unsupported_text_source : OperationError
unsupported_text_source =
    safe "TXT_EXTENSION_REQUIRED" "Choose a .txt file"
      "TXT-to-PDF accepts exactly one local file with a .txt extension." OperationStage.inspect
      false

unfoldable pub text_size_limit : OperationError
text_size_limit =
    safe "TXT_SIZE_LIMIT" "The TXT file is too large" "TXT input is limited to 8,388,608 bytes."
      OperationStage.preflight false

unfoldable pub published_output_changed : OperationError
published_output_changed =
    safe "TXT_PUBLISHED_OUTPUT_CHANGED" "The published TXT PDF changed"
      "The saved file no longer matches its verified publication evidence." OperationStage.verify
      false

unfoldable pub session_expired : OperationError
session_expired =
    safe "VIEWER_SESSION_EXPIRED" "The PDF viewer session expired" "Open the PDF again to continue."
      OperationStage.inspect true

unfoldable pub invalid_range : OperationError
invalid_range =
    safe "VIEWER_RANGE_INVALID" "The requested PDF byte range is invalid"
      "Reload the document; no bytes were returned." OperationStage.inspect false

unfoldable pub range_read_failed : OperationError
range_read_failed =
    safe "VIEWER_RANGE_READ_FAILED" "The PDF bytes could not be read"
      "Reload the document or open it again." OperationStage.inspect true

unfoldable pub unsafe_destination : OperationError
unsafe_destination =
    safe "DESTINATION_UNSAFE" "The destination folder is not safe"
      "Choose an existing local folder without links or special path syntax."
      OperationStage.preflight false

unfoldable pub snapshot_failed : OperationError
snapshot_failed =
    safe "SNAPSHOT_WRITE_FAILED" "The private PDF snapshot could not be created"
      "Check available disk space and try again." OperationStage.execute true

-- The errors that stand where they are returned.
unfoldable pub pdf_session_limit : OperationError
pdf_session_limit =
    safe "VIEWER_SESSION_LIMIT" "Too many PDFs are open"
      "Close an open document before opening another PDF." OperationStage.inspect true

unfoldable pub txt_session_limit : OperationError
txt_session_limit =
    safe "TXT_SESSION_LIMIT" "Too many local documents are open"
      "Close an open document before selecting another TXT file." OperationStage.inspect true

unfoldable pub grant_expired : OperationError
grant_expired =
    safe "DESTINATION_GRANT_EXPIRED" "The destination selection expired"
      "Choose the destination folder again." OperationStage.preflight true

unfoldable pub range_busy : OperationError
range_busy =
    safe "VIEWER_RANGE_BUSY" "The viewer is already loading several ranges"
      "Wait for the visible pages to finish loading and try again." OperationStage.inspect true

unfoldable pub source_busy : OperationError
source_busy =
    safe "SOURCE_BUSY" "The PDF is open for editing"
      "Close the program changing this file, then open it again." OperationStage.inspect true

unfoldable pub text_read_cancelled : OperationError
text_read_cancelled =
    safe "CANCELLED" "TXT-to-PDF conversion was cancelled" "No TXT content was retained."
      OperationStage.preflight false

unfoldable pub snapshot_cancelled : OperationError
snapshot_cancelled =
    safe "CANCELLED" "The PDF operation was cancelled"
      "Private snapshots and unpublished outputs will be removed safely." OperationStage.execute
      false

unfoldable pub verification_cancelled : OperationError
verification_cancelled =
    safe "CANCELLED" "The PDF operation was cancelled"
      "Private snapshots and unpublished outputs will be removed safely." OperationStage.verify
      false
