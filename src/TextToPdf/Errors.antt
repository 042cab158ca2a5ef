-- ===== src/TextToPdf/Errors.antt =====
-- The constants and errors of text_to_pdf.rs.
use document_studio.Base.{ℕ, String, false}
use document_studio.Contracts.OperationStage
use document_studio.Contracts.Errors.{OperationError, safe}

abbrev pub txt_max_raw_bytes : ℕ
txt_max_raw_bytes = 8388608

abbrev pub txt_max_logical_lines : ℕ
txt_max_logical_lines = 100000

abbrev pub txt_max_line_bytes : ℕ
txt_max_line_bytes = 65536

abbrev pub txt_max_html_bytes : ℕ
txt_max_html_bytes = 42991616

abbrev pub txt_max_css_bytes : ℕ
txt_max_css_bytes = 65536

abbrev pub txt_approved_font_bytes : ℕ
txt_approved_font_bytes = 1101032

abbrev pub txt_max_served_bytes : ℕ
txt_max_served_bytes = 44158184

abbrev pub txt_max_shaping_run : ℕ
txt_max_shaping_run = 32

unfoldable pub text_error : String → String → String → OperationError
text_error code title detail = safe code title detail OperationStage.preflight false

unfoldable pub unsupported_unicode : OperationError
unsupported_unicode =
    text_error "TXT_UNSUPPORTED_UNICODE" "The TXT file contains unsupported Unicode"
      "TXT-to-PDF V1 supports admitted English, Devanagari, Telugu, and bounded common punctuation only."

unfoldable pub shaping_error : OperationError
shaping_error =
    text_error "TXT_SHAPING_COMPLEXITY_LIMIT" "The TXT shaping sequence is too complex"
      "Use bounded Devanagari or Telugu shaping clusters with no more than 32 consecutive marks."

unfoldable pub response_size_error : OperationError
response_size_error =
    text_error "TXT_RESPONSE_SIZE_LIMIT" "The private renderer response is too large"
      "The bounded in-memory TXT rendering response limit was exceeded."

unfoldable pub font_error : OperationError
font_error =
    text_error "TXT_FONT_INTEGRITY_FAILED" "The approved TXT fonts failed verification"
      "The packaged static Regular font set is missing, altered, or incompatible."

-- The errors that `preflight_text` writes out where it returns them.
unfoldable pub size_limit : OperationError
size_limit =
    text_error "TXT_SIZE_LIMIT" "The TXT file is too large"
      "TXT input is limited to 8,388,608 bytes."

unfoldable pub unsupported_bom : OperationError
unsupported_bom =
    text_error "TXT_UNSUPPORTED_BOM" "The text encoding is not supported"
      "Use strict UTF-8. UTF-16 and UTF-32 byte-order marks are rejected."

unfoldable pub invalid_utf8 : OperationError
invalid_utf8 =
    text_error "TXT_INVALID_UTF8" "The TXT file is not valid UTF-8"
      "Save the document as strict UTF-8 and try again."

unfoldable pub line_count_limit : OperationError
line_count_limit =
    text_error "TXT_LINE_COUNT_LIMIT" "The TXT file has too many lines"
      "TXT conversion supports at most 100,000 logical lines."

unfoldable pub line_bytes_limit : OperationError
line_bytes_limit =
    text_error "TXT_LINE_BYTES_LIMIT" "A TXT line is too long"
      "Each normalized logical line is limited to 65,536 UTF-8 bytes."

unfoldable pub embedded_bom : OperationError
embedded_bom =
    text_error "TXT_UNSUPPORTED_BOM" "An embedded byte-order mark was rejected"
      "A UTF-8 byte-order mark is allowed only once at byte zero."

unfoldable pub control_character : OperationError
control_character =
    text_error "TXT_CONTROL_CHARACTER" "The TXT file contains a control character"
      "Only TAB and normalized line-feed controls are accepted."

unfoldable pub bidi_control : OperationError
bidi_control =
    text_error "TXT_BIDI_CONTROL" "The TXT file contains a bidirectional formatting control"
      "Bidirectional embedding, override, isolate, and mark controls are rejected."

unfoldable pub noncharacter : OperationError
noncharacter =
    text_error "TXT_NONCHARACTER" "The TXT file contains a Unicode noncharacter"
      "Remove the noncharacter and try again."
