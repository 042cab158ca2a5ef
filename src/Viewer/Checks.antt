-- ===== src/Viewer/Checks.antt =====
-- What `open_pdf` and `open_txt` of viewer_sessions.rs ask the file system before a session is made.
use document_studio.Base.{
  ℕ, String, Bool, false, not, ◌||◌, ltb, ◌==◌, [], ◌∷◌, map, Option, none, some, if◌then◌else◌,
  str_eq, Result, ok, err, ◌>>=◌, ◌>>◌, refuse_if, ok_or,
}
use document_studio.Base.Text.{Text, codes, text_eq, ascii_lower, starts_with}
use document_studio.Contracts.Errors.{OperationError}
use document_studio.TextToPdf.Errors.{txt_max_raw_bytes}
use document_studio.Viewer.Errors.{
  unsafe_source, unsupported_source, source_changed, source_busy, unsafe_text_source,
  unsupported_text_source, text_size_limit,
}

-- What the file system says of a selected path, each answer where the code asks for it. An error
-- of opening has its number, if any.
pub record Inspection : Type 0 where
  pub canonical : Option (String × String)
  pub file_name : Option String
  pub extension : Option Text
  pub opened : Result (Option ℕ) ℕ
  pub identity : Option String
  pub is_file : Bool
  pub len : ℕ
  pub has_metadata : Bool
  pub header : Option Text
  pub modified_at : Option String

-- What is known of a file that may be opened.
pub record Checked : Type 0 where
  pub path : String
  pub display_name : String
  pub file : ℕ
  pub identity : String
  pub len : ℕ
  pub modified_at : String

unfoldable pub non_empty : Option String → Option String
non_empty none = none
non_empty (some name) = if str_eq name "" then none else some name

unfoldable pub has_extension : Text → Option Text → Bool
has_extension wanted none = false
has_extension wanted (some extension) = text_eq (map ascii_lower extension) (map ascii_lower wanted)

-- `matches!(error.raw_os_error(), Some(32 | 33))`.
unfoldable pub is_sharing_violation : Option ℕ → Bool
is_sharing_violation none = false
is_sharing_violation (some code) = code == 32 || code == 33

unfoldable pub map_open_error : Option ℕ → OperationError
map_open_error error = if is_sharing_violation error then source_busy else unsafe_source

unfoldable pub open_viewer_file :
    (Option ℕ → OperationError) → Result (Option ℕ) ℕ → Result OperationError ℕ
open_viewer_file f (ok file) = ok file
open_viewer_file f (err e) = err (f e)

-- `header.windows(5).any(|window| window == b"%PDF-")`.
unfoldable pub has_pdf_magic : Text → Bool
has_pdf_magic [] = false
has_pdf_magic (b ∷ bytes) =
    let later = has_pdf_magic bytes in starts_with (codes "%PDF-") (b ∷ bytes) || later

unfoldable pub inspect_pdf : Inspection → Result OperationError Checked
inspect_pdf i = do
  (path, expected_identity) ← ok_or i.canonical unsafe_source
  display_name ← ok_or (non_empty i.file_name) unsafe_source
  refuse_if (not (has_extension (codes "pdf") i.extension)) unsupported_source
  file ← open_viewer_file map_open_error i.opened
  identity ← ok_or i.identity unsafe_source
  refuse_if (not (str_eq identity expected_identity)) source_changed
  refuse_if (not i.has_metadata) unsafe_source
  refuse_if (not i.is_file || (i.len == 0)) unsupported_source
  header ← ok_or i.header unsupported_source
  refuse_if (not (has_pdf_magic header)) unsupported_source
  modified_at ← ok_or i.modified_at unsafe_source
  ok (record {
    path = path;
    display_name = display_name;
    file = file;
    identity = identity;
    len = i.len;
    modified_at = modified_at;
  })

unfoldable pub inspect_txt : Inspection → Result OperationError Checked
inspect_txt i = do
  (path, expected_identity) ← ok_or i.canonical unsafe_text_source
  display_name ← ok_or (non_empty i.file_name) unsafe_text_source
  refuse_if (not (has_extension (codes "txt") i.extension)) unsupported_text_source
  file ← open_viewer_file (λ e. unsafe_text_source) i.opened
  identity ← ok_or i.identity unsafe_text_source
  refuse_if (not (str_eq identity expected_identity)) source_changed
  refuse_if (not i.has_metadata) unsafe_text_source
  refuse_if (not i.is_file || ltb txt_max_raw_bytes i.len) text_size_limit
  modified_at ← ok_or i.modified_at unsafe_text_source
  ok (record {
    path = path;
    display_name = display_name;
    file = file;
    identity = identity;
    len = i.len;
    modified_at = modified_at;
  })
