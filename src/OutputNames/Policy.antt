-- ===== src/OutputNames/Policy.antt =====
-- `validate_output_name` of apps/desktop/src-tauri/src/path_policy.rs.
use document_studio.Base.{
  ℕ, Bool, false, [], ◌∷◌, Option, none, some, ◌&&◌, ◌||◌, any, is_empty, Result, ok, refuse_if,
  ◌>>◌, if◌then◌else◌, ltb, ◌==◌, map,
}
use document_studio.Base.Text.{Text, codes, text_eq, utf16_count, ascii_upper, strip_prefix}

-- The errors of path_policy.rs.
pub data PathPolicyError : Type 0 where
  not_absolute unsafe_namespace missing not_regular_file not_directory : PathPolicyError
  reparse_point unsafe_file_name same_file io : PathPolicyError

-- `name.ends_with(['.', ' '])`.
unfoldable pub ends_with_dot_or_space : Text → Bool
ends_with_dot_or_space [] = false
ends_with_dot_or_space (c ∷ []) = c == b'.' || c == b' '
ends_with_dot_or_space (c ∷ d ∷ s) = ends_with_dot_or_space (d ∷ s)

unfoldable pub is_unsafe_character : ℕ → Bool
is_unsafe_character c =
    ltb c b' '
    || (c == b'<'
        || (c == b'>'
            || (c == b':'
                || (c == b'"'
                    || (c == b'/' || (c == b'\\' || (c == b'|' || (c == b'?' || c == b'*'))))))))

-- `name.split('.').next()`: what stands before the first dot.
unfoldable pub first_segment : Text → Text
first_segment [] = []
first_segment (c ∷ s) = if c == b'.' then [] else c ∷ first_segment s

-- `Some("1" | … | "9")`.
unfoldable pub reserved_number : Option Text → Bool
reserved_number none = false
reserved_number (some []) = false
reserved_number (some (c ∷ [])) = ltb b'0' c && ltb c b':'
reserved_number (some (c ∷ d ∷ s)) = false

unfoldable pub device_stem : Text → Text
device_stem name = map ascii_upper (first_segment name)

unfoldable pub is_reserved : Text → Bool
is_reserved stem =
    (text_eq stem (codes "CON")
      || (text_eq stem (codes "PRN") || (text_eq stem (codes "AUX") || text_eq stem (codes "NUL"))))
    || (reserved_number (strip_prefix (codes "COM") stem)
        || reserved_number (strip_prefix (codes "LPT") stem))

unfoldable pub has_unsafe_shape : Text → Bool
has_unsafe_shape name =
    is_empty name
    || (ltb 255 (utf16_count name)
        || (text_eq name (codes ".")
            || (text_eq name (codes "..")
                || (ends_with_dot_or_space name || any is_unsafe_character name))))

unfoldable pub validate_output_name : Text → Result PathPolicyError (Unit {0})
validate_output_name name = do
  refuse_if (has_unsafe_shape name) unsafe_file_name
  refuse_if (is_reserved (device_stem name)) unsafe_file_name
  ok tt
