-- ===== src/TextToPdf/Html.antt =====
-- `canonical_html`, `canonical_css` and `total_response_bytes` of text_to_pdf.rs.
use document_studio.Base.{
  ℕ, ◌+◌, ◌*◌, ◌^◌, String, Bool, true, false, ◌||◌, ltb, ◌==◌, List, [], ◌∷◌, ◌++◌, Option, none,
  some, if◌then◌else◌, Result, ok, ◌>>=◌, ◌>>◌, refuse_if, ok_or,
}
use document_studio.Base.Text.{Text, codes, utf8_len}
use document_studio.Base.Utf8.{utf8_bytes}
use document_studio.Contracts.Errors.{OperationError}
use document_studio.TextToPdf.Errors.{
  txt_max_html_bytes, txt_max_css_bytes, txt_approved_font_bytes, txt_max_served_bytes,
  response_size_error,
}

-- `checked_add` and `checked_mul` of a `usize` of 64 bits.
abbrev pub checked_usize : ℕ → Option ℕ
checked_usize n = if ltb n (2 ^ 64) then some n else none

-- `u32::MAX as usize`.
abbrev pub u32_max : ℕ
u32_max = 0xffffffff

unfoldable pub content_security_policy : String
content_security_policy =
    "default-src 'none'; script-src 'none'; connect-src 'none'; img-src 'none'; media-src 'none'; object-src 'none'; frame-src 'none'; child-src 'none'; form-action 'none'; base-uri 'none'; style-src 'self'; font-src 'self'; worker-src 'none'; manifest-src 'none'; frame-ancestors 'none';"

-- The body of the loop over the characters.
unfoldable pub escape_character : ℕ → Text
escape_character c =
    if c == b'&'
    then codes "&amp;"
    else if c == b'<'
    then codes "&lt;"
    else if c == b'>'
    then codes "&gt;"
    else c ∷ []

unfoldable pub escape : Text → Text
escape [] = []
escape (c ∷ text) = escape_character c ++ escape text

-- What `format!` writes before and after the escaped text.
unfoldable pub html_head : Text
html_head =
    codes
      "<!doctype html><html><head><meta charset=\"utf-8\"><meta name=\"viewport\" content=\"width=device-width,initial-scale=1\"><meta name=\"color-scheme\" content=\"only light\"><meta http-equiv=\"Content-Security-Policy\" content=\""
    ++ (codes content_security_policy
        ++ codes "\"><link rel=\"stylesheet\" href=\"document.css\"></head><body><pre>")

unfoldable pub html_tail : Text
html_tail = codes "</pre></body></html>"

unfoldable pub html_of : Text → Text
html_of text = html_head ++ (escape text ++ html_tail)

-- A reservation of memory that fails is the allocator's answer, a parameter.
unfoldable pub canonical_html : Bool → Text → Result OperationError (List ℕ)
canonical_html is_reserved text = do
  escaped_capacity ← ok_or (checked_usize (utf8_len text * 5)) response_size_error
  refuse_if (ltb txt_max_html_bytes escaped_capacity) response_size_error
  refuse_if (if is_reserved then false else true) response_size_error
  refuse_if
      (ltb txt_max_html_bytes (utf8_len (html_of text)) || ltb u32_max (utf8_len (html_of text)))
      response_size_error
  ok (utf8_bytes (html_of text))

unfoldable pub css : Text
css =
    codes
      "@font-face{font-family:'DocumentStudioText';src:url('fonts/noto-sans-devanagari-regular.ttf') format('truetype');font-style:normal;font-weight:400;font-display:block;unicode-range:U+0900-097F,U+A8E0-A8FF,U+200C-200D;}"
    ++ (codes
          "@font-face{font-family:'DocumentStudioText';src:url('fonts/noto-sans-telugu-regular.ttf') format('truetype');font-style:normal;font-weight:400;font-display:block;unicode-range:U+0C00-0C7F,U+200C-200D;}"
        ++ (codes
              "@font-face{font-family:'DocumentStudioText';src:url('fonts/noto-sans-regular.ttf') format('truetype');font-style:normal;font-weight:400;font-display:block;unicode-range:U+0020-007E,U+00A0-024F,U+0300-036F,U+2000-206F,U+20A0-21FF;}"
            ++ codes
                "@page{margin:0.5in;}html,body{margin:0;padding:0;background:#fff;color:#000;}body{font-family:'DocumentStudioText';font-weight:400;font-style:normal;font-size:11pt;line-height:1.45;font-synthesis:none;}pre{margin:0;white-space:pre-wrap;overflow-wrap:anywhere;tab-size:4;font:inherit;}"))

unfoldable pub canonical_css : Result OperationError (List ℕ)
canonical_css = do
  refuse_if (ltb txt_max_css_bytes (utf8_len css) || ltb u32_max (utf8_len css)) response_size_error
  ok (utf8_bytes css)

-- `html.checked_add(css).and_then(|value| value.checked_add(TXT_APPROVED_FONT_BYTES))`.
unfoldable pub sum_of_sizes : ℕ → ℕ → Option ℕ
sum_of_sizes html css_size = elim (checked_usize (html + css_size)) [
  | none ↦ none
  | some value ↦ checked_usize (value + txt_approved_font_bytes)
]

unfoldable pub total_response_bytes : ℕ → ℕ → Result OperationError ℕ
total_response_bytes html css_size = do
  total ← ok_or (sum_of_sizes html css_size) response_size_error
  refuse_if (ltb txt_max_served_bytes total || ltb u32_max total) response_size_error
  ok total
