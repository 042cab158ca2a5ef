-- ===== src/TextToPdf/Escaping.antt =====
-- The HTML that `canonical_html` of text_to_pdf.rs writes: what a reader gets back, and its size.
use document_studio.Base.{
  ℕ, zero, suc, ◌+◌, ◌*◌, ◌≤◌, ◌^◌, true, false, ◌||◌, ltb, ◌==◌, ==_iff, [], ◌∷◌, ◌++◌, length,
  All, length-append, if◌then◌else◌, Bool-cases, inl, inr, ok, arith, ◌↔◌, ◌≡◌, refl, ap,
}
use document_studio.Base.Text.{Text, codes, utf8_len, starts_with}
use document_studio.Base.Utf8.{utf8_bytes, utf8_char}
use document_studio.TextToPdf.Errors.{txt_max_html_bytes}
use document_studio.TextToPdf.Html.{
  u32_max, escape_character, escape, html_head, html_tail, html_of, canonical_html,
  content_security_policy, sum_of_sizes, total_response_bytes,
}

-- What a reader of HTML takes from the front of a text: a character, and how many characters of its
-- reference are left to be skipped.
unfoldable pub front : ℕ → Text → ℕ × ℕ
front c s =
    if starts_with (codes "&amp;") (c ∷ s)
    then (b'&', 4)
    else if starts_with (codes "&lt;") (c ∷ s)
    then (b'<', 3)
    else if starts_with (codes "&gt;") (c ∷ s)
    then (b'>', 3)
    else (c, 0)

unfoldable pub unescape : ℕ → Text → Text
unescape skip [] = []
unescape (suc skip) (c ∷ s) = unescape skip s
unescape zero (c ∷ s) = let taken = front c s in taken.0 ∷ unescape (taken.1) s

plain_front : (c : ℕ) (s : Text) → (c == b'&') ≡ false → front c s ≡ (c, 0)
unfolding front starts_with
plain_front c s h = let other : (b'&' == c) ≡ false = ground arith in rw other refl

-- The escaped text holds no `<` and no `>`, and a reader of HTML that replaces the three references
-- gets the text back.
pub unescape-escape :
    (text : Text)
    → All (λ c. (c == b'<' || c == b'>') ≡ false) (escape text) × (unescape 0 (escape text) ≡ text)
unfolding escape escape_character unescape front starts_with
unescape-escape [] = (tt, refl)
unescape-escape (c ∷ text) =
    let (none_in, back) = unescape-escape text in
    elim (Bool-cases (c == b'&')) [
      | inl e ↦
          rw ((==_iff c b'&').0 e)
            ((refl, (refl, (refl, (refl, (refl, none_in))))), ap (λ t. b'&' ∷ t) back)
      | inr not_amp ↦ elim (Bool-cases (c == b'<')) [
        | inl e ↦
            rw ((==_iff c b'<').0 e)
              ((refl, (refl, (refl, (refl, none_in)))), ap (λ t. b'<' ∷ t) back)
        | inr not_lt ↦ elim (Bool-cases (c == b'>')) [
          | inl e ↦
              rw ((==_iff c b'>').0 e)
                ((refl, (refl, (refl, (refl, none_in)))), ap (λ t. b'>' ∷ t) back)
          | inr not_gt ↦
              rw (not_amp, not_lt, not_gt)
                (
                  (ground arith, none_in),
                  rw (plain_front c (escape text) not_amp) (ap (λ t. c ∷ t) back),
                )
        ]
      ]
    ]

utf8_len-append : (s t : Text) → utf8_len (s ++ t) ≡ utf8_len s + utf8_len t
unfolding utf8_len
utf8_len-append [] t = omega arith
utf8_len-append (c ∷ s) t = ground (arith, utf8_len-append s t)

width_escaped : (c : ℕ) → utf8_len (escape_character c) ≤ 5 * utf8_len (c ∷ [])
unfolding escape_character utf8_len
width_escaped c = ground arith

escape_bounded : (text : Text) → utf8_len (escape text) ≤ 5 * utf8_len text
unfolding escape
escape_bounded [] = unfold utf8_len in omega arith
escape_bounded (c ∷ text) =
    let split = utf8_len-append (escape_character c) (escape text) in
    let whole = utf8_len-append (c ∷ []) text in
    omega (arith, width_escaped c, escape_bounded text, split, whole)

head_size : utf8_len html_head ≡ 561
unfolding html_head utf8_len content_security_policy
head_size = refl

tail_size : utf8_len html_tail ≡ 20
unfolding html_tail utf8_len
tail_size = refl

pub html_size : (text : Text) → utf8_len (html_of text) ≤ 581 + 5 * utf8_len text
unfolding html_of
html_size text =
    let whole = utf8_len-append html_head (escape text ++ html_tail) in
    let body = utf8_len-append (escape text) html_tail in
    omega (arith, head_size, tail_size, escape_bounded text, whole, body)

-- A text of at most 8,388,608 bytes, when its memory is given, has an HTML document.
pub html_fits :
    (text : Text)
    → utf8_len text ≤ 8388608
    → canonical_html true text ≡ ok (utf8_bytes (html_of text))
unfolding canonical_html
html_fits text small =
    let capacity : ltb (utf8_len text * 5) (2 ^ 64) ≡ true = ground arith in
    let reserved : ltb txt_max_html_bytes (utf8_len text * 5) ≡ false = ground arith in
    let whole : (ltb txt_max_html_bytes (utf8_len (html_of text))
          || ltb u32_max (utf8_len (html_of text)))
        ≡ false =
      ground (arith, html_size text) in
    rw (capacity, reserved, whole)

length-utf8_char : (c : ℕ) → length (utf8_char c) ≡ utf8_len (c ∷ [])
unfolding utf8_char utf8_len
length-utf8_char c = ground arith

pub length-utf8_bytes : (text : Text) → length (utf8_bytes text) ≡ utf8_len text
unfolding utf8_bytes
length-utf8_bytes [] = unfold utf8_len in refl
length-utf8_bytes (c ∷ text) =
    let split = length-append (utf8_char c) (utf8_bytes text) in
    let whole = utf8_len-append (c ∷ []) text in
    omega (arith, split, whole, length-utf8_char c, length-utf8_bytes text)

-- The size of a response is accepted exactly when the sum of the HTML, the CSS and the fonts is at
-- most 44,158,184 bytes, and it is that sum; no addition that wraps around is taken for it.
pub total_response_bytes_iff :
    (html css_size total : ℕ)
    → (total_response_bytes html css_size ≡ ok total)
      ↔ ((total ≡ html + css_size + 1101032) × (total ≤ 44158184))
unfolding total_response_bytes sum_of_sizes
total_response_bytes_iff html css_size total = (λ h. ground arith, λ h. ground arith)
