-- ===== src/TextToPdf/Sizes.antt =====
-- How long the text of `preflight_text` of text_to_pdf.rs can be, and what follows for its HTML.
use document_studio.Base.{
  ℕ, ◌+◌, ◌≤◌, ◌<◌, Bool, true, false, ltb, ◌==◌, within, List, [], ◌∷◌, ◌++◌, length,
  if◌then◌else◌, Bool-cases, Option-cases, ◌&&◌, ◌⊎◌, inl, inr, Option, none, some, Result, ok,
  arith, ◌≡◌, refl, subst,
}
use document_studio.Base.Text.{Text, utf8_len, utf8_width, strip_prefix, strip_prefix-join}
use document_studio.TextToPdf.Lines.{
  carriage_return, starts_with_line_feed, replace_pairs, replace_returns, normalize,
}
use document_studio.TextToPdf.Preflight.{NormalizedText, strip_bom, preflight_text}
use document_studio.TextToPdf.Html.{
  html_of, canonical_html, canonical_css, css, total_response_bytes,
}
use document_studio.TextToPdf.Escaping.{
  html_fits, html_size, length-utf8_bytes, total_response_bytes_iff,
}
use document_studio.TextToPdf.Accepted.{preflight_text_sound}
use document_studio.Base.Maps.{some-injective}
use document_studio.Base.Utf8.{
  Pending, idle, partial, start_byte, next_byte, decode_from, all_some, from_utf8, utf8_bytes,
  utf8_char,
}
use document_studio.Contracts.Errors.{OperationError}

-- The bytes that the characters take which are emitted.
unfoldable emitted : List (Option ℕ) → ℕ
emitted [] = 0
emitted (none ∷ os) = emitted os
emitted (some c ∷ os) = utf8_width c + emitted os

emitted-append : (os ps : List (Option ℕ)) → emitted (os ++ ps) ≡ emitted os + emitted ps
unfolding emitted
emitted-append [] ps = omega arith
emitted-append (none ∷ os) ps = emitted-append os ps
emitted-append (some c ∷ os) ps = omega (arith, emitted-append os ps)

-- A character is open after `consumed` bytes, and its value will fit in as many bytes as it takes.
abbrev IsOpen : Pending → ℕ → Type 0
IsOpen idle consumed = consumed ≡ 0
IsOpen (partial needed lower upper acc) consumed =
    (upper ≤ 0xbf)
    × (((needed ≡ 1) × (consumed ≡ 1) × (acc < 32))
        ⊎ (((needed ≡ 2) × (consumed ≡ 1) × (acc < 16))
            ⊎ (((needed ≡ 1) × (consumed ≡ 2) × (acc < 1024))
                ⊎ ((1 ≤ needed) × (consumed + needed ≡ 4)))))

abbrev Fits : List (Option ℕ) × Pending → ℕ → Type 0
Fits s bytes = (consumed : ℕ) × IsOpen (s.1) consumed × (emitted (s.0) + consumed ≤ bytes)

Fits-if :
    (s t : List (Option ℕ) × Pending) (bytes : ℕ) (b : Bool)
    → (b ≡ true → Fits s bytes)
    → (b ≡ false → Fits t bytes)
    → Fits (if b then s else t) bytes
Fits-if s t bytes true f g = f refl
Fits-if s t bytes false f g = g refl

start_byte-Fits : (b : ℕ) → Fits (start_byte b) 1
unfolding start_byte emitted
start_byte-Fits b =
    Fits-if _ _ _ (ltb b 0x80) (λ e. (0, refl, ground arith))
      (λ _.
        Fits-if _ _ _ (within 0xc2 0xdf b)
          (λ e. (1, (omega arith, inl (refl, refl, ground arith)), omega arith))
          (λ _.
            Fits-if _ _ _ (b == 0xe0)
              (λ e. (1, (omega arith, inr (inl (refl, refl, omega arith))), omega arith))
              (λ _.
                Fits-if _ _ _ (b == 0xed)
                  (λ e. (1, (omega arith, inr (inl (refl, refl, omega arith))), omega arith))
                  (λ _.
                    Fits-if _ _ _ (within 0xe1 0xef b)
                      (λ e. (1, (omega arith, inr (inl (refl, refl, ground arith))), omega arith))
                      (λ _.
                        Fits-if _ _ _ (b == 0xf0)
                          (λ e.
                            (1, (omega arith, inr (inr (inr (omega arith, refl)))), omega arith))
                          (λ _.
                            Fits-if _ _ _ (within 0xf1 0xf3 b)
                              (λ e. (
                                1,
                                (omega arith, inr (inr (inr (omega arith, refl)))),
                                omega arith,
                              ))
                              (λ _.
                                Fits-if _ _ _ (b == 0xf4)
                                  (λ e. (
                                    1,
                                    (omega arith, inr (inr (inr (omega arith, refl)))),
                                    omega arith,
                                  ))
                                  (λ _. (0, refl, omega arith)))))))))

next_byte-Fits :
    (open_ : Pending) (b consumed : ℕ)
    → IsOpen open_ consumed
    → Fits (next_byte open_ b) (consumed + 1)
unfolding next_byte emitted
next_byte-Fits idle b consumed opened =
    let (after, left, fits) = start_byte-Fits b in (after, left, omega (arith, opened, fits))
next_byte-Fits (partial needed lower upper acc) b consumed (below, opened) =
    Fits-if _ _ _ (within lower upper b)
      (λ inside.
        Fits-if _ _ _ (needed == 1) (λ last. (0, refl, ground arith))
          (λ more. (consumed + 1, ground arith, omega arith)))
      (λ _. let (after, left, fits) = start_byte-Fits b in (after, left, omega (arith, fits)))

decode_fits :
    (open_ : Pending) (bytes : List ℕ) (consumed : ℕ)
    → IsOpen open_ consumed
    → emitted (decode_from open_ bytes) ≤ consumed + length bytes
unfolding decode_from emitted
decode_fits idle [] consumed opened = omega arith
decode_fits (partial needed lower upper acc) [] consumed opened = omega arith
decode_fits open_ (b ∷ bytes) consumed opened =
    let (after, left, fits) = next_byte-Fits open_ b consumed opened in
    let step = next_byte open_ b in
    omega (
      arith,
      fits,
      emitted-append (step.0) (decode_from (step.1) bytes),
      decode_fits (step.1) bytes after left,
    )

all_some_fits :
    (os : List (Option ℕ)) (text : Text) → all_some os ≡ some text → utf8_len text ≡ emitted os
unfolding all_some emitted utf8_len
all_some_fits [] text h = subst (λ t. utf8_len t ≡ 0) (some-injective [] text h) refl
all_some_fits (none ∷ os) text h = cc (h)
all_some_fits (some c ∷ os) text h = elim (Option-cases (all_some os)) [
  | inl e ↦ let never : ◌≡◌ {A = Option Text} none (some text) = rw e at h in cc (never)
  | inr (rest, e) ↦
      let found : ◌≡◌ {A = Option Text} (some (c ∷ rest)) (some text) = rw e at h in
      subst (λ t. utf8_len t ≡ utf8_width c + emitted os) (some-injective (c ∷ rest) text found)
        (omega (arith, all_some_fits os rest e))
]

pub from_utf8_fits :
    (bytes : List ℕ) (text : Text) → from_utf8 bytes ≡ some text → utf8_len text ≤ length bytes
unfolding from_utf8
from_utf8_fits bytes text h =
    omega (arith, all_some_fits (decode_from idle bytes) text h, decode_fits idle bytes 0 refl)

replace_pairs_fits : (text : Text) → utf8_len (replace_pairs text) ≤ utf8_len text
unfolding replace_pairs utf8_len
replace_pairs_fits [] = omega arith
replace_pairs_fits (c ∷ text) =
    elim (Bool-cases ((c == carriage_return) && starts_with_line_feed text)) [
      | inl e ↦ rw e (omega (arith, replace_pairs_fits text))
      | inr e ↦ rw e (omega (arith, replace_pairs_fits text))
    ]

replace_returns_fits : (text : Text) → utf8_len (replace_returns text) ≤ utf8_len text
unfolding replace_returns utf8_len
replace_returns_fits [] = omega arith
replace_returns_fits (c ∷ text) = ground (arith, replace_returns_fits text)

strip_bom_fits : (raw : List ℕ) → length (strip_bom raw) ≤ length raw
unfolding strip_bom
strip_bom_fits raw = elim (Option-cases (strip_prefix (0xef ∷ 0xbb ∷ 0xbf ∷ []) raw)) [
  | inl e ↦ rw (e, length) (omega arith)
  | inr (rest, e) ↦
      rw (e, length)
        (let whole = (strip_prefix-join (0xef ∷ 0xbb ∷ 0xbf ∷ []) raw rest).0 e in
          rw whole (omega arith))
]

accepted_size :
    (cmap_contains : ℕ → ℕ → Result (Unit {0}) Bool)
    (fonts_validated : Result OperationError (Unit {0})) (raw : List ℕ) (n : NormalizedText)
    → preflight_text cmap_contains fonts_validated raw ≡ ok n
    → utf8_len n.text ≤ 8388608
unfolding normalize
accepted_size cmap_contains fonts_validated raw n accepted =
    let sound = preflight_text_sound cmap_contains fonts_validated raw n accepted in
    let (decoded, read, same) = sound.3 in
    rw same (
      omega (
        arith,
        sound.1,
        strip_bom_fits raw,
        from_utf8_fits (strip_bom raw) decoded read,
        replace_pairs_fits decoded,
        replace_returns_fits (replace_pairs decoded),
      ))

css_accepted : (canonical_css ≡ ok (utf8_bytes css)) × (length (utf8_bytes css) ≤ 1024)
unfolding canonical_css css utf8_len utf8_bytes utf8_char
css_accepted = (refl, omega arith)

-- For every text that the preflight returns, the HTML is made when its memory is given, the style
-- sheet is made, and their sizes and that of the fonts add up to an accepted response size of at
-- most 44,158,184 bytes: the limits on the HTML, on the style sheet and on the response refuse no
-- such text.
pub accepted_fits :
    (cmap_contains : ℕ → ℕ → Result (Unit {0}) Bool)
    (fonts_validated : Result OperationError (Unit {0})) (raw : List ℕ) (n : NormalizedText)
    → preflight_text cmap_contains fonts_validated raw ≡ ok n
    → (html : List ℕ) × (style : List ℕ) × (total : ℕ) × (canonical_html true n.text ≡ ok html)
      × (canonical_css ≡ ok style)
      × (total_response_bytes (length html) (length style) ≡ ok total)
      × (total ≤ 44158184)
accepted_fits cmap_contains fonts_validated raw n accepted =
    let small = accepted_size cmap_contains fonts_validated raw n accepted in
    let size = length-utf8_bytes (html_of n.text) in
    let sum = length (utf8_bytes (html_of n.text)) + length (utf8_bytes css) + 1101032 in
    let fits : sum ≤ 44158184 = omega (arith, small, size, html_size n.text, css_accepted.1) in
    (
      utf8_bytes (html_of n.text),
      utf8_bytes css,
      sum,
      html_fits n.text small,
      css_accepted.0,
      (total_response_bytes_iff (length (utf8_bytes (html_of n.text))) (length (utf8_bytes css))
            sum).1
          (refl, fits),
      fits,
    )
