-- ===== src/TextToPdf/Accepted.antt =====
-- What the text that `preflight_text` of text_to_pdf.rs returns is like.
use document_studio.Base.{
  ℕ, ◌+◌, ◌≤◌, Bool, true, false, ltb, List, [], ◌∷◌, ◌++◌, length, any, All, some, Result, ok,
  ok_or, arith, ◌≡◌, sym, ap, subst, ◌∙◌, >>=-eq-ok, refused_not, ok_or-eq-ok, ok-injective,
}
use document_studio.Base.Text.{Text, utf8_len}
use document_studio.Base.Utf8.{from_utf8}
use document_studio.Contracts.Errors.{OperationError}
use document_studio.TextToPdf.Errors.{
  txt_max_raw_bytes, txt_max_logical_lines, txt_max_line_bytes, invalid_utf8,
}
use document_studio.TextToPdf.Characters.{is_joiner}
use document_studio.TextToPdf.Lines.{normalize, split_lines}
use document_studio.TextToPdf.Preflight.{
  NormalizedText, starts_with_unsupported_bom, strip_bom, preflight_text,
}
use document_studio.TextToPdf.Cache.{
  Progress, admit_characters, admit_normalized, admit_text, preflight_text_lem,
}
use document_studio.TextToPdf.Admission.{
  IsAdmitted, admit_characters-IsAdmitted, admit_characters_reach,
}
use document_studio.TextToPdf.Clusters.{IsInCluster, validate_joiner-IsInCluster}

none_over :
    (limit : ℕ) (lines : List Text)
    → any (λ line. ltb limit (utf8_len line)) lines ≡ false
    → All (λ line. utf8_len line ≤ limit) lines
none_over limit [] h = tt
none_over limit (line ∷ lines) h = (ground arith, none_over limit lines (ground arith))

limits_of :
    (cmap_contains : ℕ → ℕ → Result (Unit {0}) Bool) (normalized : Text) (n : NormalizedText)
    → admit_normalized cmap_contains normalized ≡ ok n
    → (n.text ≡ normalized)
      × (n.logical_lines ≡ length (split_lines normalized))
      × (length (split_lines normalized) ≤ txt_max_logical_lines)
      × All (λ line. utf8_len line ≤ txt_max_line_bytes) (split_lines normalized)
      × ((last : Progress) × (admit_characters cmap_contains normalized 0 normalized
              (0, λ script. false)
            ≡ ok last))
unfolding admit_normalized
limits_of cmap_contains normalized n h =
    let (few, h1) =
      refused_not (ltb txt_max_logical_lines (length (split_lines normalized))) _ _ h in
    let (narrow, h2) =
      refused_not (any (λ line. ltb txt_max_line_bytes (utf8_len line)) (split_lines normalized)) _
        _ h1 in
    let (last, scanned, h3) =
      >>=-eq-ok (admit_characters cmap_contains normalized 0 normalized (0, λ script. false)) _
        h2 in
    let same = ok-injective h3 in
    (
      sym (ap (λ (r : NormalizedText). r.text) same),
      sym (ap (λ (r : NormalizedText). r.logical_lines) same),
      ground arith,
      none_over txt_max_line_bytes (split_lines normalized) narrow,
      (last, scanned),
    )

module _ (cmap_contains : ℕ → ℕ → Result (Unit {0}) Bool)
    (fonts_validated : Result OperationError (Unit {0})) (raw : List ℕ) (n : NormalizedText)
    (accepted : preflight_text cmap_contains fonts_validated raw ≡ ok n) where
  -- The steps of an accepted run.
  run_of :
      (fonts_validated ≡ ok tt)
      × (length raw ≤ txt_max_raw_bytes)
      × (starts_with_unsupported_bom raw ≡ false)
      × ((decoded : Text) × (from_utf8 (strip_bom raw) ≡ some decoded)
          × (admit_normalized cmap_contains (normalize decoded) ≡ ok n))
  unfolding admit_text
  run_of =
      let h = sym (preflight_text_lem cmap_contains fonts_validated raw) ∙ accepted in
      let (small, h1) = refused_not (ltb txt_max_raw_bytes (length raw)) _ _ h in
      let (_, fonts, h2) = >>=-eq-ok fonts_validated _ h1 in
      let (plain, h3) = refused_not (starts_with_unsupported_bom raw) _ _ h2 in
      let (decoded, read, h4) = >>=-eq-ok (ok_or (from_utf8 (strip_bom raw)) invalid_utf8) _ h3 in
      (
        fonts,
        ground arith,
        plain,
        (decoded, ok_or-eq-ok (from_utf8 (strip_bom raw)) invalid_utf8 read, h4),
      )

  -- A text that the preflight returns comes from validated fonts and at most 8,388,608 bytes without
  -- a byte-order mark of UTF-16 or UTF-32, which are strict UTF-8 after a mark of UTF-8, if any; it
  -- is the decoded text with its line ends normalized; its number of lines is the one reported, at
  -- most 100,000, each of at most 65,536 bytes; and every character of it is a line feed, a tab or
  -- a character outside the refused classes that a font for its script covers.
  pub preflight_text_sound :
      (fonts_validated ≡ ok tt)
      × (length raw ≤ 8388608)
      × (starts_with_unsupported_bom raw ≡ false)
      × ((decoded : Text) × (from_utf8 (strip_bom raw) ≡ some decoded)
          × (n.text ≡ normalize decoded))
      × (n.logical_lines ≡ length (split_lines n.text))
      × (n.logical_lines ≤ 100000)
      × All (λ line. utf8_len line ≤ 65536) (split_lines n.text)
      × All (IsAdmitted cmap_contains) n.text
  preflight_text_sound =
      let (fonts, small, plain, (decoded, read, run)) = run_of in
      let (same, lines, few, narrow, (last, scanned)) =
        limits_of cmap_contains (normalize decoded) n run in
      (
        fonts,
        small,
        plain,
        (decoded, read, same),
        rw same lines,
        rw lines few,
        rw same narrow,
        rw same (
            admit_characters-IsAdmitted cmap_contains (normalize decoded) 0 (normalize decoded)
              (0, λ script. false) last scanned),
      )

  scanned_whole :
      (last : Progress) × (admit_characters cmap_contains n.text 0 n.text (0, λ script. false)
        ≡ ok last)
  scanned_whole =
      let (fonts, small, plain, (decoded, read, run)) = run_of in
      let (same, lines, few, narrow, (last, scanned)) =
        limits_of cmap_contains (normalize decoded) n run in
      (last, rw same scanned)

  scanned_at :
      (before : Text) (code : ℕ) (after : Text)
      → n.text ≡ before ++ code ∷ after
      → (last : Progress) × (admit_characters cmap_contains n.text 0
            (before ++ code ∷ after)
            (0, λ script. false)
          ≡ ok last)
  scanned_at before code after split = (
    scanned_whole.0,
    subst
        (λ t. admit_characters cmap_contains n.text 0 t (0, λ script. false) ≡ ok (scanned_whole.0))
        split (scanned_whole.1),
  )

  -- Every joiner in a text that the preflight returns joins two consonants of one script: a virama
  -- of the script stands before it, with a consonant before that (or a nukta after a consonant), and
  -- a consonant comes after it. The cluster members around it, taken as far as they go, are at most
  -- 15 before it and, with it, at most 16 from it on, and there is no other joiner among them.
  pub preflight_text_joiners :
      (before : Text) (code : ℕ) (after : Text)
      → n.text ≡ before ++ code ∷ after
      → is_joiner code ≡ true
      → IsInCluster n.text (length before)
  preflight_text_joiners before code after split joiner =
      let (last, run) = scanned_at before code after split in
      let (now, next, small, passed, rest) =
        admit_characters_reach cmap_contains n.text 0 before code after (0, λ script. false) last
          (omega arith) run in
      let (script, valid) = passed.3 joiner in
      let here : 0 + length before ≡ length before = omega arith in
      subst (IsInCluster n.text) here
        (validate_joiner-IsInCluster n.text (0 + length before) script valid)
