-- ===== src/TextToPdf/Cache.antt =====
-- The cache of `preflight_text` of text_to_pdf.rs against a loop that asks the font every time.
use document_studio.Base.{
  ℕ, ◌+◌, Bool, false, not, ◌||◌, ◌==◌, ==_iff, ltb, List, [], ◌∷◌, length, any, All, some,
  Option-cases, Bool-cases, Result-cases, inl, inr, if◌then◌else◌, Result, ok, err, ◌>>=◌, ◌>>◌,
  refuse_if, ok_or, map_err, arith, ◌≡◌, refl, ap, subst, fun_ext,
}
use document_studio.Base.Text.{Text, utf8_len}
use document_studio.Base.Utf8.{from_utf8}
use document_studio.Contracts.Errors.{OperationError}
use document_studio.TextToPdf.Errors.{
  font_error, unsupported_unicode, txt_max_logical_lines, txt_max_line_bytes, txt_max_raw_bytes,
  line_count_limit, line_bytes_limit, size_limit, unsupported_bom, invalid_utf8,
}
use document_studio.TextToPdf.Characters.{AdmittedScript, font_index, is_whitespace}
use document_studio.TextToPdf.Lines.{normalize, line_feed, split_lines}
use document_studio.TextToPdf.Preflight.{
  NormalizedText, Cache, cached, Scan, insert_script, new_scan, reset_run, refuse_class, script_at,
  next_run, starts_with_unsupported_bom, strip_bom, preflight_text, look_up, check_character,
  check_characters, preflight_normalized,
}

-- What the loop without the cache changes: the run and the scripts.
abbrev pub Progress : Type 0
Progress = ℕ × (AdmittedScript → Bool)

unfoldable pub admit_covered : AdmittedScript → ℕ → Progress → Bool → Result OperationError Progress
admit_covered script code progress covered = do
  refuse_if (not covered) unsupported_unicode
  run ← next_run code (progress.0)
  ok (run, if is_whitespace code then progress.1 else insert_script script (progress.1))

abbrev normalized_text : Text → ℕ → (AdmittedScript → Bool) → Result OperationError NormalizedText
normalized_text text lines scripts =
    ok (record { text = text; logical_lines = lines; used_scripts = scripts })

module _ (cmap_contains : ℕ → ℕ → Result (Unit {0}) Bool) where
  -- Each entry is what the font answers.
  abbrev pub IsSound : Cache → Type 0
  IsSound = All (λ entry. cmap_contains (entry.0.0) (entry.0.1) ≡ ok (entry.1))

  cached_sound :
      (cache : Cache) (font code : ℕ) (covered : Bool)
      → IsSound cache
      → cached cache font code ≡ some covered
      → cmap_contains font code ≡ ok covered
  unfolding cached
  cached_sound [] font code covered sound h = cc
  cached_sound (((f, c), kept) ∷ cache) font code covered sound h =
      ground
        (arith, sound, ==_iff f font, ==_iff c code, cached_sound cache font code covered (sound.1))

  -- The loop without the cache.
  unfoldable pub ask_font : ℕ → ℕ → Result OperationError Bool
  ask_font font code = map_err (λ _. font_error) (cmap_contains font code)

  unfoldable pub admit_character : Text → ℕ → ℕ → Progress → Result OperationError Progress
  admit_character chars index code progress =
      if code == line_feed || code == 9 then ok (0, progress.1) else do
        refuse_class code
        script ← script_at chars index code
        covered ← ask_font (font_index script) code
        admit_covered script code progress covered

  unfoldable pub admit_characters : Text → ℕ → Text → Progress → Result OperationError Progress
  admit_characters chars index [] progress = ok progress
  admit_characters chars index (code ∷ rest) progress =
      admit_character chars index code progress >>= λ next.
      admit_characters chars (index + 1) rest next

  -- A scan and the loop without the cache are at the same point.
  abbrev Agrees : Result OperationError Scan → Result OperationError Progress → Type 0
  Agrees (ok scan) r = (r ≡ ok (scan.shaping_run, scan.used_scripts)) × IsSound scan.cmap_cache
  Agrees (err e) r = r ≡ err e

  Agrees->>= :
      {A : Type 0} (r : Result OperationError A) (k : A → Result OperationError Scan)
      (l : A → Result OperationError Progress)
      → ((a : A) → Agrees (k a) (l a))
      → Agrees (r >>= k) (r >>= l)
  Agrees->>= (ok a) k l h = h a
  Agrees->>= (err e) k l h = refl

  Agrees->>=-look_up :
      (cache : Cache) (font code : ℕ)
      → IsSound cache
      → (k : (Bool × Cache) → Result OperationError Scan)
        (l : Bool → Result OperationError Progress)
      → ((covered : Bool) (kept : Cache) → IsSound kept → Agrees (k (covered, kept)) (l covered))
      → Agrees (look_up cmap_contains cache font code >>= k) (ask_font font code >>= l)
  unfolding look_up ask_font
  Agrees->>=-look_up cache font code sound k l h = elim (Option-cases (cached cache font code)) [
    | inl e ↦ elim (Result-cases (cmap_contains font code)) [
      | inl (covered, answered) ↦
          rw (e, look_up, answered) (h covered (((font, code), covered) ∷ cache) (answered, sound))
      | inr (x, failed) ↦ rw (e, look_up, failed)
    ]
    | inr (covered, e) ↦
        rw (e, look_up, cached_sound cache font code covered sound e) (h covered cache sound)
  ]

  Agrees-check_character :
      (chars : Text) (index code : ℕ) (scan : Scan)
      → IsSound scan.cmap_cache
      → Agrees
          (check_character cmap_contains chars index code scan)
          (admit_character chars index code (scan.shaping_run, scan.used_scripts))
  unfolding check_character admit_character admit_covered reset_run
  Agrees-check_character chars index code scan sound =
      elim (Bool-cases (code == line_feed || code == 9)) [
        | inl e ↦ rw e (refl, sound)
        | inr e ↦ rw e (
            Agrees->>= (refuse_class code) _ _ (λ _.
              Agrees->>= (script_at chars index code) _ _ (λ script.
                Agrees->>=-look_up scan.cmap_cache (font_index script) code sound _ _
                  (λ covered kept kept_sound.
                    Agrees->>= (refuse_if (not covered) unsupported_unicode) _ _ (λ _.
                      Agrees->>= (next_run code scan.shaping_run) _ _
                        (λ run. (refl, kept_sound)))))))
      ]

  Agrees-check_characters :
      (chars : Text) (index : ℕ) (rest : Text) (scan : Scan)
      → IsSound scan.cmap_cache
      → Agrees
          (check_characters cmap_contains chars index rest scan)
          (admit_characters chars index rest (scan.shaping_run, scan.used_scripts))
  unfolding check_characters admit_characters
  Agrees-check_characters chars index [] scan sound = (refl, sound)
  Agrees-check_characters chars index (code ∷ rest) scan sound =
      let step = Agrees-check_character chars index code scan sound in
      elim (Result-cases (check_character cmap_contains chars index code scan)) [
        | inl (next, e) ↦
            let found =
              subst
                (λ r.
                  Agrees r (admit_character chars index code (scan.shaping_run, scan.used_scripts)))
                e step in
            rw (e, found.0) (Agrees-check_characters chars (index + 1) rest next (found.1))
        | inr (x, e) ↦
            let found =
              subst
                (λ r.
                  Agrees r (admit_character chars index code (scan.shaping_run, scan.used_scripts)))
                e step in
            rw (e, found)
      ]

  -- The preflight with this loop.
  unfoldable pub admit_normalized : Text → Result OperationError NormalizedText
  admit_normalized normalized = do
    refuse_if (ltb txt_max_logical_lines (length (split_lines normalized))) line_count_limit
    refuse_if (any (λ line. ltb txt_max_line_bytes (utf8_len line)) (split_lines normalized))
        line_bytes_limit
    progress ← admit_characters normalized 0 normalized (0, λ script. false)
    ok (record {
      text = normalized;
      logical_lines = length (split_lines normalized);
      used_scripts = progress.1;
    })

  unfoldable pub admit_text :
      Result OperationError (Unit {0}) → List ℕ → Result OperationError NormalizedText
  admit_text fonts_validated raw = do
    refuse_if (ltb txt_max_raw_bytes (length raw)) size_limit
    fonts_validated
    refuse_if (starts_with_unsupported_bom raw) unsupported_bom
    decoded ← ok_or (from_utf8 (strip_bom raw)) invalid_utf8
    admit_normalized (normalize decoded)

  same_result :
      (r : Result OperationError Scan) (q : Result OperationError Progress) (text : Text)
      (lines : ℕ)
      → Agrees r q
      → (r >>= λ scan. normalized_text text lines scan.used_scripts)
        ≡ (q >>= λ progress. normalized_text text lines (progress.1))
  same_result (ok scan) q text lines agreed = rw (agreed.0)
  same_result (err e) q text lines agreed = rw agreed

  preflight_normalized_lem :
      (normalized : Text)
      → preflight_normalized cmap_contains normalized ≡ admit_normalized normalized
  unfolding preflight_normalized admit_normalized new_scan
  preflight_normalized_lem normalized =
      ap
        (λ rest.
          refuse_if (ltb txt_max_logical_lines (length (split_lines normalized))) line_count_limit
          >> (refuse_if
                (any (λ line. ltb txt_max_line_bytes (utf8_len line)) (split_lines normalized))
                line_bytes_limit
              >> rest))
        (same_result (check_characters cmap_contains normalized 0 normalized new_scan)
          (admit_characters normalized 0 normalized (0, λ script. false)) normalized
          (length (split_lines normalized))
          (Agrees-check_characters normalized 0 normalized new_scan tt))

-- The cache of the character maps changes nothing: for every input, the preflight gives the same
-- text, lines and scripts or the same error as one that asks the font for each character.
pub preflight_text_lem :
    (cmap_contains : ℕ → ℕ → Result (Unit {0}) Bool)
    (fonts_validated : Result OperationError (Unit {0})) (raw : List ℕ)
    → preflight_text cmap_contains fonts_validated raw
      ≡ admit_text cmap_contains fonts_validated raw
unfolding preflight_text admit_text
preflight_text_lem cmap_contains fonts_validated raw =
    ap
      (λ rest.
        refuse_if (ltb txt_max_raw_bytes (length raw)) size_limit
        >> (fonts_validated
            >> (refuse_if (starts_with_unsupported_bom raw) unsupported_bom
                >> (ok_or (from_utf8 (strip_bom raw)) invalid_utf8 >>= rest))))
      (fun_ext (λ decoded. preflight_normalized_lem cmap_contains (normalize decoded)))
