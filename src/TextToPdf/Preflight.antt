-- ===== src/TextToPdf/Preflight.antt =====
-- `preflight_text` of text_to_pdf.rs. The fonts come in as a section parameter: whether the packaged
-- files pass `validate_approved_fonts`, and what `cmap_contains` of the parsed fonts answers.
use document_studio.Base.{
  ℕ, ◌+◌, ◌^◌, Bool, false, not, ◌&&◌, ◌||◌, ltb, leb, ◌==◌, List, [], ◌∷◌, length, any, Option,
  none, some, if◌then◌else◌, Result, ok, err, ◌>>=◌, ◌>>◌, refuse_if, ok_or,
}
use document_studio.Base.Text.{Text, utf8_len, starts_with, strip_prefix}
use document_studio.Base.Utf8.{from_utf8}
use document_studio.Contracts.Errors.{OperationError}
use document_studio.TextToPdf.Errors.{
  txt_max_raw_bytes, txt_max_logical_lines, txt_max_line_bytes, txt_max_shaping_run, size_limit,
  unsupported_bom, invalid_utf8, line_count_limit, line_bytes_limit, embedded_bom,
  control_character, bidi_control, noncharacter, unsupported_unicode, shaping_error, font_error,
}
use document_studio.TextToPdf.Characters.{
  AdmittedScript, is_rejected_control, is_bidi_control, is_noncharacter, admitted_script,
  font_index, is_combining_or_default_ignorable, is_joiner, is_whitespace,
}
use document_studio.TextToPdf.Joiners.{validate_joiner}
use document_studio.TextToPdf.Lines.{normalize, split_lines, line_feed}

pub record NormalizedText : Type 0 where
  pub text : Text
  pub logical_lines : ℕ
  pub used_scripts : AdmittedScript → Bool

unfoldable pub starts_with_unsupported_bom : List ℕ → Bool
starts_with_unsupported_bom raw =
    starts_with (0xff ∷ 0xfe ∷ 0 ∷ 0 ∷ []) raw
    || (starts_with (0 ∷ 0 ∷ 0xfe ∷ 0xff ∷ []) raw
        || (starts_with (0xff ∷ 0xfe ∷ []) raw || starts_with (0xfe ∷ 0xff ∷ []) raw))

-- `strip_prefix(…).unwrap_or(raw)`.
unfoldable pub strip_bom : List ℕ → List ℕ
strip_bom raw = elim (strip_prefix (0xef ∷ 0xbb ∷ 0xbf ∷ []) raw) [ none ↦ raw | some rest ↦ rest ]

-- The entries of `cmap_cache`: a font's index and a code, and whether the font has the code.
abbrev pub Cache : Type 0
Cache = List ((ℕ × ℕ) × Bool)

unfoldable pub cached : Cache → ℕ → ℕ → Option Bool
cached [] font code = none
cached (((f, c), covered) ∷ cache) font code =
    let rest = cached cache font code in if (f == font) && (c == code) then some covered else rest

-- What the loop over the characters changes. A set of scripts is its membership test.
pub record Scan : Type 0 where
  pub shaping_run : ℕ
  pub used_scripts : AdmittedScript → Bool
  pub cmap_cache : Cache

unfoldable pub insert_script : AdmittedScript → (AdmittedScript → Bool) → AdmittedScript → Bool
insert_script script scripts other = (font_index script == font_index other) || scripts other

unfoldable pub new_scan : Scan
new_scan = record { shaping_run = 0; used_scripts = λ script. false; cmap_cache = [] }

-- `continue` after a line feed or a tab.
unfoldable pub reset_run : Scan → Scan
reset_run scan = record scan { shaping_run = 0 }

-- The four classes that are refused, in the order of the code.
unfoldable pub refuse_class : ℕ → Result OperationError (Unit {0})
refuse_class code = do
  refuse_if (code == 0xfeff) embedded_bom
  refuse_if (is_rejected_control code) control_character
  refuse_if (is_bidi_control code) bidi_control
  refuse_if (is_noncharacter code) noncharacter

unfoldable pub script_at : Text → ℕ → ℕ → Result OperationError AdmittedScript
script_at chars index code =
    if is_joiner code
    then validate_joiner chars index
    else ok_or (admitted_script code) unsupported_unicode

-- `checked_add(1)` of `usize`, then the limit.
unfoldable pub next_run : ℕ → ℕ → Result OperationError ℕ
next_run code run =
    if is_combining_or_default_ignorable code
    then if leb (2 ^ 64) (run + 1) || ltb txt_max_shaping_run (run + 1)
      then err shaping_error
      else ok (run + 1)
    else ok 0

module _ (cmap_contains : ℕ → ℕ → Result (Unit {0}) Bool) where
  -- The answer of the cache, or the font's, which is kept.
  unfoldable pub look_up : Cache → ℕ → ℕ → Result OperationError (Bool × Cache)
  look_up cache font code = elim (cached cache font code) [
    | some covered ↦ ok (covered, cache)
    | none ↦ elim (cmap_contains font code) [
      | ok covered ↦ ok (covered, ((font, code), covered) ∷ cache)
      | err e ↦ err font_error
    ]
  ]

  -- The body of the loop.
  unfoldable pub check_character : Text → ℕ → ℕ → Scan → Result OperationError Scan
  check_character chars index code scan =
      if code == line_feed || code == 9 then ok (reset_run scan) else do
        refuse_class code
        script ← script_at chars index code
        (covered, cache) ← look_up scan.cmap_cache (font_index script) code
        refuse_if (not covered) unsupported_unicode
        run ← next_run code scan.shaping_run
        ok (record {
          shaping_run = run;
          used_scripts =
              if is_whitespace code
              then scan.used_scripts
              else insert_script script scan.used_scripts;
          cmap_cache = cache;
        })

  -- The loop: the characters from an index on.
  unfoldable pub check_characters : Text → ℕ → Text → Scan → Result OperationError Scan
  check_characters chars index [] scan = ok scan
  check_characters chars index (code ∷ rest) scan =
      check_character chars index code scan >>= λ next. check_characters chars (index + 1) rest next

  -- What follows the decoding.
  unfoldable pub preflight_normalized : Text → Result OperationError NormalizedText
  preflight_normalized normalized = do
    refuse_if (ltb txt_max_logical_lines (length (split_lines normalized))) line_count_limit
    refuse_if (any (λ line. ltb txt_max_line_bytes (utf8_len line)) (split_lines normalized))
        line_bytes_limit
    scan ← check_characters normalized 0 normalized new_scan
    ok (record {
      text = normalized;
      logical_lines = length (split_lines normalized);
      used_scripts = scan.used_scripts;
    })

  unfoldable pub preflight_text :
      Result OperationError (Unit {0}) → List ℕ → Result OperationError NormalizedText
  preflight_text fonts_validated raw = do
    refuse_if (ltb txt_max_raw_bytes (length raw)) size_limit
    fonts_validated
    refuse_if (starts_with_unsupported_bom raw) unsupported_bom
    decoded ← ok_or (from_utf8 (strip_bom raw)) invalid_utf8
    preflight_normalized (normalize decoded)
