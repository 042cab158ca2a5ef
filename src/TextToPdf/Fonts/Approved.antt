-- ===== src/TextToPdf/Fonts/Approved.antt =====
-- `validate_font` and `validate_approved_fonts` of text_to_pdf.rs, and the whole preflight over the
-- packaged fonts. The bytes of the fonts are files of the repository, and SHA-256 is a library's:
-- both are parameters.
use document_studio.Base.{
  ℕ, ◌+◌, String, Bool, false, not, ◌||◌, ◌==◌, List, [], ◌∷◌, length, any, all, is_empty,
  get_elem?, Option, none, some, str_eq, Result, ok, err, ◌>>=◌, ◌>>◌, refuse_if, ok_or, map_err,
}
use document_studio.Base.Text.{Text, codes, text_eq}
use document_studio.Contracts.Errors.{OperationError}
use document_studio.TextToPdf.Errors.{font_error, txt_approved_font_bytes}
use document_studio.TextToPdf.Html.{checked_usize}
use document_studio.TextToPdf.Preflight.{NormalizedText, preflight_text}
use document_studio.TextToPdf.Fonts.Bytes.{Failure}
use document_studio.TextToPdf.Fonts.Sfnt.{Sfnt, parse, table_tags, weight, is_bold_or_italic}
use document_studio.TextToPdf.Fonts.Names.{name}
use document_studio.TextToPdf.Fonts.Cmap.{cmap_contains}
use document_studio.TextToPdf.Fonts.Evidence.{cmap_evidence}

pub record FontEvidence : Type 0 where
  pub family : Text
  pub style : Text
  pub full_name : Text
  pub version : Text
  pub postscript_name : Text
  pub copyright : Text
  pub weight : ℕ
  pub table_tags : List Text
  pub cmap_formats : List ℕ
  pub cmap_code_points : ℕ

pub record ApprovedFont : Type 0 where
  pub bytes : List ℕ
  pub expected_bytes : ℕ
  pub expected_sha256 : String
  pub expected_family : String
  pub expected_full_name : String
  pub expected_postscript_name : String
  pub expected_version : String

-- `APPROVED_FONTS`, with the bytes of the three files.
unfoldable pub approved_fonts : List ℕ → List ℕ → List ℕ → List ApprovedFont
approved_fonts noto_sans_bytes noto_devanagari_bytes noto_telugu_bytes =
    record {
      bytes = noto_sans_bytes;
      expected_bytes = 621572;
      expected_sha256 = "478c558ea716033cd60c03438f628dfa75694dcf6b5f6d505a2f05fd2b4f3823";
      expected_family = "Noto Sans";
      expected_full_name = "Noto Sans Regular";
      expected_postscript_name = "NotoSans-Regular";
      expected_version = "Version 2.015; ttfautohint (v1.8.4.7-5d5b)";
    }
    ∷ record {
      bytes = noto_devanagari_bytes;
      expected_bytes = 244284;
      expected_sha256 = "306b53ecfb182a504dd8a7446093c316387d2fd8dc350d0792ed1753fe0996cd";
      expected_family = "Noto Sans Devanagari";
      expected_full_name = "Noto Sans Devanagari Regular";
      expected_postscript_name = "NotoSansDevanagari-Regular";
      expected_version = "Version 2.006; ttfautohint (v1.8.4.7-5d5b)";
    }
    ∷ record {
      bytes = noto_telugu_bytes;
      expected_bytes = 235176;
      expected_sha256 = "b274780b69d1d23fe84b55e809a152cb2ac5306d33864b1f87622f6971871aae";
      expected_family = "Noto Sans Telugu";
      expected_full_name = "Noto Sans Telugu Regular";
      expected_postscript_name = "NotoSansTelugu-Regular";
      expected_version = "Version 2.005; ttfautohint (v1.8.4.7-5d5b)";
    }
    ∷ []

abbrev pub required_tables : List String
required_tables =
    "OS/2" ∷ "cmap" ∷ "glyf" ∷ "head" ∷ "hhea" ∷ "hmtx" ∷ "loca" ∷ "maxp" ∷ "name" ∷ "post" ∷ []

unfoldable pub has_tag : List Text → String → Bool
has_tag tags tag = any (λ t. text_eq t (codes tag)) tags

-- `map_err(|_| font_error())`.
unfoldable pub or_font_error : {A : Type 0} → Result Failure A → Result OperationError A
or_font_error r = map_err (λ _. font_error) r

-- The tests on the names, the weight and the style.
unfoldable pub is_other_font :
    ApprovedFont → Text → Text → Text → Text → Text → Text → ℕ → Bool → Bool
is_other_font approved family style full_name version postscript_name copyright weight_ slanted =
    not (text_eq family (codes approved.expected_family))
    || (not (text_eq style (codes "Regular"))
        || (not (text_eq full_name (codes approved.expected_full_name))
            || (not (text_eq version (codes approved.expected_version))
                || (not (text_eq postscript_name (codes approved.expected_postscript_name))
                    || (is_empty copyright || (not (weight_ == 400) || slanted))))))

-- The `try_fold` over the sizes.
unfoldable pub total_bytes : List ApprovedFont → ℕ → Option ℕ
total_bytes [] total = some total
total_bytes (font ∷ fonts) total = elim (checked_usize (total + length font.bytes)) [
  | none ↦ none
  | some next ↦ total_bytes fonts next
]

unfoldable pub is_total : Option ℕ → Bool
is_total none = false
is_total (some total) = total == txt_approved_font_bytes

-- `parsed_fonts`.
unfoldable pub parse_each : List ApprovedFont → Result OperationError (List Sfnt)
parse_each [] = ok []
parse_each (font ∷ fonts) = do
  parsed ← or_font_error (parse font.bytes)
  rest ← parse_each fonts
  ok (parsed ∷ rest)

-- `parsed_fonts[font_index].cmap_contains(code)`; there are three fonts and three indexes.
unfoldable pub ask : List Sfnt → ℕ → ℕ → Result Failure Bool
ask parsed_fonts index code =
    ok_or (get_elem? parsed_fonts index) tt >>= λ font. cmap_contains font code

module _ (sha256_hex : List ℕ → String) where
  unfoldable pub validate_font : ApprovedFont → Result OperationError FontEvidence
  validate_font approved = do
    refuse_if
        (not (length approved.bytes == approved.expected_bytes)
          || not (str_eq (sha256_hex approved.bytes) approved.expected_sha256))
        font_error
    font ← or_font_error (parse approved.bytes)
    refuse_if (not (all (has_tag (table_tags font)) required_tables)) font_error
    refuse_if (has_tag (table_tags font) "fvar") font_error
    family ← or_font_error (name font 1)
    style ← or_font_error (name font 2)
    full_name ← or_font_error (name font 4)
    version ← or_font_error (name font 5)
    postscript_name ← or_font_error (name font 6)
    copyright ← or_font_error (name font 0)
    weight_ ← or_font_error (weight font)
    slanted ← or_font_error (is_bold_or_italic font)
    refuse_if
        (is_other_font approved family style full_name version postscript_name copyright weight_
          slanted)
        font_error
    (cmap_formats, cmap_code_points) ← or_font_error (cmap_evidence font)
    ok (record {
      family = family;
      style = style;
      full_name = full_name;
      version = version;
      postscript_name = postscript_name;
      copyright = copyright;
      weight = weight_;
      table_tags = table_tags font;
      cmap_formats = cmap_formats;
      cmap_code_points = cmap_code_points;
    })

  -- `map(…).collect()` into a `Result`.
  unfoldable pub validate_each : List ApprovedFont → Result OperationError (List FontEvidence)
  validate_each [] = ok []
  validate_each (font ∷ fonts) = do
    evidence ← validate_font font
    rest ← validate_each fonts
    ok (evidence ∷ rest)

  unfoldable pub validate_approved_fonts :
      List ApprovedFont → Result OperationError (List FontEvidence)
  validate_approved_fonts fonts = do
    refuse_if (not (is_total (total_bytes fonts 0))) font_error
    validate_each fonts

  -- The fonts are validated, then parsed.
  unfoldable pub prepare_fonts : List ApprovedFont → Result OperationError (List Sfnt)
  prepare_fonts fonts = validate_approved_fonts fonts >>= λ evidence. parse_each fonts

  -- `preflight_text` over the packaged fonts.
  unfoldable pub preflight_packaged :
      List ApprovedFont → List ℕ → Result OperationError NormalizedText
  preflight_packaged fonts raw = elim (prepare_fonts fonts) [
    | ok parsed_fonts ↦ preflight_text (ask parsed_fonts) (ok tt) raw
    | err e ↦ preflight_text (λ index code. err tt) (err e) raw
  ]
