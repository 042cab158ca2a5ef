-- ===== src/TextToPdf/Tests.antt =====
-- A text with two lines and a joiner, and the theorems of this component at it.
use document_studio.Base.{
  ℕ, ◌+◌, ◌≤◌, ◌==◌, ◌||◌, Bool, true, false, List, [], ◌∷◌, length, All, some, Result, ok, ◌≡◌,
  ◌↔◌, refl,
}
use document_studio.Base.Text.{Text, codes, utf8_len, starts_with, strip_prefix}
use document_studio.Base.Utf8.{start_byte, next_byte, decode_from, all_some, from_utf8}
use document_studio.Contracts.Errors.{OperationError}
use document_studio.TextToPdf.Characters.{
  AdmittedScript, is_rejected_control, is_bidi_control, is_noncharacter, admitted_script,
  font_index, is_combining_or_default_ignorable, is_shaping_base, is_joiner, joiner_cluster_member,
  is_whitespace,
}
use document_studio.TextToPdf.Joiners.{
  char_at, nukta_of, is_nukta, has_shaping_base_before_virama, script_of_virama, cluster_start,
  cluster_end, check_cluster, validate_joiner,
}
use document_studio.TextToPdf.Lines.{
  starts_with_line_feed, replace_pairs, replace_returns, normalize, push_first, split_lines,
}
use document_studio.TextToPdf.Preflight.{
  NormalizedText, starts_with_unsupported_bom, strip_bom, cached, insert_script, new_scan,
  reset_run, refuse_class, script_at, next_run, look_up, check_character, check_characters,
  preflight_normalized, preflight_text,
}
use document_studio.TextToPdf.Html.{escape, canonical_html, canonical_css, total_response_bytes}
use document_studio.TextToPdf.Admission.{IsAdmitted}
use document_studio.TextToPdf.Clusters.{IsInCluster}
use document_studio.TextToPdf.Cache.{admit_text, preflight_text_lem}
use document_studio.TextToPdf.Accepted.{preflight_text_sound, preflight_text_joiners}
use document_studio.TextToPdf.LineEnds.{LineEnd, join_lines, split_lines-normalize}
use document_studio.TextToPdf.Escaping.{unescape, unescape-escape, total_response_bytes_iff}
use document_studio.TextToPdf.Sizes.{accepted_fits}

-- A font that has every character.
abbrev every_character : ℕ → ℕ → Result (Unit {0}) Bool
every_character font code = ok true

abbrev validated : Result OperationError (Unit {0})
validated = ok tt

abbrev sample_bytes : List ℕ
sample_bytes =
    b'a' ∷ 13 ∷ 10 ∷ 0xe0 ∷ 0xa4 ∷ 0x95 ∷ 0xe0 ∷ 0xa5 ∷ 0x8d ∷ 0xe2 ∷ 0x80 ∷ 0x8d ∷ 0xe0 ∷ 0xa4
    ∷ 0xb7 ∷ []

abbrev sample_text : Text
sample_text = b'a' ∷ 10 ∷ 0x915 ∷ 0x94d ∷ 0x200d ∷ 0x937 ∷ []

abbrev sample : NormalizedText
sample = record {
  text = sample_text;
  logical_lines = 2;
  used_scripts = insert_script AdmittedScript.devanagari (
      insert_script AdmittedScript.devanagari (
        insert_script AdmittedScript.devanagari (
          insert_script AdmittedScript.devanagari
            (insert_script AdmittedScript.latin_common (λ script. false)))));
}

sample_accepted : preflight_text every_character validated sample_bytes ≡ ok sample
unfolding start_byte next_byte decode_from all_some from_utf8 is_rejected_control is_bidi_control
    is_noncharacter admitted_script font_index is_combining_or_default_ignorable is_shaping_base
    is_joiner joiner_cluster_member is_whitespace char_at nukta_of is_nukta
    has_shaping_base_before_virama script_of_virama cluster_start cluster_end check_cluster
    validate_joiner starts_with_line_feed replace_pairs replace_returns normalize push_first
    split_lines utf8_len starts_with strip_prefix starts_with_unsupported_bom strip_bom cached
    new_scan reset_run refuse_class script_at next_run look_up check_character check_characters
    preflight_normalized preflight_text
sample_accepted = refl

preflight_text_sound_example :
    (validated ≡ ok tt)
    × (length sample_bytes ≤ 8388608)
    × (starts_with_unsupported_bom sample_bytes ≡ false)
    × ((decoded : Text) × (from_utf8 (strip_bom sample_bytes) ≡ some decoded)
        × (sample_text ≡ normalize decoded))
    × (2 ≡ length (split_lines sample_text))
    × (2 ≤ 100000)
    × All (λ line. utf8_len line ≤ 65536) (split_lines sample_text)
    × All (IsAdmitted every_character) sample_text
preflight_text_sound_example =
    preflight_text_sound every_character validated sample_bytes sample sample_accepted

preflight_text_joiners_example : IsInCluster sample_text 4
unfolding is_joiner
preflight_text_joiners_example =
    preflight_text_joiners every_character validated sample_bytes sample sample_accepted
      (b'a' ∷ 10 ∷ 0x915 ∷ 0x94d ∷ []) 0x200d (0x937 ∷ []) refl refl

preflight_text_lem_example :
    preflight_text every_character validated sample_bytes
    ≡ admit_text every_character validated sample_bytes
preflight_text_lem_example = preflight_text_lem every_character validated sample_bytes

split_lines-normalize_example :
    split_lines (normalize (join_lines LineEnd.crlf (codes "one") (codes "" ∷ codes "three" ∷ [])))
    ≡ codes "one" ∷ codes "" ∷ codes "three" ∷ []
split_lines-normalize_example =
    split_lines-normalize LineEnd.crlf (codes "one") (codes "" ∷ codes "three" ∷ [])
      (refl, (refl, (refl, tt))) (tt, ((refl, (refl, (refl, (refl, (refl, tt))))), tt))

unescape-escape_example :
    All (λ c. (c == b'<' || c == b'>') ≡ false) (escape (codes "a<b&amp;c>"))
    × (unescape 0 (escape (codes "a<b&amp;c>")) ≡ codes "a<b&amp;c>")
unescape-escape_example = unescape-escape (codes "a<b&amp;c>")

total_response_bytes_iff_example :
    (total_response_bytes 600 700 ≡ ok 1102332)
    ↔ ((1102332 ≡ 600 + 700 + 1101032) × (1102332 ≤ 44158184))
total_response_bytes_iff_example = total_response_bytes_iff 600 700 1102332

accepted_fits_example :
    (html : List ℕ) × (style : List ℕ) × (total : ℕ) × (canonical_html true sample_text ≡ ok html)
    × (canonical_css ≡ ok style)
    × (total_response_bytes (length html) (length style) ≡ ok total)
    × (total ≤ 44158184)
accepted_fits_example = accepted_fits every_character validated sample_bytes sample sample_accepted
