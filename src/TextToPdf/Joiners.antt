-- ===== src/TextToPdf/Joiners.antt =====
-- `validate_joiner` of text_to_pdf.rs and its helpers.
use document_studio.Base.{
  ℕ, zero, suc, ◌+◌, ◌-◌, Bool, false, not, ◌&&◌, ◌||◌, ltb, leb, ◌==◌, [], ◌∷◌, length, take, drop,
  count_if, Option, none, some, if◌then◌else◌, Result, ok, err, ◌>>=◌, ◌>>◌, refuse_if,
}
use document_studio.Base.Text.{Text}
use document_studio.Contracts.Errors.{OperationError}
use document_studio.TextToPdf.Errors.{shaping_error}
use document_studio.TextToPdf.Characters.{
  AdmittedScript, is_shaping_base, is_joiner, joiner_cluster_member,
}
use document_studio.TextToPdf.Characters.AdmittedScript.{latin_common, devanagari, telugu}

-- `chars[index]`. Every use is at an index below the length, which the code has tested before.
unfoldable pub char_at : Text → ℕ → ℕ
char_at [] index = 0
char_at (c ∷ chars) zero = c
char_at (c ∷ chars) (suc index) = char_at chars index

unfoldable pub nukta_of : AdmittedScript → Option ℕ
nukta_of devanagari = some 0x93c
nukta_of telugu = some 0xc3c
nukta_of latin_common = none

unfoldable pub is_nukta : Option ℕ → ℕ → Bool
is_nukta none code = false
is_nukta (some nukta) code = code == nukta

unfoldable pub has_shaping_base_before_virama : Text → ℕ → AdmittedScript → Bool
has_shaping_base_before_virama chars joiner_index script =
    is_shaping_base (char_at chars (joiner_index - 2)) script
    || (is_nukta (nukta_of script) (char_at chars (joiner_index - 2))
        && (leb 3 joiner_index && is_shaping_base (char_at chars (joiner_index - 3)) script))

-- `match virama`.
unfoldable pub script_of_virama : ℕ → Result OperationError AdmittedScript
script_of_virama virama =
    if virama == 0x94d
    then ok devanagari
    else if virama == 0xc4d
    then ok telugu
    else err shaping_error

-- `while start > 0 && index - start < 16 && joiner_cluster_member(chars[start - 1], script)`.
unfoldable pub cluster_start : Text → ℕ → AdmittedScript → ℕ → ℕ
cluster_start chars index script zero = zero
cluster_start chars index script (suc start) =
    if ltb (index - suc start) 16 && joiner_cluster_member (char_at chars start) script
    then cluster_start chars index script start
    else suc start

-- `while end < chars.len() && end - index <= 16 && joiner_cluster_member(chars[end], script)`; the
-- list holds the characters from `end` on.
unfoldable pub cluster_end : Text → ℕ → AdmittedScript → ℕ → ℕ
cluster_end [] index script end_ = end_
cluster_end (c ∷ rest) index script end_ =
    if leb (end_ - index) 16 && joiner_cluster_member c script
    then cluster_end rest index script (suc end_)
    else end_

-- The tests on the cluster around the joiner.
unfoldable pub check_cluster : Text → ℕ → ℕ → ℕ → Result OperationError (Unit {0})
check_cluster chars index start end_ = do
  refuse_if (leb 16 (index - start) || ltb 16 (end_ - index)) shaping_error
  refuse_if (not (count_if is_joiner (take (end_ - start) (drop start chars)) == 1)) shaping_error

unfoldable pub validate_joiner : Text → ℕ → Result OperationError AdmittedScript
validate_joiner chars index = do
  refuse_if (ltb index 2 || leb (length chars) (index + 1)) shaping_error
  script ← script_of_virama (char_at chars (index - 1))
  refuse_if
      (not (has_shaping_base_before_virama chars index script)
        || not (is_shaping_base (char_at chars (index + 1)) script))
      shaping_error
  check_cluster chars index (cluster_start chars index script index)
      (cluster_end (drop (index + 1) chars) index script (index + 1))
  ok script
