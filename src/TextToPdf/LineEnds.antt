-- ===== src/TextToPdf/LineEnds.antt =====
-- The normalization of line ends of text_to_pdf.rs: all three kinds become one.
use document_studio.Base.{
  ℕ, false, ◌||◌, ◌==◌, List, [], ◌∷◌, ◌++◌, All, arith, ◌≡◌, refl, sym, ap, subst, ◌∙◌,
}
use document_studio.Base.Text.{Text}
use document_studio.TextToPdf.Lines.{
  carriage_return, line_feed, starts_with_line_feed, replace_pairs, replace_returns, normalize,
  push_first, split_lines,
}

pub data LineEnd : Type 0 where
  lf cr crlf : LineEnd

abbrev pub line_end : LineEnd → Text
line_end LineEnd.lf = line_feed ∷ []
line_end LineEnd.cr = carriage_return ∷ []
line_end LineEnd.crlf = carriage_return ∷ line_feed ∷ []

-- The lines with an end between each two.
unfoldable pub join_lines : LineEnd → Text → List Text → Text
join_lines e line [] = line
join_lines e line (next ∷ lines) = line ++ (line_end e ++ join_lines e next lines)

abbrev pub IsPlain : Text → Type 0
IsPlain = All (λ c. (c == carriage_return || c == line_feed) ≡ false)

normalize_other :
    (c : ℕ) (s : Text) → (c == carriage_return) ≡ false → normalize (c ∷ s) ≡ c ∷ normalize s
unfolding normalize replace_pairs replace_returns
normalize_other c s other = rw other (rw other refl)

normalize-append :
    (line rest : Text) → IsPlain line → normalize (line ++ rest) ≡ line ++ normalize rest
normalize-append [] rest plain = refl
normalize-append (c ∷ line) rest plain =
    normalize_other c (line ++ rest) (ground arith)
    ∙ ap (λ t. c ∷ t) (normalize-append line rest (plain.1))

normalize_plain : (line : Text) → IsPlain line → normalize line ≡ line
unfolding normalize replace_pairs replace_returns
normalize_plain [] plain = refl
normalize_plain (c ∷ line) plain =
    normalize_other c line (ground arith) ∙ ap (λ t. c ∷ t) (normalize_plain line (plain.1))

normalize-line_end :
    (e : LineEnd) (rest : Text)
    → (e ≡ LineEnd.cr → starts_with_line_feed rest ≡ false)
    → normalize (line_end e ++ rest) ≡ line_feed ∷ normalize rest
unfolding normalize replace_pairs replace_returns starts_with_line_feed
normalize-line_end LineEnd.lf rest h = refl
normalize-line_end LineEnd.cr rest h = rw (h refl)
normalize-line_end LineEnd.crlf rest h = refl

starts_plain :
    (line : Text) (lines : List Text)
    → IsPlain line
    → starts_with_line_feed (join_lines LineEnd.cr line lines) ≡ false
unfolding join_lines starts_with_line_feed
starts_plain [] [] plain = refl
starts_plain [] (next ∷ lines) plain = refl
starts_plain (c ∷ line) [] plain = ground arith
starts_plain (c ∷ line) (next ∷ lines) plain = ground arith

split_plain : (line : Text) → IsPlain line → split_lines line ≡ line ∷ []
unfolding split_lines push_first
split_plain [] plain = refl
split_plain (c ∷ line) plain =
    let other : (c == line_feed) ≡ false = ground arith in rw (other, split_plain line (plain.1))

split_lines-append :
    (line rest : Text)
    → IsPlain line
    → split_lines (line ++ line_feed ∷ rest) ≡ line ∷ split_lines rest
unfolding split_lines push_first
split_lines-append [] rest plain = refl
split_lines-append (c ∷ line) rest plain =
    let other : (c == line_feed) ≡ false = ground arith in
    rw (other, split_lines-append line rest (plain.1))

-- Lines that hold no carriage return and no line feed come back from the text that joins them,
-- normalized and split, whichever of the three line ends joined them.
pub split_lines-normalize :
    (e : LineEnd) (line : Text) (lines : List Text)
    → IsPlain line
    → All IsPlain lines
    → split_lines (normalize (join_lines e line lines)) ≡ line ∷ lines
unfolding join_lines
split_lines-normalize e line [] plain plains =
    ap split_lines (normalize_plain line plain) ∙ split_plain line plain
split_lines-normalize e line (next ∷ lines) plain plains =
    let after = join_lines e next lines in
    ap split_lines (
      normalize-append line (line_end e ++ after) plain
      ∙ ap (λ t. line ++ t)
          (normalize-line_end e after (λ same.
            subst (λ k. starts_with_line_feed (join_lines k next lines) ≡ false) (sym same)
              (starts_plain next lines (plains.0)))))
    ∙ split_lines-append line (normalize after) plain
    ∙ ap (λ ls. line ∷ ls) (split_lines-normalize e next lines (plains.0) (plains.1))
