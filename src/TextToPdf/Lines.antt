-- ===== src/TextToPdf/Lines.antt =====
-- The line ends of `preflight_text` of text_to_pdf.rs.
use document_studio.Base.{ℕ, Bool, false, ◌&&◌, ◌==◌, List, [], ◌∷◌, if◌then◌else◌}
use document_studio.Base.Text.{Text}

abbrev pub carriage_return : ℕ
carriage_return = 13

abbrev pub line_feed : ℕ
line_feed = 10

unfoldable pub starts_with_line_feed : Text → Bool
starts_with_line_feed [] = false
starts_with_line_feed (c ∷ s) = c == line_feed

-- `replace("\r\n", "\n")`: the first character of a pair goes, the second stays.
unfoldable pub replace_pairs : Text → Text
replace_pairs [] = []
replace_pairs (c ∷ s) =
    let rest = replace_pairs s in
    if (c == carriage_return) && starts_with_line_feed s then rest else c ∷ rest

-- `replace('\r', "\n")`.
unfoldable pub replace_returns : Text → Text
replace_returns [] = []
replace_returns (c ∷ s) = (if c == carriage_return then line_feed else c) ∷ replace_returns s

unfoldable pub normalize : Text → Text
normalize decoded = replace_returns (replace_pairs decoded)

-- `split('\n')`.
unfoldable pub push_first : ℕ → List Text → List Text
push_first c [] = (c ∷ []) ∷ []
push_first c (line ∷ lines) = (c ∷ line) ∷ lines

unfoldable pub split_lines : Text → List Text
split_lines [] = [] ∷ []
split_lines (c ∷ s) =
    let lines = split_lines s in if c == line_feed then [] ∷ lines else push_first c lines
