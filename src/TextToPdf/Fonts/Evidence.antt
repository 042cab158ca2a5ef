-- ===== src/TextToPdf/Fonts/Evidence.antt =====
-- `Sfnt::cmap_evidence` of text_to_pdf.rs.
use document_studio.Base.{
  ℕ, zero, suc, ◌+◌, Bool, false, leb, ◌==◌, List, [], ◌∷◌, map, Option, none, some, if◌then◌else◌,
  Result, ok, err, ◌>>=◌, ok_or,
}
use document_studio.TextToPdf.Html.{checked_usize}
use document_studio.TextToPdf.Fonts.Bytes.{Failure}
use document_studio.TextToPdf.Fonts.Sfnt.{Sfnt}
use document_studio.TextToPdf.Fonts.Cmap.{cmap_records, cmap4_glyph, cmap12_code_point_count}

-- `sort_unstable`, on numbers, and `dedup`.
unfoldable pub insert_sorted : ℕ → List ℕ → List ℕ
insert_sorted n [] = n ∷ []
insert_sorted n (m ∷ ns) = let rest = insert_sorted n ns in if leb n m then n ∷ m ∷ ns else m ∷ rest

unfoldable pub sort : List ℕ → List ℕ
sort [] = []
sort (n ∷ ns) = insert_sorted n (sort ns)

unfoldable pub starts_with_number : ℕ → List ℕ → Bool
starts_with_number n [] = false
starts_with_number n (m ∷ ns) = n == m

unfoldable pub dedup : List ℕ → List ℕ
dedup [] = []
dedup (n ∷ ns) = let rest = dedup ns in if starts_with_number n rest then rest else n ∷ rest

-- `find` by the format.
unfoldable pub find_format : ℕ → List (ℕ × List ℕ) → Option (List ℕ)
find_format format [] = none
find_format format ((f, table_) ∷ records) =
    let rest = find_format format records in if f == format then some table_ else rest

-- The fold over the codes, from one on.
unfoldable pub count_codes : List ℕ → ℕ → ℕ → ℕ → Result Failure ℕ
count_codes table_ code zero total = ok total
count_codes table_ code (suc left) total = do
  glyph ← cmap4_glyph table_ code
  next ← ok_or (if glyph == 0 then some total else checked_usize (total + 1)) tt
  count_codes table_ (code + 1) left next

unfoldable pub code_points : Option (List ℕ) → Option (List ℕ) → Result Failure ℕ
code_points (some table_) _ = cmap12_code_point_count table_
code_points none (some table_) = count_codes table_ 0 65536 0
code_points none none = err tt

unfoldable pub cmap_evidence : Sfnt → Result Failure (List ℕ × ℕ)
cmap_evidence font = do
  records ← cmap_records font
  count ← code_points (find_format 12 records) (find_format 4 records)
  ok (dedup (sort (map (λ (r : ℕ × List ℕ). r.0) records)), count)
