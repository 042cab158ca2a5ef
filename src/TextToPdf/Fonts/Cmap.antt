-- ===== src/TextToPdf/Fonts/Cmap.antt =====
-- The character maps of text_to_pdf.rs: `cmap_records`, the two formats, `cmap_contains` and
-- `cmap_evidence`.
use document_studio.Base.{
  ℕ, zero, suc, ◌+◌, ◌-◌, ◌*◌, ◌/◌, ◌%◌, ◌^◌, Bool, true, false, not, ◌&&◌, ◌||◌, ltb, leb, ◌==◌,
  List, [], ◌∷◌, length, is_empty, Option, none, some, if◌then◌else◌, Result, ok, err, ◌>>=◌, ◌>>◌,
  refuse_if, ok_or,
}
use document_studio.Base.Text.{codes}
use document_studio.TextToPdf.Html.{checked_usize}
use document_studio.TextToPdf.Fonts.Bytes.{Failure, slice, read_u16, read_u32}
use document_studio.TextToPdf.Fonts.Sfnt.{Sfnt, table, records_end}

-- `checked_add` of `u32`, and `wrapping_add` of `u16`.
abbrev pub checked_u32 : ℕ → Option ℕ
checked_u32 n = if ltb n (2 ^ 32) then some n else none

abbrev pub wrapping_u16 : ℕ → ℕ
wrapping_u16 n = n % 2 ^ 16

-- The length of a map of a known format, which the map itself holds.
unfoldable pub format_length : List ℕ → ℕ → ℕ → Result Failure (Option ℕ)
format_length cmap offset format =
    if format == 4
    then (read_u16 cmap (offset + 2) >>= λ n. ok (some n))
    else if format == 12
    then (read_u32 cmap (offset + 4) >>= λ n. ok (some n))
    else ok none

unfoldable pub sized_record : List ℕ → ℕ → ℕ → Option ℕ → Result Failure (Option (ℕ × List ℕ))
sized_record cmap offset format none = ok none
sized_record cmap offset format (some length_) = do
  end_ ← ok_or (checked_usize (offset + length_)) tt
  refuse_if (ltb (length cmap) end_) tt
  ok (some (format, slice offset end_ cmap))

-- A Windows record for Unicode.
unfoldable pub windows_record : List ℕ → ℕ → Result Failure (Option (ℕ × List ℕ))
windows_record cmap record_ = do
  offset ← read_u32 cmap (record_ + 4)
  format ← read_u16 cmap offset
  length_ ← format_length cmap offset format
  sized_record cmap offset format length_

-- The body of the loop: a format and its bytes, or nothing after `continue`.
unfoldable pub cmap_record : List ℕ → ℕ → Result Failure (Option (ℕ × List ℕ))
cmap_record cmap record_ = do
  platform ← read_u16 cmap record_
  encoding ← read_u16 cmap (record_ + 2)
  (if not (platform == 3) || not (encoding == 1 || encoding == 10)
      then ok none
      else windows_record cmap record_)

unfoldable pub push_some : Option (ℕ × List ℕ) → List (ℕ × List ℕ) → List (ℕ × List ℕ)
push_some none records = records
push_some (some r) records = r ∷ records

unfoldable pub records_from : List ℕ → ℕ → ℕ → Result Failure (List (ℕ × List ℕ))
records_from cmap index zero = ok []
records_from cmap index (suc left) = do
  found ← cmap_record cmap (4 + index * 8)
  rest ← records_from cmap (index + 1) left
  ok (push_some found rest)

unfoldable pub cmap_records : Sfnt → Result Failure (List (ℕ × List ℕ))
cmap_records font = do
  cmap ← table font (codes "cmap")
  version ← read_u16 cmap 0
  refuse_if (not (version == 0)) tt
  count ← read_u16 cmap 2
  end_ ← records_end 4 count 8
  refuse_if (ltb (length cmap) end_) tt
  records ← records_from cmap 0 count
  refuse_if (is_empty records) tt
  ok records

-- A glyph from the array behind the segments; the address is the sum of four checked additions.
unfoldable pub indexed_glyph : List ℕ → ℕ → ℕ → Result Failure ℕ
indexed_glyph table_ sum delta = do
  address ← ok_or (checked_usize sum) tt
  glyph ← read_u16 table_ address
  ok (if glyph == 0 then 0 else wrapping_u16 (glyph + delta))

-- The glyph of a segment that begins at or before the code.
unfoldable pub segment_glyph : List ℕ → ℕ → ℕ → ℕ → ℕ → ℕ → Result Failure ℕ
segment_glyph table_ deltas offsets index code start = do
  delta ← read_u16 table_ (deltas + index * 2)
  range_offset ← read_u16 table_ (offsets + index * 2)
  (if range_offset == 0
      then ok (wrapping_u16 (code + delta))
      else indexed_glyph table_ (offsets + index * 2 + range_offset + (code - start) * 2) delta)

-- The loop over the segments: the first one that ends at or after the code decides.
unfoldable pub segments_from : List ℕ → ℕ → ℕ → ℕ → ℕ → ℕ → Result Failure ℕ
segments_from table_ segment_count code index zero start_codes = ok 0
segments_from table_ segment_count code index (suc left) start_codes =
    read_u16 table_ (14 + index * 2) >>= λ end_. elim (ltb end_ code) [
      | true ↦ segments_from table_ segment_count code (index + 1) left start_codes
      | false ↦ read_u16 table_ (start_codes + index * 2) >>= λ start.
          if ltb code start
          then ok 0
          else segment_glyph table_ (start_codes + segment_count * 2)
              (start_codes + segment_count * 2 + segment_count * 2) index code start
    ]

unfoldable pub cmap4_glyph : List ℕ → ℕ → Result Failure ℕ
cmap4_glyph table_ code = do
  doubled ← read_u16 table_ 6
  end_ ←
      ok_or
        (checked_usize
          (14 + doubled / 2 * 2 + 2 + doubled / 2 * 2 + doubled / 2 * 2 + doubled / 2 * 2))
        tt
  refuse_if (ltb (length table_) end_) tt
  segments_from table_ (doubled / 2) code 0 (doubled / 2) (14 + doubled / 2 * 2 + 2)

-- The glyph in a group that contains the code: `checked_add`, then `u16::try_from`.
unfoldable pub group_glyph : List ℕ → ℕ → ℕ → ℕ → Result Failure ℕ
group_glyph table_ offset code start = do
  first ← read_u32 table_ (offset + 8)
  glyph ← ok_or (checked_u32 (first + (code - start))) tt
  (if ltb glyph (2 ^ 16) then ok glyph else err tt)

unfoldable pub groups_from : List ℕ → ℕ → ℕ → ℕ → Result Failure ℕ
groups_from table_ code index zero = ok 0
groups_from table_ code index (suc left) = read_u32 table_ (16 + index * 12) >>= λ start.
    read_u32 table_ (16 + index * 12 + 4) >>= λ end_. elim (ltb code start) [
      | true ↦ ok 0
      | false ↦ elim (leb code end_) [
        | true ↦ group_glyph table_ (16 + index * 12) code start
        | false ↦ groups_from table_ code (index + 1) left
      ]
    ]

-- The number of groups, when the table holds them all.
unfoldable pub group_count : List ℕ → Result Failure ℕ
group_count table_ = do
  groups ← read_u32 table_ 12
  end_ ← records_end 16 groups 12
  refuse_if (ltb (length table_) end_) tt
  ok groups

unfoldable pub cmap12_glyph : List ℕ → ℕ → Result Failure ℕ
cmap12_glyph table_ code = group_count table_ >>= λ groups. groups_from table_ code 0 groups

unfoldable pub count_groups : List ℕ → ℕ → ℕ → ℕ → Result Failure ℕ
count_groups table_ index zero total = ok total
count_groups table_ index (suc left) total = do
  start ← read_u32 table_ (16 + index * 12)
  end_ ← read_u32 table_ (16 + index * 12 + 4)
  refuse_if (ltb end_ start || ltb 0x10ffff end_) tt
  next ← ok_or (checked_usize (total + (end_ - start + 1))) tt
  count_groups table_ (index + 1) left next

unfoldable pub cmap12_code_point_count : List ℕ → Result Failure ℕ
cmap12_code_point_count table_ = group_count table_ >>= λ groups. count_groups table_ 0 groups 0

unfoldable pub glyph_in : ℕ → List ℕ → ℕ → Result Failure ℕ
glyph_in format table_ code =
    if (format == 4) && leb code 0xffff
    then cmap4_glyph table_ code
    else if format == 12
    then cmap12_glyph table_ code
    else ok 0

unfoldable pub any_contains : List (ℕ × List ℕ) → ℕ → Result Failure Bool
any_contains [] code = ok false
any_contains ((format, table_) ∷ records) code = glyph_in format table_ code >>= λ glyph.
    elim (glyph == 0) [ true ↦ any_contains records code | false ↦ ok true ]

unfoldable pub cmap_contains : Sfnt → ℕ → Result Failure Bool
cmap_contains font code = cmap_records font >>= λ records. any_contains records code
