-- ===== src/TextToPdf/Fonts/Sfnt.antt =====
-- `Sfnt` of text_to_pdf.rs: the directory of the tables, the lookup of a table, the weight and the
-- style.
use document_studio.Base.{
  ℕ, zero, suc, ◌+◌, ◌*◌, ◌/◌, ◌%◌, Bool, not, ◌||◌, ltb, leb, ◌==◌, List, [], ◌∷◌, length, map,
  Option, none, some, if◌then◌else◌, Result, ok, ◌>>=◌, ◌>>◌, refuse_if, ok_or,
}
use document_studio.Base.Text.{Text, codes, text_eq}
use document_studio.Base.Utf8.{from_utf8_lossy}
use document_studio.TextToPdf.Html.{checked_usize}
use document_studio.TextToPdf.Fonts.Bytes.{Failure, slice, read_u16, read_u32}

-- A tag is the list of its four bytes.
pub record Table : Type 0 where
  pub tag : List ℕ
  pub bytes : List ℕ

pub record Sfnt : Type 0 where
  pub tables : List Table

-- The body of the loop over the directory.
unfoldable pub parse_table : List ℕ → ℕ → Result Failure Table
parse_table bytes index = do
  offset ← read_u32 bytes (12 + index * 16 + 8)
  length_ ← read_u32 bytes (12 + index * 16 + 12)
  end_ ← ok_or (checked_usize (offset + length_)) tt
  refuse_if (ltb (length bytes) end_) tt
  ok (record {
    tag = slice (12 + index * 16) (12 + index * 16 + 4) bytes;
    bytes = slice offset end_ bytes;
  })

-- The loop, from an index on: what is left of `0..count`.
unfoldable pub parse_tables : List ℕ → ℕ → ℕ → Result Failure (List Table)
parse_tables bytes index zero = ok []
parse_tables bytes index (suc left) = do
  table ← parse_table bytes index
  tables ← parse_tables bytes (index + 1) left
  ok (table ∷ tables)

-- A header of `header` bytes and `count` records of `size` bytes, in checked arithmetic.
unfoldable pub records_end : ℕ → ℕ → ℕ → Result Failure ℕ
records_end header count size = do
  records ← ok_or (checked_usize (count * size)) tt
  ok_or (checked_usize (header + records)) tt

unfoldable pub parse : List ℕ → Result Failure Sfnt
parse bytes = do
  version ← read_u32 bytes 0
  refuse_if (not (version == 0x10000)) tt
  count ← read_u16 bytes 4
  directory_end ← records_end 12 count 16
  refuse_if (ltb (length bytes) directory_end) tt
  tables ← parse_tables bytes 0 count
  ok (record { tables = tables })

-- `find` by the tag.
unfoldable pub find_table : List Table → List ℕ → Option (List ℕ)
find_table [] tag = none
find_table (t ∷ tables) tag =
    let rest = find_table tables tag in if text_eq t.tag tag then some t.bytes else rest

unfoldable pub table : Sfnt → List ℕ → Result Failure (List ℕ)
table font tag = ok_or (find_table font.tables tag) tt

unfoldable pub table_tags : Sfnt → List Text
table_tags font = map (λ (t : Table). from_utf8_lossy t.tag) font.tables

unfoldable pub weight : Sfnt → Result Failure ℕ
weight font = table font (codes "OS/2") >>= λ os2. read_u16 os2 4

unfoldable pub selection_of : List ℕ → Result Failure ℕ
selection_of os2 = if leb 64 (length os2) then read_u16 os2 62 else ok 0

-- `head_style & 0x0003 != 0 || selection & 0x0021 != 0`.
unfoldable pub is_bold_or_italic : Sfnt → Result Failure Bool
is_bold_or_italic font = do
  head ← table font (codes "head")
  head_style ← read_u16 head 44
  os2 ← table font (codes "OS/2")
  selection ← selection_of os2
  ok (not (head_style % 4 == 0) || (not (selection % 2 == 0) || not (selection / 32 % 2 == 0)))
