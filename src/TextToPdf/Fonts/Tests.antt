-- ===== src/TextToPdf/Fonts/Tests.antt =====
-- A font file with one table, a character map with two groups, and the theorems at them.
use document_studio.Base.{ℕ, ◌≤◌, List, [], ◌∷◌, ok, ◌≡◌, refl, arith}
use document_studio.Base.Text.{codes}
use document_studio.TextToPdf.Fonts.Bytes.{get_range, u16_of, u32_of, read_u16, read_u32}
use document_studio.TextToPdf.Fonts.Sfnt.{Sfnt, parse_table, parse_tables, records_end, parse}
use document_studio.TextToPdf.Fonts.Cmap.{group_count, cmap12_glyph}
use document_studio.TextToPdf.Fonts.Tables.{Entries, parse_sound}
use document_studio.TextToPdf.Fonts.Groups.{Group, find_group, glyph_for, cmap12_glyph_lem}

abbrev font_file : List ℕ
font_file =
    0 ∷ 1 ∷ 0 ∷ 0 ∷ 0 ∷ 1 ∷ 0 ∷ 0 ∷ 0 ∷ 0 ∷ 0 ∷ 0 ∷ b'h' ∷ b'e' ∷ b'a' ∷ b'd' ∷ 0 ∷ 0 ∷ 0 ∷ 0 ∷ 0
    ∷ 0 ∷ 0 ∷ 28 ∷ 0 ∷ 0 ∷ 0 ∷ 3 ∷ 7 ∷ 8 ∷ 9 ∷ []

abbrev font : Sfnt
font = record { tables = record { tag = codes "head"; bytes = 7 ∷ 8 ∷ 9 ∷ [] } ∷ [] }

font_parsed : parse font_file ≡ ok font
unfolding get_range u16_of u32_of read_u16 read_u32 parse_table parse_tables records_end parse
font_parsed = refl

parse_sound_example :
    (read_u32 font_file 0 ≡ ok 0x10000)
    × (read_u16 font_file 4 ≡ ok 1)
    × (28 ≤ 31)
    × Entries font_file 0 font.tables
parse_sound_example = parse_sound font_file font font_parsed

abbrev capitals : Group
capitals = record { first = 0x41; last = 0x5a; glyph = 3 }

abbrev small_letters : Group
small_letters = record { first = 0x61; last = 0x7a; glyph = 29 }

abbrev map_12 : List ℕ
map_12 =
    0 ∷ 12 ∷ 0 ∷ 0 ∷ 0 ∷ 0 ∷ 0 ∷ 40 ∷ 0 ∷ 0 ∷ 0 ∷ 0 ∷ 0 ∷ 0 ∷ 0 ∷ 2 ∷ 0 ∷ 0 ∷ 0 ∷ 0x41 ∷ 0 ∷ 0 ∷ 0
    ∷ 0x5a ∷ 0 ∷ 0 ∷ 0 ∷ 3 ∷ 0 ∷ 0 ∷ 0 ∷ 0x61 ∷ 0 ∷ 0 ∷ 0 ∷ 0x7a ∷ 0 ∷ 0 ∷ 0 ∷ 29 ∷ []

cmap12_glyph_lem_example :
    cmap12_glyph map_12 b'c' ≡ glyph_for b'c' (find_group b'c' (capitals ∷ small_letters ∷ []))
unfolding get_range u16_of u32_of read_u16 read_u32 records_end group_count
cmap12_glyph_lem_example =
    cmap12_glyph_lem map_12 (capitals ∷ small_letters ∷ []) b'c' refl
      (refl, refl, refl, (refl, refl, refl, tt))
      (omega arith, ((omega arith), tt), (omega arith, tt, tt))
