-- ===== src/TextToPdf/Fonts/Tables.antt =====
-- `Sfnt::parse` of text_to_pdf.rs and the directory of the tables.
use document_studio.Base.{
  ℕ, zero, suc, ◌+◌, ◌-◌, ◌*◌, ◌≤◌, not, ltb, ◌==◌, List, [], ◌∷◌, length, take, drop, length-drop,
  length-take, some, ok, ok_or, >>=-eq-ok, refused_not, ok_or-eq-ok, ok-injective, arith, ◌≡◌, refl,
  sym, ap, subst, ◌∙◌,
}
use document_studio.TextToPdf.Html.{checked_usize}
use document_studio.TextToPdf.Fonts.Bytes.{slice, read_u16, read_u32}
use document_studio.TextToPdf.Fonts.Sfnt.{
  Table, Sfnt, parse_table, parse_tables, records_end, parse,
}

-- The entry of the directory with an index describes the table: its tag, and where its bytes stand
-- in the file, one after the other and as many as the entry says.
abbrev pub IsEntry : List ℕ → ℕ → Table → Type 0
IsEntry file index t =
    (offset : ℕ) × (read_u32 file (12 + index * 16 + 8) ≡ ok offset)
    × (read_u32 file (12 + index * 16 + 12) ≡ ok (length t.bytes))
    × (offset + length t.bytes ≤ length file)
    × (t.bytes ≡ take (length t.bytes) (drop offset file))
    × (t.tag ≡ take 4 (drop (12 + index * 16) file))
    × (length t.tag ≡ 4)

-- The entries from an index on describe the tables, in their order.
abbrev pub Entries : List ℕ → ℕ → List Table → Type 0
Entries file index [] = Unit {0}
Entries file index (t ∷ ts) = IsEntry file index t × Entries file (index + 1) ts

length-slice :
    (start end_ : ℕ) (bytes : List ℕ)
    → start ≤ end_
    → end_ ≤ length bytes
    → length (slice start end_ bytes) ≡ end_ - start
length-slice start end_ bytes a b =
    length-take (end_ - start) (drop start bytes) (omega (arith, a, b, length-drop start bytes))

pub checked_sum : (n m : ℕ) → checked_usize n ≡ some m → n ≡ m
checked_sum n m h = ground arith

parse_table_sound :
    (bytes : List ℕ) (index : ℕ) (t : Table)
    → 12 + index * 16 + 16 ≤ length bytes
    → parse_table bytes index ≡ ok t
    → IsEntry bytes index t
unfolding parse_table
parse_table_sound bytes index t room h =
    let (offset, at, h1) = >>=-eq-ok (read_u32 bytes (12 + index * 16 + 8)) _ h in
    let (size, sized, h2) = >>=-eq-ok (read_u32 bytes (12 + index * 16 + 12)) _ h1 in
    let (end_, checked, h3) = >>=-eq-ok (ok_or (checked_usize (offset + size)) tt) _ h2 in
    let (inside, h4) = refused_not (ltb (length bytes) end_) _ _ h3 in
    let same = ok-injective h4 in
    let sum =
      checked_sum (offset + size) end_ (ok_or-eq-ok (checked_usize (offset + size)) tt checked) in
    let whole : length (slice offset end_ bytes) ≡ size =
      length-slice offset end_ bytes (omega (arith, sum)) (ground arith) ∙ omega (arith, sum) in
    let four : (12 + index * 16 + 4) - (12 + index * 16) ≡ 4 = omega arith in
    subst (IsEntry bytes index) same (
      offset,
      at,
      sized ∙ ap ok (sym whole),
      ground (arith, whole, sum),
      ap (λ n. take n (drop offset bytes)) (omega (arith, whole, sum)),
      ap (λ n. take n (drop (12 + index * 16) bytes)) four,
      length-slice (12 + index * 16) (12 + index * 16 + 4) bytes (omega arith) (omega (arith, room))
          ∙ four,
    )

parse_tables_sound :
    (bytes : List ℕ) (index left : ℕ) (ts : List Table)
    → 12 + (index + left) * 16 ≤ length bytes
    → parse_tables bytes index left ≡ ok ts
    → Entries bytes index ts × (length ts ≡ left)
unfolding parse_tables
parse_tables_sound bytes index zero ts room h =
    let same = ok-injective h in
    subst (λ ts. Entries bytes index ts × (length ts ≡ 0)) same (tt, refl)
parse_tables_sound bytes index (suc left) ts room h =
    let (t, parsed, h1) = >>=-eq-ok (parse_table bytes index) _ h in
    let (rest, others, h2) = >>=-eq-ok (parse_tables bytes (index + 1) left) _ h1 in
    let same = ok-injective h2 in
    let first = parse_table_sound bytes index t (omega (arith, room)) parsed in
    let more = parse_tables_sound bytes (index + 1) left rest (omega (arith, room)) others in
    subst (λ ts. Entries bytes index ts × (length ts ≡ suc left)) same
      ((first, more.0), ap suc (more.1))

records_end_sound :
    (header count size end_ : ℕ)
    → records_end header count size ≡ ok end_
    → end_ ≡ header + count * size
unfolding records_end
records_end_sound header count size end_ h =
    let (records, first, second) = >>=-eq-ok (ok_or (checked_usize (count * size)) tt) _ h in
    let a =
      checked_sum (count * size) records (ok_or-eq-ok (checked_usize (count * size)) tt first) in
    let b =
      checked_sum (header + records) end_
        (ok_or-eq-ok (checked_usize (header + records)) tt second) in
    omega (arith, a, b)

-- A font file that is parsed begins with the version 0x10000 and has as many tables as its header
-- says, with the whole directory inside the file. Table by table, in the order of the directory, the
-- tag is the four bytes of the entry, and the bytes are those from the entry's offset on, exactly as
-- many as the entry's length, all of them inside the file.
pub parse_sound :
    (bytes : List ℕ) (font : Sfnt)
    → parse bytes ≡ ok font
    → (read_u32 bytes 0 ≡ ok 0x10000)
      × (read_u16 bytes 4 ≡ ok (length font.tables))
      × (12 + length font.tables * 16 ≤ length bytes)
      × Entries bytes 0 font.tables
unfolding parse
parse_sound bytes font h =
    let (version, magic, h1) = >>=-eq-ok (read_u32 bytes 0) _ h in
    let (same_version, h2) = refused_not (not (version == 0x10000)) _ _ h1 in
    let (count, counted, h3) = >>=-eq-ok (read_u16 bytes 4) _ h2 in
    let (end_, ends, h4) = >>=-eq-ok (records_end 12 count 16) _ h3 in
    let (inside, h5) = refused_not (ltb (length bytes) end_) _ _ h4 in
    let (tables, parsed, h6) = >>=-eq-ok (parse_tables bytes 0 count) _ h5 in
    let sum = records_end_sound 12 count 16 end_ ends in
    let room : 12 + (0 + count) * 16 ≤ length bytes = ground (arith, sum) in
    let (all_inside, as_many) = parse_tables_sound bytes 0 count tables room parsed in
    let version_is : version ≡ 0x10000 = ground arith in
    subst
      (λ (f : Sfnt).
        (read_u32 bytes 0 ≡ ok 0x10000)
        × (read_u16 bytes 4 ≡ ok (length f.tables))
        × (12 + length f.tables * 16 ≤ length bytes)
        × Entries bytes 0 f.tables)
      (ok-injective h6)
      (
        magic ∙ ap ok version_is,
        counted ∙ ap ok (sym as_many),
        omega (arith, room, as_many),
        all_inside,
      )
