-- ===== src/TextToPdf/Fonts/Names.antt =====
-- `Sfnt::name` of text_to_pdf.rs, with Rust's strict readers of UTF-16 and UTF-8.
use document_studio.Base.{
  ℕ, zero, suc, ◌+◌, ◌-◌, ◌*◌, ◌%◌, not, ◌&&◌, ◌||◌, ltb, ◌==◌, within, List, [], ◌∷◌, ◌++◌, length,
  Option, none, some, if◌then◌else◌, Result, ok, ◌>>=◌, ◌>>◌, refuse_if, ok_or,
}
use document_studio.Base.Text.{Text, codes}
use document_studio.Base.Utf8.{from_utf8}
use document_studio.TextToPdf.Html.{checked_usize}
use document_studio.TextToPdf.Fonts.Bytes.{Failure, slice, read_u16}
use document_studio.TextToPdf.Fonts.Sfnt.{Sfnt, table, records_end}

-- One unit of UTF-16, after a high surrogate or not: the characters it ends and what is open then.
unfoldable pub next_unit : Option ℕ → ℕ → Option (List ℕ × Option ℕ)
next_unit none u =
    if within 0xd800 0xdbff u
    then some ([], some u)
    else if within 0xdc00 0xdfff u
    then none
    else some (u ∷ [], none)
next_unit (some high) u =
    if within 0xdc00 0xdfff u
    then some ((0x10000 + ((high - 0xd800) * 1024 + (u - 0xdc00))) ∷ [], none)
    else none

unfoldable pub decode_units : Option ℕ → List ℕ → Option Text
decode_units none [] = some []
decode_units (some high) [] = none
decode_units open_ (u ∷ units) = elim (next_unit open_ u) [
  | none ↦ none
  | some step ↦ elim (decode_units (step.1) units) [
    | none ↦ none
    | some text ↦ some (step.0 ++ text)
  ]
]

-- `String::from_utf16`.
unfoldable pub from_utf16 : List ℕ → Option Text
from_utf16 units = decode_units none units

-- `chunks_exact(2)` with `u16::from_be_bytes`.
unfoldable pub big_endian_pairs : List ℕ → List ℕ
big_endian_pairs [] = []
big_endian_pairs (a ∷ []) = []
big_endian_pairs (a ∷ b ∷ bytes) = (a * 256 + b) ∷ big_endian_pairs bytes

-- What a record does to the loop: it is passed over, it has a value, or its value is returned.
pub data Entry : Type 0 where
  passed : Entry
  candidate : Text → Entry
  returned : Text → Entry

unfoldable pub entry_of : ℕ → ℕ → Text → Entry
entry_of platform language value =
    if (platform == 3) && (language == 0x409) then returned value else candidate value

-- The value of a record of `length` bytes on a platform.
unfoldable pub value_of : ℕ → ℕ → ℕ → List ℕ → Result Failure (Option Text)
value_of platform encoding length_ bytes =
    if (platform == 3) && ((encoding == 1 || encoding == 10) && (length_ % 2 == 0))
    then (ok_or (from_utf16 (big_endian_pairs bytes)) tt >>= λ text. ok (some text))
    else if platform == 1
    then (ok_or (from_utf8 bytes) tt >>= λ text. ok (some text))
    else ok none

unfoldable pub entry_of_value : ℕ → ℕ → Option Text → Entry
entry_of_value platform language none = passed
entry_of_value platform language (some value) = entry_of platform language value

-- A record with the identifier that is asked for.
unfoldable pub matching_entry : List ℕ → ℕ → ℕ → ℕ → ℕ → ℕ → Result Failure Entry
matching_entry name_table storage offset platform encoding language = do
  length_ ← read_u16 name_table (offset + 8)
  relative ← read_u16 name_table (offset + 10)
  start ← ok_or (checked_usize (storage + relative)) tt
  end_ ← ok_or (checked_usize (start + length_)) tt
  refuse_if (ltb (length name_table) end_) tt
  value ← value_of platform encoding length_ (slice start end_ name_table)
  ok (entry_of_value platform language value)

-- The body of the loop.
unfoldable pub name_entry : List ℕ → ℕ → ℕ → ℕ → Result Failure Entry
name_entry name_table storage name_id offset = do
  platform ← read_u16 name_table offset
  encoding ← read_u16 name_table (offset + 2)
  language ← read_u16 name_table (offset + 4)
  found ← read_u16 name_table (offset + 6)
  (if not (found == name_id)
      then ok passed
      else matching_entry name_table storage offset platform encoding language)

-- `get_or_insert`.
unfoldable pub or_insert : Option Text → Text → Option Text
or_insert none value = some value
or_insert (some first) value = some first

unfoldable pub names_from : List ℕ → ℕ → ℕ → ℕ → ℕ → Option Text → Result Failure Text
names_from name_table storage name_id index zero first = ok_or first tt
names_from name_table storage name_id index (suc left) first =
    name_entry name_table storage name_id (6 + index * 12) >>= λ entry. elim entry [
      | passed ↦ names_from name_table storage name_id (index + 1) left first
      | candidate value ↦
          names_from name_table storage name_id (index + 1) left (or_insert first value)
      | returned value ↦ ok value
    ]

unfoldable pub name : Sfnt → ℕ → Result Failure Text
name font name_id = do
  name_table ← table font (codes "name")
  count ← read_u16 name_table 2
  storage ← read_u16 name_table 4
  end_ ← records_end 6 count 12
  refuse_if (ltb (length name_table) end_ || ltb (length name_table) storage) tt
  names_from name_table storage name_id 0 count none
