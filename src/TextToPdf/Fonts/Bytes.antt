-- ===== src/TextToPdf/Fonts/Bytes.antt =====
-- `read_u16` and `read_u32` of text_to_pdf.rs, and the slices that the fonts' code takes. The error of
-- the fonts' code is Rust's `()`.
use document_studio.Base.{
  ℕ, ◌+◌, ◌-◌, ◌*◌, ◌&&◌, leb, List, [], ◌∷◌, length, take, drop, Option, none, some, if◌then◌else◌,
  Result, ok, err, ◌>>=◌, ok_or,
}
use document_studio.TextToPdf.Html.{checked_usize}

abbrev pub Failure : Type 0
Failure = Unit {0}

-- `&bytes[start..end]`, where the code has tested the bounds. Out of range it is shorter than
-- `end - start`, where Rust panics.
abbrev pub slice : ℕ → ℕ → List ℕ → List ℕ
slice start end_ bytes = take (end_ - start) (drop start bytes)

-- `bytes.get(start..end)`.
unfoldable pub get_range : List ℕ → ℕ → ℕ → Option (List ℕ)
get_range bytes start end_ =
    if leb start end_ && leb end_ (length bytes) then some (slice start end_ bytes) else none

-- `u16::from_be_bytes` and `u32::from_be_bytes` after `try_into` of an array.
unfoldable pub u16_of : List ℕ → Result Failure ℕ
u16_of (a ∷ b ∷ []) = ok (a * 256 + b)
u16_of _ = err tt

unfoldable pub u32_of : List ℕ → Result Failure ℕ
u32_of (a ∷ b ∷ c ∷ d ∷ []) = ok (((a * 256 + b) * 256 + c) * 256 + d)
u32_of _ = err tt

unfoldable pub read_u16 : List ℕ → ℕ → Result Failure ℕ
read_u16 bytes offset = do
  end_ ← ok_or (checked_usize (offset + 2)) tt
  value ← ok_or (get_range bytes offset end_) tt
  u16_of value

unfoldable pub read_u32 : List ℕ → ℕ → Result Failure ℕ
read_u32 bytes offset = do
  end_ ← ok_or (checked_usize (offset + 4)) tt
  value ← ok_or (get_range bytes offset end_) tt
  u32_of value
