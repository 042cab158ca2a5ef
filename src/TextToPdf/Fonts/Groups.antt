-- ===== src/TextToPdf/Fonts/Groups.antt =====
-- The lookup in a map of format 12 of text_to_pdf.rs, for groups in ascending order.
use document_studio.Base.{
  ℕ, ◌+◌, ◌-◌, ◌*◌, ◌≤◌, ◌<◌, Bool, ltb, within, List, [], ◌∷◌, length, All, Bool-cases, inl, inr,
  Option, none, some, if◌then◌else◌, Result, ok, err, arith, ◌≡◌, refl,
}
use document_studio.TextToPdf.Fonts.Bytes.{Failure, read_u32}
use document_studio.TextToPdf.Fonts.Cmap.{group_glyph, groups_from, group_count, cmap12_glyph}

pub record Group : Type 0 where
  pub first : ℕ
  pub last : ℕ
  pub glyph : ℕ

-- The table has these groups from an index on.
abbrev pub Holds : List ℕ → ℕ → List Group → Type 0
Holds table_ index [] = Unit
Holds table_ index (g ∷ gs) =
    (read_u32 table_ (16 + index * 12) ≡ ok g.first)
    × (read_u32 table_ (16 + index * 12 + 4) ≡ ok g.last)
    × (read_u32 table_ (16 + index * 12 + 8) ≡ ok g.glyph)
    × Holds table_ (index + 1) gs

abbrev pub IsAscending : List Group → Type 0
IsAscending [] = Unit
IsAscending (g ∷ gs) =
    (g.first ≤ g.last) × All (λ (h : Group). g.last < h.first) gs × IsAscending gs

abbrev pub is_in : ℕ → Group → Bool
is_in code g = within g.first g.last code

-- The first group that a code is in, and its glyph of 16 bits there.
unfoldable pub find_group : ℕ → List Group → Option Group
find_group code [] = none
find_group code (g ∷ gs) = if is_in code g then some g else find_group code gs

unfoldable pub glyph_for : ℕ → Option Group → Result Failure ℕ
glyph_for code none = ok 0
glyph_for code (some g) =
    if ltb (g.glyph + (code - g.first)) 65536 then ok (g.glyph + (code - g.first)) else err tt

find_group-none :
    (code bound : ℕ) (gs : List Group)
    → code ≤ bound
    → All (λ (h : Group). bound < h.first) gs
    → find_group code gs ≡ none
unfolding find_group
find_group-none code bound [] below above = refl
find_group-none code bound (g ∷ gs) below above =
    ground (arith, below, above.0, find_group-none code bound gs below (above.1))

groups_from_lem :
    (table_ : List ℕ) (code index : ℕ) (gs : List Group)
    → Holds table_ index gs
    → IsAscending gs
    → groups_from table_ code index (length gs) ≡ glyph_for code (find_group code gs)
unfolding groups_from group_glyph find_group glyph_for
groups_from_lem table_ code index [] held ascending = refl
groups_from_lem table_ code index (g ∷ gs) held ascending = elim (Bool-cases (ltb code g.first)) [
  | inl before ↦
      let later = find_group-none code g.last gs (ground (arith, ascending.0)) (ascending.1) in
      ground (arith, held.0, held.1, before, later)
  | inr after ↦ ground (
    arith,
    held.0,
    held.1,
    held.2,
    after,
    groups_from_lem table_ code (index + 1) gs (held.3) (ascending.2),
  )
]

-- In a map of format 12 whose groups ascend without an overlap, the lookup of a code finds the glyph
-- of the group that the code is in, which is its first glyph and the code's place in it, and fails
-- when that is no glyph of 16 bits; for a code in no group it finds the glyph 0.
pub cmap12_glyph_lem :
    (table_ : List ℕ) (gs : List Group) (code : ℕ)
    → group_count table_ ≡ ok (length gs)
    → Holds table_ 0 gs
    → IsAscending gs
    → cmap12_glyph table_ code ≡ glyph_for code (find_group code gs)
unfolding cmap12_glyph
cmap12_glyph_lem table_ gs code counted held ascending =
    rw counted (groups_from_lem table_ code 0 gs held ascending)
