-- ===== src/OutputNames/Collision/Distinct.antt =====
-- The attempts at a name differ from one another.
use mathlib.Core.List.{append_cancel_left, append_cancel_right}
use document_studio.Base.{
  ℕ, zero, suc, ◌+◌, ◌≤◌, ◌<◌, true, [], ◌∷◌, ◌++◌, Option, none, some, ◌≡◌, refl, ap, sym, ◌∙◌,
  inl, inr, arith, length, length-append, Bool-cases,
}
use document_studio.Base.Text.{Text, codes, text_eq}
use document_studio.OutputNames.Decimal.{decimal, decimal-injective}
use document_studio.OutputNames.Collision.{split_file_name, counter, numbered, collision_name}
use document_studio.OutputNames.Collision.Parts.{last_dot-join, Splits, whole, parts, split-Splits}

counter-injective : (m n : ℕ) (s rest : Text) → s ++ counter m rest ≡ s ++ counter n rest → m ≡ n
unfolding counter
counter-injective m n s rest e = decimal-injective m n (
    append_cancel_right (decimal m) (decimal n) (b')' ∷ rest)
      (append_cancel_left (codes " (") _ _ (append_cancel_left s _ _ e)))

numbered-injective : (p : Text × Option Text) (m n : ℕ) → numbered p m ≡ numbered p n → m ≡ n
unfolding numbered
numbered-injective (stem, none) m n e = counter-injective m n stem [] e
numbered-injective (stem, some []) m n e = counter-injective m n stem [] e
numbered-injective (stem, some (c ∷ ext)) m n e = counter-injective m n stem (b'.' ∷ c ∷ ext) e

pub length-counter : (n : ℕ) (rest : Text) → 3 + length rest ≤ length (counter n rest)
unfolding counter
length-counter n rest = omega (arith, length-append (decimal n) (b')' ∷ rest))

length-numbered_whole : (name : Text) (n : ℕ) → length name < length (numbered (name, none) n)
unfolding numbered
length-numbered_whole name n = omega (arith, length-append name (counter n []), length-counter n [])

length-numbered :
    (name : Text) (p : Text × Option Text) (n : ℕ)
    → Splits name p
    → length name < length (numbered p n)
unfolding numbered
length-numbered name p n (whole _) = length-numbered_whole name n
length-numbered name p n (parts c before [] e) = omega (
  arith,
  ap length (last_dot-join name (c ∷ before) [] e),
  length-append (c ∷ before) (b'.' ∷ []),
  length-append (c ∷ before) (counter n []),
  length-counter n [],
)
length-numbered name p n (parts c before (d ∷ ext) e) = omega (
  arith,
  ap length (last_dot-join name (c ∷ before) (d ∷ ext) e),
  length-append (c ∷ before) (b'.' ∷ d ∷ ext),
  length-append (c ∷ before) (counter n (b'.' ∷ d ∷ ext)),
  length-counter n (b'.' ∷ d ∷ ext),
)

length-collision : (name : Text) (n : ℕ) → length name < length (numbered (split_file_name name) n)
length-collision name n = elim (Bool-cases (text_eq name (codes ".."))) [
  | inl e ↦ length-numbered-dots e
  | inr e ↦ length-numbered name (split_file_name name) n (split-Splits name e)
]
  where
    length-numbered-dots :
        text_eq name (codes "..") ≡ true → length name < length (numbered (split_file_name name) n)
    length-numbered-dots e =
        let whole_name : split_file_name name ≡ (name, none) = unfold split_file_name in rw e in
        rw whole_name (length-numbered_whole name n)

pub later_attempt :
    (name : Text) (n : ℕ) → collision_name name (suc n) ≡ numbered (split_file_name name) (suc n)
unfolding collision_name
later_attempt name n = ground arith

pub first_attempt : (name : Text) → collision_name name 0 ≡ name
unfolding collision_name
first_attempt name = refl

length-later_attempt :
    (name : Text) (n : ℕ) → length (collision_name name 0) < length (collision_name name (suc n))
length-later_attempt name n =
    rw (first_attempt name, later_attempt name n) (length-collision name (suc n))

-- Two attempts at one requested name, whatever the name, propose the same file name only if they
-- are the same attempt: the loops over attempts never try a name twice.
pub collision_name-injective :
    (name : Text) (m n : ℕ) → collision_name name m ≡ collision_name name n → m ≡ n
collision_name-injective name zero zero e = refl
collision_name-injective name zero (suc n) e =
    absurd (omega (arith, ap length e, length-later_attempt name n))
collision_name-injective name (suc m) zero e =
    absurd (omega (arith, ap length e, length-later_attempt name m))
collision_name-injective name (suc m) (suc n) e =
    numbered-injective (split_file_name name) (suc m) (suc n)
      (sym (later_attempt name m) ∙ e ∙ later_attempt name n)
