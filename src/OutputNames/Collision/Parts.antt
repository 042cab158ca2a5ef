-- ===== src/OutputNames/Collision/Parts.antt =====
-- The parts of a file name on the two sides of its last dot.
use mathlib.Core.Option
use document_studio.Base.{
  ℕ, Bool, true, false, List, [], ◌∷◌, ◌++◌, Option, none, some, ◌≡◌, refl, ◌⊎◌, inl, inr, arith,
  ◌==◌, Option-cases, all, ◌&&◌, not,
}
use document_studio.Base.Text.{Text, codes, text_eq}
use document_studio.OutputNames.Decimal.{decimal, is_digit, decimal-digits}
use document_studio.OutputNames.Collision.{last_dot, sides, split_file_name, counter}

-- The two sides and the dot make up the name.
pub last_dot-join :
    (s before after : Text) → last_dot s ≡ some (before, after) → s ≡ before ++ b'.' ∷ after
unfolding last_dot
last_dot-join [] before after h = cc
last_dot-join (c ∷ s) before after h = elim (Option-cases (last_dot s)) [
  | inl e ↦ ground arith
  | inr ((b, a), e) ↦ ground (arith, last_dot-join s b a e)
]

abbrev pub no_dot : ℕ → Bool
no_dot c = not (c == b'.')

pub last_dot-none : (s : Text) → all no_dot s ≡ true → last_dot s ≡ none
unfolding last_dot
last_dot-none [] h = refl
last_dot-none (c ∷ s) h = ground (arith, last_dot-none s)

-- What follows the last dot has none.
pub last_dot-after :
    (s before after : Text) → last_dot s ≡ some (before, after) → last_dot after ≡ none
unfolding last_dot
last_dot-after [] before after h = cc
last_dot-after (c ∷ s) before after h = elim (Option-cases (last_dot s)) [
  | inl e ↦ ground arith
  | inr ((b, a), e) ↦ ground (arith, last_dot-after s b a e)
]

pub last_dot-at : (s t : Text) → last_dot t ≡ none → last_dot (s ++ b'.' ∷ t) ≡ some (s, t)
unfolding last_dot
last_dot-at [] t h = ground arith
last_dot-at (c ∷ s) t h = ground (arith, last_dot-at s t h)

pub last_dot-append :
    (s t : Text)
    → last_dot t ≡ none
    → last_dot (s ++ t) ≡ Option.map (λ (p : Text × Text). (p.0, p.1 ++ t)) (last_dot s)
unfolding last_dot
last_dot-append [] t h = h
last_dot-append (c ∷ s) t h = elim (Option-cases (last_dot s)) [
  | inl e ↦ ground (arith, last_dot-append s t h)
  | inr ((b, a), e) ↦ ground (arith, last_dot-append s t h)
]

all-append {ℓ} : {A : Type ℓ} (p : A → Bool) (s t : List A) → all p (s ++ t) ≡ (all p s && all p t)
all-append p [] t = refl
all-append p (c ∷ s) t = ground (arith, all-append p s t)

digits-no_dot : (s : Text) → all is_digit s ≡ true → all no_dot s ≡ true
digits-no_dot [] h = refl
digits-no_dot (c ∷ s) h = ground (arith, digits-no_dot s)

pub counter-no_dot : (n : ℕ) (t : Text) → all no_dot t ≡ true → all no_dot (counter n t) ≡ true
unfolding counter
counter-no_dot n t h =
    ground (
      arith,
      digits-no_dot (decimal n) (decimal-digits n),
      all-append no_dot (decimal n) (b')' ∷ t),
    )

-- The two ways in which a name splits.
pub data Splits (name : Text) : Text × Option Text → Type 0 where
  whole :
      (last_dot name ≡ none) ⊎ ((t : Text) × (last_dot name ≡ some ([], t)))
      → Splits name (name, none)
  parts :
      (c : ℕ) (before ext : Text)
      → last_dot name ≡ some (c ∷ before, ext)
      → Splits name (c ∷ before, some ext)

sides-Splits :
    (name : Text) (o : Option (Text × Text)) → last_dot name ≡ o → Splits name (sides name o)
sides-Splits name none e = whole (inl e)
sides-Splits name (some ([], t)) e = whole (inr (t, e))
sides-Splits name (some (c ∷ b, t)) e = parts c b t e

-- Only the name `..` is treated apart.
pub split-Splits :
    (name : Text) → text_eq name (codes "..") ≡ false → Splits name (split_file_name name)
unfolding split_file_name
split-Splits name h = rw h (sides-Splits name (last_dot name) refl)
