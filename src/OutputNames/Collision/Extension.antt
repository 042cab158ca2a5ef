-- ===== src/OutputNames/Collision/Extension.antt =====
-- The attempts at a name keep its extension.
use mathlib.Core.List.{append_assoc}
use document_studio.Base.{
  ℕ, zero, suc, true, false, [], ◌∷◌, ◌++◌, Option, none, some, ◌≡◌, refl, ap, sym, subst, inl, inr,
  arith, if◌then◌else◌, length, length-append, Bool-cases,
}
use document_studio.Base.Text.{Text, codes, text_eq, text_eq_iff}
use document_studio.OutputNames.Collision.{
  last_dot, sides, split_file_name, counter, numbered, collision_name,
}
use document_studio.OutputNames.Policy.{ends_with_dot_or_space}
use document_studio.OutputNames.Collision.Distinct.{length-counter, first_attempt, later_attempt}
use document_studio.OutputNames.Collision.Parts.{
  last_dot-join, last_dot-none, last_dot-after, last_dot-at, last_dot-append, counter-no_dot,
  Splits, whole, parts, split-Splits,
}

-- `Path::extension`.
unfoldable pub extension : Text → Option Text
extension name = (split_file_name name).1

counter-no_last_dot : (n : ℕ) → last_dot (counter n []) ≡ none
counter-no_last_dot n = last_dot-none (counter n []) (counter-no_dot n [] refl)

-- A longer name is not `..`.
not_dots : (s : Text) (n : ℕ) (rest : Text) → text_eq (s ++ counter n rest) (codes "..") ≡ false
not_dots s n rest = elim (Bool-cases (text_eq (s ++ counter n rest) (codes ".."))) [
  | inl e ↦
      let short = (text_eq_iff (s ++ counter n rest) (codes "..")).0 e in
      absurd
        (omega (arith, ap length short, length-append s (counter n rest), length-counter n rest))
  | inr e ↦ e
]

pub ends_with_dot : (s : Text) → ends_with_dot_or_space (s ++ b'.' ∷ []) ≡ true
unfolding ends_with_dot_or_space
ends_with_dot [] = refl
ends_with_dot (c ∷ []) = refl
ends_with_dot (c ∷ d ∷ s) = ends_with_dot (d ∷ s)

extension_of :
    (name : Text) (o : Option (Text × Text))
    → text_eq name (codes "..") ≡ false
    → last_dot name ≡ o
    → extension name ≡ (sides name o).1
unfolding extension split_file_name
extension_of name o h e =
    subst (λ x. (if x then (name, none) else sides name (last_dot name)).1 ≡ (sides name o).1)
      (sym h) (ap (λ x. (sides name x).1) e)

counter-append : (n : ℕ) (rest : Text) → counter n rest ≡ counter n [] ++ rest
unfolding counter
counter-append n rest = simp append_assoc

-- The counter stands in front of the extension.
last_dot-counter :
    (s ext : Text) (n : ℕ)
    → last_dot ext ≡ none
    → last_dot (s ++ counter n (b'.' ∷ ext)) ≡ some (s ++ counter n [], ext)
last_dot-counter s ext n e =
    rw (counter-append n (b'.' ∷ ext), ← append_assoc s (counter n []) (b'.' ∷ ext))
      (last_dot-at (s ++ counter n []) ext e)

extension-numbered :
    (name : Text) (p : Text × Option Text) (n : ℕ)
    → ends_with_dot_or_space name ≡ false
    → Splits name p
    → extension (numbered p n) ≡ p.1
unfolding numbered
extension-numbered name p n safe (whole (inl e)) =
    extension_of (name ++ counter n []) none (not_dots name n [])
      (rw (last_dot-append name (counter n []) (counter-no_last_dot n), e))
extension-numbered name p n safe (whole (inr (t, e))) =
    extension_of (name ++ counter n []) (some ([], t ++ counter n [])) (not_dots name n [])
      (rw (last_dot-append name (counter n []) (counter-no_last_dot n), e))
extension-numbered name p n safe (parts c before [] e) =
    cc
      (ap ends_with_dot_or_space (last_dot-join name (c ∷ before) [] e), ends_with_dot (c ∷ before))
extension-numbered name p n safe (parts c before (d ∷ ext) e) =
    extension_of _ (some ((c ∷ before) ++ counter n [], d ∷ ext))
      (not_dots (c ∷ before) n (b'.' ∷ d ∷ ext))
      (last_dot-counter (c ∷ before) (d ∷ ext) n (last_dot-after name (c ∷ before) (d ∷ ext) e))

dots-refused : ends_with_dot_or_space (codes "..") ≡ true
unfolding ends_with_dot_or_space
dots-refused = refl

pub safe-not_dots :
    (name : Text) → ends_with_dot_or_space name ≡ false → text_eq name (codes "..") ≡ false
safe-not_dots name safe = ground (
  arith,
  text_eq_iff name (codes ".."),
  dots-refused,
  λ (e : name ≡ codes ".."). ap ends_with_dot_or_space e,
)

-- Every attempt at a name that ends in neither a dot nor a space has the name's own extension, and
-- none where the name has none.
pub extension-collision_name :
    (name : Text) (n : ℕ)
    → ends_with_dot_or_space name ≡ false
    → extension (collision_name name n) ≡ extension name
unfolding extension
extension-collision_name name zero safe = rw (first_attempt name)
extension-collision_name name (suc n) safe =
    rw (later_attempt name n)
      (extension-numbered name _ (suc n) safe (split-Splits name (safe-not_dots name safe)))
