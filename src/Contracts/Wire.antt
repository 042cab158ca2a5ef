-- ===== src/Contracts/Wire.antt =====
-- What every enumeration of contracts.rs offers: a spelling for each value, and the way back, a
-- `match` on the text that takes the first arm whose literal is equal to it.
use document_studio.Base.{
  String, List, [], ◌∷◌, Bool, true, Option, none, some, all, if◌then◌else◌, str_eq, eq_iff, arith,
  ◌≡◌, ◌↔◌, subst,
}

pub record Wire (A : Type 0) : Type 0 where
  pub as_str : A → String
  pub from_contract : String → Option A

-- The reader accepts the spellings of the writer and no other text.
abbrev pub IsExact : {A : Type 0} → Wire A → Type 0
IsExact {A} w = (v : String) (a : A) → (w.from_contract v ≡ some a) ↔ (w.as_str a ≡ v)

abbrev pub match_str : {A : Type 0} → String → List (String × A) → Option A
match_str v [] = none
match_str v ((arm, a) ∷ arms) = if str_eq v arm then some a else match_str v arms

module _ {A : Type 0} (w : Wire A) where
  -- Each arm's literal is the spelling of its value.
  abbrev pub are_spellings : List (String × A) → Bool
  are_spellings = all (λ arm. str_eq (w.as_str arm.1) arm.0)

  match_str_sound :
      (v : String) (a : A) (arms : List (String × A))
      → are_spellings arms ≡ true
      → match_str v arms ≡ some a
      → w.as_str a ≡ v
  match_str_sound v a [] spelled h = cc
  match_str_sound v a ((arm, b) ∷ arms) spelled h =
      ground (arith, eq_iff v arm, eq_iff (w.as_str b) arm, match_str_sound v a arms)

  pub IsExact-of_arms :
      (arms : List (String × A))
      → ((v : String) → w.from_contract v ≡ match_str v arms)
      → are_spellings arms ≡ true
      → ((a : A) → w.from_contract (w.as_str a) ≡ some a)
      → IsExact w
  IsExact-of_arms arms reads spelled accepted v a = (
    λ h. match_str_sound v a arms spelled (subst (λ o. o ≡ some a) (reads v) h),
    λ h. subst (λ t. w.from_contract t ≡ some a) h (accepted a),
  )
