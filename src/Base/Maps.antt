-- ===== src/Base/Maps.antt =====
-- A `HashMap` with texts for keys, as an association list with one entry a key.
use Prim.Native.Nat.{◌≤◌}
use Prim.Native.String.{String}
use mathlib.Core.Path.{◌≡◌, subst}
use mathlib.Core.Logic.{inl, inr}
use mathlib.Core.Bool.{Bool, true, false}
use mathlib.Core.Option.{Option, none, some}
use mathlib.Core.List.{List, [], ◌∷◌}
use native.Mathlib.Omega.{arith}
use text.Mathlib.Text.{◌==◌ as str_eq}
use document_studio.Base.Tests.{if◌then◌else◌, Bool-cases}
use document_studio.Base.Lists.{length, All, filter_if}

pub some-injective : {A : Type 0} (a b : A) → ◌≡◌ {A = Option A} (some a) (some b) → a ≡ b
some-injective a b h = cc (h)

All-if :
    {A : Type 0} (P : A → Type 0) (b : Bool) (xs ys : List A)
    → All P xs
    → All P ys
    → All P (if b then xs else ys)
All-if P true xs ys h k = h
All-if P false xs ys h k = k

module _ {A : Type 0} where
  abbrev pub find_key : String → List (String × A) → Option A
  find_key key [] = none
  find_key key ((k, a) ∷ entries) = if str_eq k key then some a else find_key key entries

  abbrev pub remove_key : String → List (String × A) → List (String × A)
  remove_key key [] = []
  remove_key key ((k, a) ∷ entries) =
      if str_eq k key then remove_key key entries else (k, a) ∷ remove_key key entries

  -- `insert`, where the order of a `HashMap`'s entries plays no part.
  abbrev pub insert_key : String → A → List (String × A) → List (String × A)
  insert_key key a entries = (key, a) ∷ remove_key key entries

  pub length-remove_key :
      (key : String) (entries : List (String × A))
      → length (remove_key key entries) ≤ length entries
  length-remove_key key [] = omega arith
  length-remove_key key ((k, a) ∷ entries) = ground (arith, length-remove_key key entries)

  pub All-remove_key :
      (P : String × A → Type 0) (key : String) (entries : List (String × A))
      → All P entries
      → All P (remove_key key entries)
  All-remove_key P key [] h = tt
  All-remove_key P key ((k, a) ∷ entries) h =
      let rest = All-remove_key P key entries (h.1) in
      All-if P (str_eq k key) (remove_key key entries) ((k, a) ∷ remove_key key entries) rest
        (h.0, rest)

  -- No entry with the key is left.
  pub remove_key-All :
      (key : String) (entries : List (String × A))
      → All (λ entry. str_eq (entry.0) key ≡ false) (remove_key key entries)
  remove_key-All key [] = tt
  remove_key-All key ((k, a) ∷ entries) =
      let rest = remove_key-All key entries in
      elim (Bool-cases (str_eq k key)) [ inl e ↦ rw e rest | inr e ↦ rw e (e, rest) ]

  pub find_key-All :
      (P : String × A → Type 0) (key : String) (entries : List (String × A)) (a : A)
      → All P entries
      → find_key key entries ≡ some a
      → (k : String) × (str_eq k key ≡ true) × P (k, a)
  find_key-All P key [] a h found = cc (found)
  find_key-All P key ((k, b) ∷ entries) a h found = elim (Bool-cases (str_eq k key)) [
    | inl e ↦
        let same : ◌≡◌ {A = Option A} (some b) (some a) = rw e at found in
        (k, e, subst (λ x. P (k, x)) (some-injective b a same) (h.0))
    | inr e ↦ find_key-All P key entries a (h.1) (rw e at found)
  ]

module _ {A : Type 0} (p : A → Bool) where
  pub length-filter_if : (xs : List A) → length (filter_if p xs) ≤ length xs
  length-filter_if [] = omega arith
  length-filter_if (x ∷ xs) = ground (arith, length-filter_if xs)

  pub All-filter_if : (P : A → Type 0) (xs : List A) → All P xs → All P (filter_if p xs)
  All-filter_if P [] h = tt
  All-filter_if P (x ∷ xs) h =
      let rest = All-filter_if P xs (h.1) in
      All-if P (p x) (x ∷ filter_if p xs) (filter_if p xs) (h.0, rest) rest
