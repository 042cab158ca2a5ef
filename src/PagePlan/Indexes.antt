-- ===== src/PagePlan/Indexes.antt =====
-- Lists of page indexes: what the validation of a list decides, and when such a list is a
-- permutation of all pages.
use mathlib.Core.List.{Perm, perm_append_singleton}
use mathlib.Core.List.Perm
use document_studio.Base.{
  ℕ, zero, suc, ◌≤◌, ◌<◌, true, false, List, [], ◌∷◌, ◌≡◌, ◌↔◌, refl, subst, inl, inr, arith,
  if◌then◌else◌, ◌==◌, length, All, ok, Bool-cases, ==_iff,
}
use document_studio.PagePlan.Ranges.{range_from-last}
use document_studio.PagePlan.{contains, any_invalid, validate_unique_indexes, range_from}

-- No index stands twice.
abbrev pub IsDistinct : List ℕ → Type 0
IsDistinct [] = Unit {0}
IsDistinct (i ∷ is) = (contains i is ≡ false) × IsDistinct is

abbrev pub AllBelow : ℕ → List ℕ → Type 0
AllBelow n = All (λ i. i < n)

-- No index stands in the set.
abbrev pub AllAbsent : List ℕ → List ℕ → Type 0
AllAbsent seen = All (λ i. contains i seen ≡ false)

absent-cons :
    (i : ℕ) (seen is : List ℕ)
    → AllAbsent (i ∷ seen) is
    → (contains i is ≡ false) × AllAbsent seen is
unfolding contains
absent-cons i seen [] h = (refl, tt)
absent-cons i seen (j ∷ is) h =
    let (rest, absent) = absent-cons i seen is h.1 in
    (ground (arith, rest, h.0), (ground (arith, h.0), absent))

cons-absent :
    (i : ℕ) (seen is : List ℕ) → contains i is ≡ false → AllAbsent seen is → AllAbsent (i ∷ seen) is
unfolding contains
cons-absent i seen [] h a = tt
cons-absent i seen (j ∷ is) h a =
    (ground (arith, h, a.0), cons-absent i seen is (ground (arith, h)) a.1)

any_invalid_sound :
    (seen is : List ℕ) (n : ℕ)
    → any_invalid seen n is ≡ false
    → AllBelow n is × IsDistinct is × AllAbsent seen is
unfolding any_invalid
any_invalid_sound seen [] n h = (tt, tt, tt)
any_invalid_sound seen (i ∷ is) n h =
    let (below, distinct, absent) = any_invalid_sound (i ∷ seen) is n (ground arith) in
    let (once, others) = absent-cons i seen is absent in
    ((ground arith, below), (once, distinct), (ground arith, others))

any_invalid_complete :
    (seen is : List ℕ) (n : ℕ)
    → AllBelow n is
    → IsDistinct is
    → AllAbsent seen is
    → any_invalid seen n is ≡ false
unfolding any_invalid
any_invalid_complete seen [] n b d a = refl
any_invalid_complete seen (i ∷ is) n b d a =
    ground (
      arith,
      any_invalid_complete (i ∷ seen) is n b.1 d.1 (cons-absent i seen is d.0 a.1),
      b.0,
      a.0,
    )

nothing_seen : (is : List ℕ) → AllAbsent [] is
unfolding contains
nothing_seen [] = tt
nothing_seen (i ∷ is) = (refl, nothing_seen is)

-- A list of page indexes is accepted exactly when it is not empty, no longer than the document,
-- names no page twice and no page that is not there.
pub validate_unique_indexes_iff :
    (is : List ℕ) (n : ℕ)
    → (validate_unique_indexes is n false ≡ ok tt)
      ↔ ((0 < length is) × (length is ≤ n) × AllBelow n is × IsDistinct is)
unfolding validate_unique_indexes
validate_unique_indexes_iff [] n = (λ h. cc, λ h. absurd (omega (arith, h.0)))
validate_unique_indexes_iff (i ∷ is) n = (
  λ h.
      let (below, distinct, _) = any_invalid_sound [] (i ∷ is) n (ground arith) in
      (omega arith, ground arith, below, distinct),
  λ h. ground (arith, h.1, any_invalid_complete [] (i ∷ is) n h.2 h.3 (nothing_seen (i ∷ is))),
)

-- Taking an index out of a list that has it.
erase : ℕ → List ℕ → List ℕ
erase n [] = []
erase n (i ∷ is) = if i == n then is else i ∷ erase n is

erase-perm : (n : ℕ) (is : List ℕ) → contains n is ≡ true → Perm is (n ∷ erase n is)
unfolding erase contains
erase-perm n [] h = cc
erase-perm n (i ∷ is) h = elim (Bool-cases (i == n)) [
  | inl hit ↦ rw hit (Perm.cons' (ground arith) Perm.rfl)
  | inr miss ↦ rw miss (Perm.trans (Perm.cons i (erase-perm n is (ground arith))) (Perm.swap n i _))
]

length-erase : (n : ℕ) (is : List ℕ) → contains n is ≡ true → suc (length (erase n is)) ≡ length is
unfolding erase contains
length-erase n [] h = cc
length-erase n (i ∷ is) h = ground (arith, length-erase n is)

contains-erase : (n j : ℕ) (is : List ℕ) → contains j is ≡ false → contains j (erase n is) ≡ false
unfolding erase contains
contains-erase n j [] h = refl
contains-erase n j (i ∷ is) h = ground (arith, contains-erase n j is)

absent-below : (n : ℕ) (is : List ℕ) → contains n is ≡ false → AllBelow (suc n) is → AllBelow n is
unfolding contains
absent-below n [] h b = tt
absent-below n (i ∷ is) h b = (ground (arith, b.0), absent-below n is (ground arith) b.1)

erase-below :
    (n : ℕ) (is : List ℕ)
    → AllBelow (suc n) is
    → IsDistinct is
    → AllBelow n (erase n is) × IsDistinct (erase n is)
unfolding erase
erase-below n [] b d = (tt, tt)
erase-below n (i ∷ is) b d = elim (Bool-cases (i == n)) [
  | inl hit ↦
      let same : i ≡ n = (==_iff i n).0 hit in
      rw hit (absent-below n is (subst (λ k. contains k is ≡ false) same d.0) b.1, d.1)
  | inr miss ↦
      let (below, distinct) = erase-below n is b.1 d.1 in
      rw miss ((ground (arith, b.0), below), (contains-erase n i is d.0, distinct))
]

no_room : (is : List ℕ) → AllBelow 0 is → is ≡ []
no_room [] b = refl
no_room (i ∷ is) b = absurd (omega (arith, b.0))

-- A document of `n` pages has room for `n` distinct indexes.
pub length-IsDistinct : (n : ℕ) (is : List ℕ) → AllBelow n is → IsDistinct is → length is ≤ n
length-IsDistinct zero is b d = rw (no_room is b) (omega arith)
length-IsDistinct (suc n) is b d = elim (Bool-cases (contains n is)) [
  | inl there ↦
      let (below, distinct) = erase-below n is b d in
      omega (arith, length-IsDistinct n (erase n is) below distinct, length-erase n is there)
  | inr absent ↦ omega (arith, length-IsDistinct n is (absent-below n is absent b) d)
]

-- Distinct indexes that are as many as the pages are all of the pages, in some order.
pub IsDistinct-perm :
    (n : ℕ) (is : List ℕ) → AllBelow n is → IsDistinct is → length is ≡ n → Perm is (range_from 0 n)
IsDistinct-perm zero is b d e = rw (no_room is b) (unfold range_from in Perm.nil)
IsDistinct-perm (suc n) is b d e = elim (Bool-cases (contains n is)) [
  | inl there ↦
      let (below, distinct) = erase-below n is b d in
      let smaller =
        IsDistinct-perm n (erase n is) below distinct (omega (arith, length-erase n is there)) in
      Perm.trans (erase-perm n is there) (
        Perm.trans (Perm.cons n smaller)
          (rw (range_from-last n) (Perm.symm (perm_append_singleton n _))))
  | inr absent ↦ absurd (omega (arith, length-IsDistinct n is (absent-below n is absent b) d))
]
