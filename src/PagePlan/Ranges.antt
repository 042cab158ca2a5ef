-- ===== src/PagePlan/Ranges.antt =====
-- Rows of consecutive page indexes.
use native.Mathlib.Nat.{zero-add, add-zero}
use document_studio.Base.{
  ℕ, zero, suc, ◌+◌, ◌≤◌, ◌<◌, [], ◌∷◌, ◌++◌, ◌≡◌, refl, ap, arith, length, All,
}
use document_studio.PagePlan.{range_from}

pub range_from-append :
    (start k l : ℕ) → range_from start (k + l) ≡ range_from start k ++ range_from (start + k) l
unfolding range_from
range_from-append start zero l = rw (zero-add l, add-zero start)
range_from-append start (suc k) l =
    let longer : suc k + l ≡ suc (k + l) = omega arith in
    let moved : start + suc k ≡ start + 1 + k = omega arith in
    rw longer (rw moved (ap (λ t. start ∷ t) (range_from-append (start + 1) k l)))

pub range_from-last : (n : ℕ) → range_from 0 (suc n) ≡ range_from 0 n ++ n ∷ []
range_from-last n =
    let one : suc n ≡ n + 1 = omega arith in
    rw one (rw (range_from-append 0 n 1, zero-add n) (unfold range_from in refl))

pub length-range_from : (start n : ℕ) → length (range_from start n) ≡ n
unfolding range_from
length-range_from start zero = refl
length-range_from start (suc n) = ap suc (length-range_from (start + 1) n)

pub range_from-bounds :
    (start n bound : ℕ) → start + n ≤ bound → All (λ i. i < bound) (range_from start n)
unfolding range_from
range_from-bounds start zero bound h = tt
range_from-bounds start (suc n) bound h =
    (omega arith, range_from-bounds (start + 1) n bound (omega arith))
