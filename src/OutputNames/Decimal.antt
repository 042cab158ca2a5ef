-- ===== src/OutputNames/Decimal.antt =====
-- The decimal spelling that `format!` gives an unsigned integer.
use document_studio.Base.{
  ℕ, zero, suc, ◌+◌, ◌-◌, ◌*◌, ◌/◌, ◌%◌, ◌≤◌, ◌<◌, [], ◌∷◌, ◌≡◌, refl, ap, sym, ◌∙◌, arith,
  if◌then◌else◌, Bool, all, length, within, ltb, Bool-cases, inl, inr, true,
}
use document_studio.Base.Text.{Text}

-- The digits of `n` in front of `out`, with fuel for one round a digit.
decimal_before : ℕ → ℕ → Text → Text
decimal_before zero n out = out
decimal_before (suc fuel) n out =
    let rest = decimal_before fuel (n / 10) ((b'0' + n % 10) ∷ out) in
    if ltb n 10 then (b'0' + n) ∷ out else rest

-- `n` has at most `n + 1` digits.
unfoldable pub decimal : ℕ → Text
unfolding decimal_before
decimal n = decimal_before (suc n) n []

-- The number that a row of digits spells, after `n`.
spelled_from : ℕ → Text → ℕ
spelled_from n [] = n
spelled_from n (c ∷ s) = spelled_from (n * 10 + (c - b'0')) s

decimal_before-spelled :
    (fuel n : ℕ) (out : Text)
    → n < fuel
    → spelled_from 0 (decimal_before fuel n out) ≡ spelled_from n out
unfolding decimal_before spelled_from
decimal_before-spelled zero n out h = elim h [ ]
decimal_before-spelled (suc fuel) n out h = elim (Bool-cases (ltb n 10)) [
  | inl small ↦ rw small (ap (λ k. spelled_from k out) (omega arith))
  | inr large ↦ rw large (
      decimal_before-spelled fuel (n / 10) ((b'0' + n % 10) ∷ out) (ground arith)
      ∙ ap (λ k. spelled_from k out) (omega arith))
]

decimal-spelled : (n : ℕ) → spelled_from 0 (decimal n) ≡ n
unfolding decimal spelled_from
decimal-spelled n = decimal_before-spelled (suc n) n [] (omega arith)

-- No two numbers are spelled alike.
pub decimal-injective : (m n : ℕ) → decimal m ≡ decimal n → m ≡ n
decimal-injective m n e = sym (decimal-spelled m) ∙ ap (spelled_from 0) e ∙ decimal-spelled n

decimal-1024 : decimal 1024 ≡ 49 ∷ 48 ∷ 50 ∷ 52 ∷ []
unfolding decimal
decimal-1024 = refl

abbrev pub is_digit : ℕ → Bool
is_digit c = within b'0' b'9' c

decimal_before-digits :
    (fuel n : ℕ) (out : Text)
    → n < fuel
    → all is_digit out ≡ true
    → all is_digit (decimal_before fuel n out) ≡ true
unfolding decimal_before
decimal_before-digits zero n out h d = elim h [ ]
decimal_before-digits (suc fuel) n out h d =
    ground (arith, decimal_before-digits fuel (n / 10) ((b'0' + n % 10) ∷ out))

-- Every character is a digit.
pub decimal-digits : (n : ℕ) → all is_digit (decimal n) ≡ true
unfolding decimal
decimal-digits n = decimal_before-digits (suc n) n [] (omega arith) refl

one_digit :
    (fuel n : ℕ) (out : Text)
    → n < fuel
    → n < 10
    → length (decimal_before fuel n out) ≡ suc (length out)
unfolding decimal_before
one_digit zero n out f h = elim f [ ]
one_digit (suc fuel) n out f h = ground arith

two_digits :
    (fuel n : ℕ) (out : Text)
    → n < fuel
    → n < 100
    → length (decimal_before fuel n out) ≤ 2 + length out
unfolding decimal_before
two_digits zero n out f h = elim f [ ]
two_digits (suc fuel) n out f h = ground (arith, one_digit fuel (n / 10) ((b'0' + n % 10) ∷ out))

three_digits :
    (fuel n : ℕ) (out : Text)
    → n < fuel
    → n < 1000
    → length (decimal_before fuel n out) ≤ 3 + length out
unfolding decimal_before
three_digits zero n out f h = elim f [ ]
three_digits (suc fuel) n out f h = ground (arith, two_digits fuel (n / 10) ((b'0' + n % 10) ∷ out))

-- A number below 1000 takes at most three digits.
pub length-decimal : (n : ℕ) → n < 1000 → length (decimal n) ≤ 3
unfolding decimal
length-decimal n h = three_digits (suc n) n [] (omega arith) h
