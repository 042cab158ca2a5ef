-- ===== src/Base/Results.antt =====
-- Rust's `Result`, with its success value second as in `Result<T, E>` read from the error outwards.
use mathlib.Core.Path.{◌≡◌, refl, ap}
use mathlib.Core.Logic.{◌↔◌, ◌⊎◌, inl, inr}
use mathlib.Core.Bool.{Bool, true, false}
use mathlib.Core.Option.{Option, none, some}

pub data Result {ℓ κ} (E : Type ℓ) (A : Type κ) : Type (ℓ ⊔ κ) where
  ok : A → Result E A
  err : E → Result E A

infixl 5 ◌>>=◌ ◌>>◌
-- The `?` operator.
abbrev pub ◌>>=◌ {ℓ κ μ} :
    {E : Type ℓ} {A : Type κ} {B : Type μ} → Result E A → (A → Result E B) → Result E B
ok a >>= f = f a
err e >>= f = err e

abbrev pub ◌>>◌ {ℓ μ} : {E : Type ℓ} {B : Type μ} → Result E (Unit {0}) → Result E B → Result E B
m >> k = m >>= λ _. k

-- `if failing { return Err(e); }`.
abbrev pub refuse_if {ℓ} : {E : Type ℓ} → Bool → E → Result E (Unit {0})
refuse_if true e = err e
refuse_if false e = ok tt

-- `Option::ok_or`.
abbrev pub ok_or {ℓ κ} : {E : Type ℓ} {A : Type κ} → Option A → E → Result E A
ok_or none e = err e
ok_or (some a) e = ok a

-- `Result::map_err`.
abbrev pub map_err {ℓ κ μ} :
    {E : Type ℓ} {F : Type κ} {A : Type μ} → (E → F) → Result E A → Result F A
map_err f (ok a) = ok a
map_err f (err e) = err (f e)

abbrev pub is_ok {ℓ κ} : {E : Type ℓ} {A : Type κ} → Result E A → Bool
is_ok (ok a) = true
is_ok (err e) = false

pub Result-cases {ℓ κ} :
    {E : Type ℓ} {A : Type κ} (r : Result E A) → ((a : A) × (r ≡ ok a)) ⊎ ((e : E) × (r ≡ err e))
Result-cases (ok a) = inl (a, refl)
Result-cases (err e) = inr (e, refl)

-- When `r?` is followed by more code and the whole returns a value, `r` had one.
pub >>=-eq-ok {ℓ κ μ} :
    {E : Type ℓ} {T : Type κ} {U : Type μ} {result : U} (r : Result E T) (rest : T → Result E U)
    → (r >>= rest) ≡ ok result
    → (value : T) × (r ≡ ok value) × (rest value ≡ ok result)
>>=-eq-ok (ok value) rest returned = (value, refl, returned)
>>=-eq-ok (err e) rest returned = cc

pub ok-injective {ℓ κ} :
    {E : Type ℓ} {A : Type κ} {a b : A} → ◌≡◌ {A = Result E A} (ok a) (ok b) → a ≡ b
ok-injective h = cc (h)

-- `check().map_err(f)?` followed by more code returns a value when both parts do.
pub map_err_iff {ℓ κ μ} :
    {E : Type ℓ} {F : Type κ} {A : Type μ} {value : A} (f : E → F) (check : Result E (Unit {0}))
    (rest : Result F A)
    → ((map_err f check >> rest) ≡ ok value) ↔ ((check ≡ ok tt) × (rest ≡ ok value))
map_err_iff f (ok tt) rest = (λ h. (refl, h), λ h. h.1)
map_err_iff f (err e) rest = (λ h. cc (h), λ h. cc (h.0))

-- When a refusal is followed by more code and the whole returns a value, its test failed.
pub refused_not {ℓ κ} :
    {E : Type ℓ} {A : Type κ} (c : Bool) (e : E) (r : Result E A) {a : A}
    → (refuse_if c e >> r) ≡ ok a
    → (c ≡ false) × (r ≡ ok a)
refused_not false e r h = (refl, h)
refused_not true e r h = cc

pub ok_or-eq-ok {ℓ κ} :
    {E : Type ℓ} {A : Type κ} {a : A} (o : Option A) (e : E) → ok_or o e ≡ ok a → o ≡ some a
ok_or-eq-ok none e h = cc (h)
ok_or-eq-ok (some a) e h = ap some (ok-injective h)

pub map_err-eq-ok {ℓ κ μ} :
    {E : Type ℓ} {F : Type κ} {A : Type μ} {a : A} (f : E → F) (r : Result E A)
    → map_err f r ≡ ok a
    → r ≡ ok a
map_err-eq-ok {E = E} f (ok a) h = ap ok (ok-injective h)
map_err-eq-ok f (err e) h = cc (h)
