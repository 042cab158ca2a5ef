-- ===== src/OutputNames/Attempts.antt =====
-- The names that publication tries stay safe: the number keeps clear of every rule.
use mathlib.Core.List.{append-nil}
use document_studio.Base.{
  ℕ, zero, suc, ◌+◌, ◌≤◌, ◌<◌, Bool, true, false, List, [], ◌∷◌, ◌++◌, Option, ◌≡◌, ◌≢◌, refl, ap,
  sym, subst, ◌∙◌, ◌⊎◌, inl, inr, arith, ◌==◌, ◌||◌, length, length-append, any, all, map,
  Bool-cases, ok,
}
use document_studio.Base.Text.{Text, utf16_count, utf16_count-append, ascii_upper}
use document_studio.OutputNames.Policy.{
  validate_output_name, device_stem, first_segment, is_unsafe_character, ends_with_dot_or_space,
}
use document_studio.OutputNames.Decimal.{decimal, is_digit, decimal-digits, length-decimal}
use document_studio.OutputNames.Collision.{counter, numbered, collision_name}
use document_studio.OutputNames.Collision.Parts.{Splits, whole, parts, split-Splits, last_dot-join}
use document_studio.OutputNames.Collision.Distinct.{length-counter, first_attempt, later_attempt}
use document_studio.OutputNames.Collision.Extension.{ends_with_dot, safe-not_dots}
use document_studio.OutputNames.Safety.{
  IsDevice, console, prn, aux, nul, serial, parallel, validate-checks, shape_sound, shape_complete,
  IsDevice-sound, IsDevice-complete,
}

any-append {ℓ} : {A : Type ℓ} (p : A → Bool) (s t : List A) → any p (s ++ t) ≡ (any p s || any p t)
any-append p [] t = refl
any-append p (c ∷ s) t = ground (arith, any-append p s t)

digits-safe : (s : Text) → all is_digit s ≡ true → any is_unsafe_character s ≡ false
unfolding is_unsafe_character
digits-safe [] h = refl
digits-safe (c ∷ s) h = ground (arith, digits-safe s)

utf16_count-digits : (s : Text) → all is_digit s ≡ true → utf16_count s ≡ length s
unfolding utf16_count
utf16_count-digits [] h = refl
utf16_count-digits (c ∷ s) h = ground (arith, utf16_count-digits s)

counter-characters :
    (n : ℕ) (t : Text) → any is_unsafe_character (counter n t) ≡ any is_unsafe_character t
unfolding counter is_unsafe_character
counter-characters n t = ground (
  arith,
  any-append is_unsafe_character (decimal n) (b')' ∷ t),
  digits-safe (decimal n) (decimal-digits n),
)

utf16_count-counter : (n : ℕ) (t : Text) → n < 1000 → utf16_count (counter n t) ≤ 6 + utf16_count t
unfolding counter utf16_count
utf16_count-counter n t h = ground (
  arith,
  utf16_count-append (decimal n) (b')' ∷ t),
  utf16_count-digits (decimal n) (decimal-digits n),
  length-decimal n h,
)

-- The end of a text is the end of its last part.
ends-append :
    (s : Text) (c : ℕ) (t : Text)
    → ends_with_dot_or_space (s ++ c ∷ t) ≡ ends_with_dot_or_space (c ∷ t)
unfolding ends_with_dot_or_space
ends-append [] c t = refl
ends-append (x ∷ []) c t = refl
ends-append (x ∷ y ∷ s) c t = ends-append (y ∷ s) c t

abbrev has_paren : Text → Bool
has_paren = any (λ c. c == b'(')

IsDevice-no_paren : (s : Text) → IsDevice s → has_paren s ≡ false
IsDevice-no_paren s (console e) = rw e
IsDevice-no_paren s (prn e) = rw e
IsDevice-no_paren s (aux e) = rw e
IsDevice-no_paren s (nul e) = rw e
IsDevice-no_paren s (serial d low high e) = rw e (ground arith)
IsDevice-no_paren s (parallel d low high e) = rw e (ground arith)

upper-paren : (s : Text) → has_paren (map ascii_upper s) ≡ has_paren s
unfolding ascii_upper
upper-paren [] = refl
upper-paren (c ∷ s) = ground (arith, upper-paren s)

abbrev is_dot : ℕ → Bool
is_dot c = c == b'.'

-- Before its first dot a numbered name reads as the name did, if the stem has a dot; and else it
-- shows the parenthesis of the number.
first_segment-dotted : (s t : Text) → any is_dot s ≡ true → first_segment (s ++ t) ≡ first_segment s
unfolding first_segment
first_segment-dotted [] t h = cc
first_segment-dotted (c ∷ s) t h = ground (arith, first_segment-dotted s t)

first_segment-undotted :
    (s t : Text)
    → any is_dot s ≡ false
    → has_paren (first_segment t) ≡ true
    → has_paren (first_segment (s ++ t)) ≡ true
unfolding first_segment
first_segment-undotted [] t h p = p
first_segment-undotted (c ∷ s) t h p = ground (arith, first_segment-undotted s t)

counter-paren : (n : ℕ) (t : Text) → has_paren (first_segment (counter n t)) ≡ true
unfolding counter first_segment
counter-paren n t = refl

numbered-no-IsDevice :
    (s t : Text) (n : ℕ)
    → ¬ IsDevice (device_stem (s ++ t))
    → ¬ IsDevice (device_stem (s ++ counter n t))
unfolding device_stem
numbered-no-IsDevice s t n h d = elim (Bool-cases (any is_dot s)) [
  | inl dotted ↦ h (
      subst (λ x. IsDevice (map ascii_upper x))
        (first_segment-dotted s (counter n t) dotted ∙ sym (first_segment-dotted s t dotted)) d)
  | inr undotted ↦ cc (
    first_segment-undotted s (counter n t) undotted (counter-paren n t),
    upper-paren (first_segment (s ++ counter n t)),
    IsDevice-no_paren _ d,
  )
]

abbrev IsTail : Text → Type 0
IsTail t = (t ≡ []) ⊎ ((c : ℕ) × (u : Text) × (t ≡ c ∷ u))

counter-ending :
    (s t : Text) (n : ℕ)
    → ends_with_dot_or_space (s ++ counter n t) ≡ ends_with_dot_or_space (b')' ∷ t)
unfolding counter
counter-ending s t n =
    ends-append s b' ' (b'(' ∷ (decimal n ++ b')' ∷ t))
    ∙ ends-append (b' ' ∷ b'(' ∷ decimal n) b')' t

numbered-ending :
    (s t : Text) (n : ℕ)
    → IsTail t
    → ends_with_dot_or_space (s ++ t) ≡ false
    → ends_with_dot_or_space (s ++ counter n t) ≡ false
numbered-ending s t n (inl e) h =
    counter-ending s t n ∙ rw e (unfold ends_with_dot_or_space in refl)
numbered-ending s t n (inr (c, u, e)) h =
    counter-ending s t n ∙ rw e (ends-append (b')' ∷ []) c u ∙ sym (ends-append s c u) ∙ rw e at h)

-- A number put between two parts of a safe name that leaves room for it keeps the name safe.
numbered-valid :
    (s t : Text) (n : ℕ)
    → n < 1000
    → IsTail t
    → utf16_count (s ++ t) ≤ 249
    → validate_output_name (s ++ t) ≡ ok tt
    → validate_output_name (s ++ counter n t) ≡ ok tt
numbered-valid s t n n_small tail short valid =
    let (shape, device) = (validate-checks (s ++ t)).0 valid in
    let (full, fits, plain, ending) = shape_sound (s ++ t) shape in
    (validate-checks (s ++ counter n t)).1 (
      shape_complete (s ++ counter n t) still_full still_fits (still_plain plain)
          (numbered-ending s t n tail ending),
      IsDevice-complete _ (numbered-no-IsDevice s t n (IsDevice-sound _ device)),
    )
  where
    still_full : s ++ counter n t ≢ []
    still_full e =
        absurd (omega (arith, ap length e, length-append s (counter n t), length-counter n t))

    still_fits : utf16_count (s ++ counter n t) ≤ 255
    still_fits = omega (
      arith,
      short,
      utf16_count-append s t,
      utf16_count-append s (counter n t),
      utf16_count-counter n t n_small,
    )

    still_plain :
        any is_unsafe_character (s ++ t) ≡ false
        → any is_unsafe_character (s ++ counter n t) ≡ false
    still_plain h = ground (
      arith,
      h,
      any-append is_unsafe_character s t,
      any-append is_unsafe_character s (counter n t),
      counter-characters n t,
    )

split-valid :
    (name : Text) (p : Text × Option Text) (n : ℕ)
    → n < 1000
    → utf16_count name ≤ 249
    → validate_output_name name ≡ ok tt
    → Splits name p
    → validate_output_name (numbered p n) ≡ ok tt
unfolding numbered
split-valid name p n n_small short valid (whole _) =
    numbered-valid name [] n n_small (inl refl) (rw (append-nil name) short)
      (rw (append-nil name) valid)
split-valid name p n n_small short valid (parts c before [] e) =
    let (shape, _) = (validate-checks name).0 valid in
    let (_, _, _, ending) = shape_sound name shape in
    cc
      (ap ends_with_dot_or_space (last_dot-join name (c ∷ before) [] e), ends_with_dot (c ∷ before))
split-valid name p n n_small short valid (parts c before (d ∷ ext) e) =
    let join = last_dot-join name (c ∷ before) (d ∷ ext) e in
    numbered-valid (c ∷ before) (b'.' ∷ d ∷ ext) n n_small (inr (b'.', d ∷ ext, refl))
      (subst (λ x. utf16_count x ≤ 249) join short)
      (subst (λ x. validate_output_name x ≡ ok tt) join valid)

-- If the requested name is a safe name of at most 249 UTF-16 units, each of the thousand attempts
-- at it is a safe name: the loop over attempts is never stopped or thinned out by the validation.
pub collision_name-valid :
    (name : Text) (n : ℕ)
    → n < 1000
    → utf16_count name ≤ 249
    → validate_output_name name ≡ ok tt
    → validate_output_name (collision_name name n) ≡ ok tt
collision_name-valid name zero n_small short valid = rw (first_attempt name) valid
collision_name-valid name (suc n) n_small short valid =
    let (shape, _) = (validate-checks name).0 valid in
    let (_, _, _, ending) = shape_sound name shape in
    rw (later_attempt name n) (
      split-valid name _ (suc n) n_small short valid
        (split-Splits name (safe-not_dots name ending)))
