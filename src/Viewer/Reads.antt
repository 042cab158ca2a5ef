-- ===== src/Viewer/Reads.antt =====
-- What `read_exact_at`, `copy_snapshot` and `read_range` of viewer_sessions.rs read, when the file system
-- reads as it is documented.
use document_studio.Base.{
  ℕ, zero, suc, ◌+◌, ◌-◌, ◌^◌, ◌≤◌, ◌<◌, true, false, ltb, ◌==◌, List, [], ◌∷◌, ◌++◌, length,
  length-append, take, drop, some, Bool-cases, inl, inr, Result, ok, err, ◌>>=◌, ◌>>◌, refuse_if,
  ok_or, >>=-eq-ok, refused_not, ok_or-eq-ok, ok-injective, arith, ◌≡◌, refl, sym, ap, subst, ◌∙◌,
}
use document_studio.TextToPdf.Html.{checked_usize}
use document_studio.TextToPdf.Fonts.Bytes.{Failure}
use document_studio.TextToPdf.Fonts.Tables.{checked_sum}
use document_studio.Viewer.Files.{SeekRead, read_passes, read_exact_at}

-- `seek_read` gives bytes of the file from the offset on, and not more than asked for; and at an
-- offset inside of the file it gives some.
abbrev pub IsPartial : SeekRead → List ℕ → Type 0
IsPartial seek_read content =
    (size offset : ℕ) (bytes : List ℕ)
    → seek_read size offset ≡ some bytes
    → (length bytes ≤ size) × (bytes ≡ take (length bytes) (drop offset content))

abbrev pub IsLive : SeekRead → List ℕ → Type 0
IsLive seek_read content =
    (size offset : ℕ)
    → 1 ≤ size
    → offset < length content
    → (bytes : List ℕ) × (seek_read size offset ≡ some bytes) × (1 ≤ length bytes)

drop-nil : (n : ℕ) → drop {A = ℕ} n [] ≡ []
drop-nil zero = refl
drop-nil (suc n) = refl

take-nil : (n : ℕ) → take {A = ℕ} n [] ≡ []
take-nil zero = refl
take-nil (suc n) = refl

pub drop-drop : (m n : ℕ) (xs : List ℕ) → drop n (drop m xs) ≡ drop (m + n) xs
drop-drop zero n xs = ap (λ k. drop k xs) (omega arith)
drop-drop (suc m) n [] = drop-nil n ∙ sym (drop-nil (suc m + n))
drop-drop (suc m) n (x ∷ xs) =
    let next : suc (m + n) ≡ suc m + n = omega arith in
    drop-drop m n xs ∙ ap (λ k. drop k (x ∷ xs)) next

take-append : (m n : ℕ) (xs : List ℕ) → take m xs ++ take n (drop m xs) ≡ take (m + n) xs
take-append zero n xs = ap (λ k. take k xs) (omega arith)
take-append (suc m) n [] = take-nil n ∙ sym (take-nil (suc m + n))
take-append (suc m) n (x ∷ xs) =
    let next : suc (m + n) ≡ suc m + n = omega arith in
    ap (λ t. x ∷ t) (take-append m n xs) ∙ ap (λ k. take k (x ∷ xs)) next

-- A part of a file, then what is left of the range after it.
two_parts :
    (content bytes : List ℕ) (offset left : ℕ)
    → length bytes ≤ left
    → bytes ≡ take (length bytes) (drop offset content)
    → bytes ++ take (left - length bytes) (drop (offset + length bytes) content)
      ≡ take left (drop offset content)
two_parts content bytes offset left small part =
    let rest = drop offset content in
    let whole : length bytes + (left - length bytes) ≡ left = omega (arith, small) in
    ap (λ t. bytes ++ take (left - length bytes) t) (sym (drop-drop offset (length bytes) content))
    ∙ ap (λ t. t ++ take (left - length bytes) (drop (length bytes) rest)) part
    ∙ take-append (length bytes) (left - length bytes) rest
    ∙ ap (λ k. take k rest) whole

module _ (seek_read : SeekRead) (content : List ℕ) (partial_ : IsPartial seek_read content) where
  pub read_passes_sound :
      (passes left offset : ℕ) (out : List ℕ)
      → read_passes seek_read passes left offset ≡ ok out
      → (out ≡ take left (drop offset content)) × (length out ≡ left)
  unfolding read_passes
  read_passes_sound zero left offset out h = elim (Bool-cases (left == 0)) [
    | inl e ↦
        let same : ◌≡◌ {A = Result Failure (List ℕ)} (ok []) (ok out) = rw e at h in
        let none_left : left ≡ 0 = ground arith in
        rw none_left (subst (λ o. (o ≡ []) × (length o ≡ 0)) (ok-injective same) (refl, refl))
    | inr e ↦
        let never : ◌≡◌ {A = Result Failure (List ℕ)} (err tt) (ok out) = rw e at h in cc (never)
  ]
  read_passes_sound (suc passes) left offset out h = elim (Bool-cases (left == 0)) [
    | inl e ↦
        let same : ◌≡◌ {A = Result Failure (List ℕ)} (ok []) (ok out) = rw (e, read_passes) at h in
        let none_left : left ≡ 0 = ground arith in
        rw none_left (subst (λ o. (o ≡ []) × (length o ≡ 0)) (ok-injective same) (refl, refl))
    | inr e ↦
        let pass : (ok_or (seek_read left offset) tt >>= λ bytes.
        refuse_if (length bytes == 0) tt
        >> (ok_or (checked_usize (offset + length bytes)) tt >>= λ next.
            read_passes seek_read passes (left - length bytes) next >>= λ rest. ok (bytes ++ rest)))
            ≡ ok out =
          rw (e, read_passes) at h in
        let (bytes, given, h1) = >>=-eq-ok (ok_or (seek_read left offset) tt) _ pass in
        let (some_read, h2) = refused_not (length bytes == 0) _ _ h1 in
        let (next, summed, h3) =
          >>=-eq-ok (ok_or (checked_usize (offset + length bytes)) tt) _ h2 in
        let (rest, more, h4) =
          >>=-eq-ok (read_passes seek_read passes (left - length bytes) next) _ h3 in
        let (small, part) =
          partial_ left offset bytes (ok_or-eq-ok (seek_read left offset) tt given) in
        let at_next = sym (
          checked_sum (offset + length bytes) next
            (ok_or-eq-ok (checked_usize (offset + length bytes)) tt summed)) in
        let (rest_is, rest_long) = read_passes_sound passes (left - length bytes) next rest more in
        subst (λ o. (o ≡ take left (drop offset content)) × (length o ≡ left)) (ok-injective h4)
          (
            ap (λ t. bytes ++ t) rest_is
                ∙ ap (λ k. bytes ++ take (left - length bytes) (drop k content)) at_next
                ∙ two_parts content bytes offset left small part,
            omega (arith, length-append bytes rest, rest_long, small),
          )
  ]

  pub read_passes_live :
      IsLive seek_read content
      → length content < 2 ^ 64
      → (passes left offset : ℕ) → left ≤ passes
      → offset + left ≤ length content
      → (out : List ℕ) × (read_passes seek_read passes left offset ≡ ok out)
  unfolding read_passes
  read_passes_live live room zero left offset enough inside =
      let none_left : (left == 0) ≡ true = ground (arith, enough) in ([], rw none_left)
  read_passes_live live room (suc passes) left offset enough inside =
      elim (Bool-cases (left == 0)) [
        | inl e ↦ ([], rw (e, read_passes))
        | inr e ↦
            let (bytes, given, some_read) =
              live left offset (ground arith) (ground (arith, inside)) in
            let (small, part) = partial_ left offset bytes given in
            let (rest, more) =
              read_passes_live live room passes (left - length bytes) (offset + length bytes)
                (omega (arith, enough, some_read, small)) (omega (arith, inside, small)) in
            let not_empty : (length bytes == 0) ≡ false = ground (arith, some_read) in
            let fits : ltb (offset + length bytes) (2 ^ 64) ≡ true =
              ground (arith, room, inside, small) in
            (bytes ++ rest, rw (e, read_passes) (rw given (rw not_empty (rw fits (rw more refl)))))
      ]

  -- When the file system reads as it is documented, `read_exact_at` gives exactly the bytes of every
  -- range inside of the file: it ends, after as many reads as it takes, and fails in no other way.
  pub read_exact_at_lem :
      IsLive seek_read content
      → length content < 2 ^ 64
      → (size offset : ℕ) → offset + size ≤ length content
      → read_exact_at seek_read size offset ≡ ok (take size (drop offset content))
  unfolding read_exact_at
  read_exact_at_lem live room size offset inside =
      let (out, done) = read_passes_live live room size size offset (omega arith) inside in
      done ∙ ap ok ((read_passes_sound size size offset out done).0)
