-- ===== src/TextToPdf/Admission.antt =====
-- What one pass of the loop of `preflight_text` admits, and how passes follow each other.
use document_studio.Base.{
  ℕ, suc, ◌+◌, ◌≤◌, Bool, true, false, not, ◌||◌, ◌==◌, [], ◌∷◌, ◌++◌, length, All, some,
  Bool-cases, inl, inr, ◌⊎◌, Result, ok, ◌>>=◌, ◌>>◌, ok_or, arith, ◌≡◌, sym, ap, subst, ◌∙◌,
  >>=-eq-ok, refused_not, ok_or-eq-ok, map_err-eq-ok, ok-injective,
}
use document_studio.Base.Text.{Text}
use document_studio.Contracts.Errors.{OperationError}
use document_studio.TextToPdf.Errors.{unsupported_unicode, font_error}
use document_studio.TextToPdf.Characters.{
  AdmittedScript, is_rejected_control, is_bidi_control, is_noncharacter, admitted_script,
  font_index, is_combining_or_default_ignorable, is_joiner,
}
use document_studio.TextToPdf.Joiners.{validate_joiner}
use document_studio.TextToPdf.Lines.{line_feed}
use document_studio.TextToPdf.Preflight.{refuse_class, script_at, next_run}
use document_studio.TextToPdf.Cache.{
  Progress, ask_font, admit_covered, admit_character, admit_characters,
}

-- None of the four refused classes.
unfoldable pub is_refused : ℕ → Bool
is_refused code =
    code == 0xfeff || (is_rejected_control code || (is_bidi_control code || is_noncharacter code))

refuse_class_sound : (code : ℕ) → refuse_class code ≡ ok tt → is_refused code ≡ false
unfolding refuse_class is_refused
refuse_class_sound code h = ground arith

next_run_sound :
    (code run next : ℕ)
    → next_run code run ≡ ok next
    → (next ≤ 32) × (is_combining_or_default_ignorable code ≡ true → next ≡ run + 1)
unfolding next_run
next_run_sound code run next h = ground arith

not-false : (b : Bool) → not b ≡ false → b ≡ true
not-false b h = ground arith

module _ (cmap_contains : ℕ → ℕ → Result (Unit {0}) Bool) where
  -- A joiner or a character of an admitted script, and in the font of a script.
  abbrev pub IsCovered : ℕ → Type 0
  IsCovered code =
      (script : AdmittedScript) × ((is_joiner code ≡ true) ⊎ (admitted_script code ≡ some script))
      × (cmap_contains (font_index script) code ≡ ok true)

  -- A line feed, a tab, or a character outside the refused classes that a font covers.
  abbrev pub IsAdmitted : ℕ → Type 0
  IsAdmitted code =
      ((code == line_feed || code == 9) ≡ true) ⊎ ((is_refused code ≡ false) × IsCovered code)

  -- What is known of a character after its pass, and of the run of marks that it leaves.
  abbrev pub IsPassed : Text → ℕ → ℕ → ℕ → ℕ → Type 0
  IsPassed chars index code run next =
      IsAdmitted code
      × (next ≤ 32)
      × (is_combining_or_default_ignorable code ≡ true → next ≡ run + 1)
      × (is_joiner code ≡ true
          → (script : AdmittedScript) × (validate_joiner chars index ≡ ok script))

  script_at_sound :
      (chars : Text) (index code : ℕ) (script : AdmittedScript)
      → script_at chars index code ≡ ok script
      → ((is_joiner code ≡ true) ⊎ (admitted_script code ≡ some script))
        × (is_joiner code ≡ true → validate_joiner chars index ≡ ok script)
  unfolding script_at
  script_at_sound chars index code script h = elim (Bool-cases (is_joiner code)) [
    | inl e ↦ (inl e, λ _. rw e at h)
    | inr e ↦
        let plain : ok_or (admitted_script code) unsupported_unicode ≡ ok script = rw e at h in
        (inr (ok_or-eq-ok (admitted_script code) unsupported_unicode plain), λ joiner. cc (joiner))
  ]

  pub admit_character-IsPassed :
      (chars : Text) (index code : ℕ) (progress next : Progress)
      → admit_character cmap_contains chars index code progress ≡ ok next
      → IsPassed chars index code (progress.0) (next.0)
  unfolding admit_character admit_covered ask_font
  admit_character-IsPassed chars index code progress next h =
      elim (Bool-cases (code == line_feed || code == 9)) [
        | inl e ↦
            let reset : ◌≡◌ {A = Result OperationError Progress} (ok (0, progress.1)) (ok next) =
              rw e at h in
            let same = ap (λ (p : Progress). p.0) (ok-injective reset) in
            (
              inl e,
              ground arith,
              unfold is_combining_or_default_ignorable in ground arith,
              unfold is_joiner in ground arith,
            )
        | inr e ↦
            let passes : (refuse_class code
                  >> (script_at chars index code >>= λ script.
                      ask_font cmap_contains (font_index script) code
                      >>= admit_covered script code progress))
                ≡ ok next =
              rw e at h in
            let (_, classed, h1) = >>=-eq-ok (refuse_class code) _ passes in
            let (script, found, h2) = >>=-eq-ok (script_at chars index code) _ h1 in
            let (covered, asked, h3) =
              >>=-eq-ok (ask_font cmap_contains (font_index script) code) _ h2 in
            let (shown, h4) = refused_not (not covered) _ _ h3 in
            let (run, counted, h5) = >>=-eq-ok (next_run code (progress.0)) _ h4 in
            let spoken = script_at_sound chars index code script found in
            let counts = next_run_sound code (progress.0) run counted in
            let same : run ≡ next.0 = ap (λ (p : Progress). p.0) (ok-injective h5) in
            let answered =
              map_err-eq-ok (λ _. font_error) (cmap_contains (font_index script) code) asked in
            (
              inr (
                refuse_class_sound code classed,
                (script, spoken.0, answered ∙ ap ok (not-false covered shown)),
              ),
              rw same at (counts.0),
              λ mark. rw same at (counts.1 mark),
              λ joiner. (script, spoken.1 joiner),
            )
      ]

  -- After the characters before it, a character has its pass, at its own index and after a run of at
  -- most 32 marks.
  pub admit_characters_reach :
      (chars : Text) (index : ℕ) (before : Text) (code : ℕ) (after : Text)
      (progress last : Progress)
      → progress.0 ≤ 32
      → admit_characters cmap_contains chars index (before ++ code ∷ after) progress ≡ ok last
      → (now : Progress) × (next : Progress) × (now.0 ≤ 32)
        × IsPassed chars (index + length before) code (now.0) (next.0)
        × (admit_characters cmap_contains chars (index + length before + 1) after next ≡ ok last)
  unfolding admit_characters
  admit_characters_reach chars index [] code after progress last small h =
      let (next, passed, rest) =
        >>=-eq-ok (admit_character cmap_contains chars index code progress) _ h in
      let here : index + 0 ≡ index = omega arith in
      (
        progress,
        next,
        small,
        subst (λ i. IsPassed chars i code (progress.0) (next.0)) (sym here)
            (admit_character-IsPassed chars index code progress next passed),
        subst (λ i. admit_characters cmap_contains chars (i + 1) after next ≡ ok last) (sym here)
            rest,
      )
  admit_characters_reach chars index (c ∷ before) code after progress last small h =
      let (next, passed, rest) =
        >>=-eq-ok (admit_character cmap_contains chars index c progress) _ h in
      let found = admit_character-IsPassed chars index c progress next passed in
      let further : index + 1 + length before ≡ index + suc (length before) = omega arith in
      subst
        (λ i.
          (now : Progress) × (next : Progress) × (now.0 ≤ 32)
          × IsPassed chars i code (now.0) (next.0)
          × (admit_characters cmap_contains chars (i + 1) after next ≡ ok last))
        further
        (admit_characters_reach chars (index + 1) before code after next last (found.1) rest)

  pub admit_characters-IsAdmitted :
      (chars : Text) (index : ℕ) (rest : Text) (progress last : Progress)
      → admit_characters cmap_contains chars index rest progress ≡ ok last
      → All IsAdmitted rest
  unfolding admit_characters
  admit_characters-IsAdmitted chars index [] progress last h = tt
  admit_characters-IsAdmitted chars index (code ∷ rest) progress last h =
      let (next, passed, more) =
        >>=-eq-ok (admit_character cmap_contains chars index code progress) _ h in
      (
        (admit_character-IsPassed chars index code progress next passed).0,
        admit_characters-IsAdmitted chars (index + 1) rest next last more,
      )

  -- From a run on, marks in a row make it longer, and it stays within 32.
  pub marks_in_a_row :
      (chars : Text) (index : ℕ) (marks after : Text) (progress last : Progress)
      → progress.0 ≤ 32
      → All (λ code. is_combining_or_default_ignorable code ≡ true) marks
      → admit_characters cmap_contains chars index (marks ++ after) progress ≡ ok last
      → progress.0 + length marks ≤ 32
  unfolding admit_characters
  marks_in_a_row chars index [] after progress last small marked h = omega (arith, small)
  marks_in_a_row chars index (code ∷ marks) after progress last small marked h =
      let (next, passed, rest) =
        >>=-eq-ok (admit_character cmap_contains chars index code progress) _ h in
      let found = admit_character-IsPassed chars index code progress next passed in
      let more = marks_in_a_row chars (index + 1) marks after next last (found.1) (marked.1) rest in
      let longer = found.2 (marked.0) in omega arith
