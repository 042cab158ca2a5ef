-- ===== src/OutputNames/Safety.antt =====
-- What `validate_output_name` decides, and which attempts at a safe name are safe.
use document_studio.Base.{
  ◌-◌, Option, none, some, ℕ, ◌+◌, ◌≤◌, true, false, [], ◌∷◌, ◌++◌, ◌≡◌, ◌≢◌, ◌↔◌, refl, ap, inl,
  inr, arith, ◌==◌, ◌||◌, any, All, Bool-cases, ok,
}
use document_studio.Base.Text.{
  Text, codes, text_eq, text_eq_iff, utf16_count, strip_prefix, strip_prefix-join,
}
use document_studio.OutputNames.Policy.{
  validate_output_name, has_unsafe_shape, is_reserved, reserved_number, device_stem,
  is_unsafe_character, ends_with_dot_or_space,
}

-- The device names of Windows, in upper case.
pub data IsDevice (s : Text) : Type 0 where
  console : s ≡ codes "CON" → IsDevice s
  prn : s ≡ codes "PRN" → IsDevice s
  aux : s ≡ codes "AUX" → IsDevice s
  nul : s ≡ codes "NUL" → IsDevice s
  serial : (d : ℕ) → 1 ≤ d → d ≤ 9 → s ≡ codes "COM" ++ (b'0' + d) ∷ [] → IsDevice s
  parallel : (d : ℕ) → 1 ≤ d → d ≤ 9 → s ≡ codes "LPT" ++ (b'0' + d) ∷ [] → IsDevice s

reserved_number-digit :
    (o : Option Text)
    → reserved_number o ≡ true
    → (d : ℕ) × (1 ≤ d) × (d ≤ 9) × (o ≡ some ((b'0' + d) ∷ []))
unfolding reserved_number
reserved_number-digit none h = cc
reserved_number-digit (some []) h = cc
reserved_number-digit (some (c ∷ [])) h =
    let low : 49 ≤ c = ground arith in
    (c - 48, ground arith, ground arith, ap (λ n. some (n ∷ [])) (omega arith))
reserved_number-digit (some (c ∷ d ∷ s)) h = cc

digit-reserved_number : (d : ℕ) → 1 ≤ d → d ≤ 9 → reserved_number (some ((b'0' + d) ∷ [])) ≡ true
unfolding reserved_number
digit-reserved_number d low high = ground arith

is_reserved-IsDevice : (s : Text) → is_reserved s ≡ true → IsDevice s
unfolding is_reserved
is_reserved-IsDevice s h = elim (Bool-cases (text_eq s (codes "CON"))) [
  | inl e ↦ console ((text_eq_iff s _).0 e)
  | inr n1 ↦ elim (Bool-cases (text_eq s (codes "PRN"))) [
    | inl e ↦ prn ((text_eq_iff s _).0 e)
    | inr n2 ↦ elim (Bool-cases (text_eq s (codes "AUX"))) [
      | inl e ↦ aux ((text_eq_iff s _).0 e)
      | inr n3 ↦ elim (Bool-cases (text_eq s (codes "NUL"))) [
        | inl e ↦ nul ((text_eq_iff s _).0 e)
        | inr n4 ↦ elim (Bool-cases (reserved_number (strip_prefix (codes "COM") s))) [
          | inl e ↦
              let (d, low, high, o) = reserved_number-digit _ e in
              serial d low high ((strip_prefix-join (codes "COM") s _).0 o)
          | inr n5 ↦
              let last : reserved_number (strip_prefix (codes "LPT") s) ≡ true = ground arith in
              let (d, low, high, o) = reserved_number-digit _ last in
              parallel d low high ((strip_prefix-join (codes "LPT") s _).0 o)
        ]
      ]
    ]
  ]
]

IsDevice-is_reserved : (s : Text) → IsDevice s → is_reserved s ≡ true
unfolding is_reserved
IsDevice-is_reserved s (console e) = ground (arith, text_eq_iff s (codes "CON"))
IsDevice-is_reserved s (prn e) = ground (arith, text_eq_iff s (codes "PRN"))
IsDevice-is_reserved s (aux e) = ground (arith, text_eq_iff s (codes "AUX"))
IsDevice-is_reserved s (nul e) = ground (arith, text_eq_iff s (codes "NUL"))
IsDevice-is_reserved s (serial d low high e) =
    let found = (strip_prefix-join (codes "COM") s _).1 e in
    ground (arith, found, digit-reserved_number d low high)
IsDevice-is_reserved s (parallel d low high e) =
    let found = (strip_prefix-join (codes "LPT") s _).1 e in
    ground (arith, found, digit-reserved_number d low high)

-- The characters that no file name may hold.
abbrev pub forbidden : Text
forbidden = codes "<>:\"/\\|?*"

abbrev pub IsPlain : ℕ → Type 0
IsPlain c = (b' ' ≤ c) × All (λ f. c ≢ f) forbidden

-- A file name that Windows takes literally, as one component of a path.
pub record IsSafeName (name : Text) : Type 0 where
  pub nonempty : name ≢ []
  pub short : utf16_count name ≤ 255
  pub plain : All IsPlain name
  pub ending : (s : Text) (c : ℕ) → name ≡ s ++ c ∷ [] → (c ≢ b'.') × (c ≢ b' ')
  pub no_device : ¬ IsDevice (device_stem name)

pub ends-last : (s : Text) (c : ℕ) → ends_with_dot_or_space (s ++ c ∷ []) ≡ (c == b'.' || c == b' ')
unfolding ends_with_dot_or_space
ends-last [] c = refl
ends-last (x ∷ []) c = refl
ends-last (x ∷ y ∷ s) c = ends-last (y ∷ s) c

abbrev EndsSafely : Text → Type 0
EndsSafely name = (s : Text) (c : ℕ) → name ≡ s ++ c ∷ [] → (c ≢ b'.') × (c ≢ b' ')

pub shape_sound :
    (name : Text)
    → has_unsafe_shape name ≡ false
    → (name ≢ [])
      × (utf16_count name ≤ 255)
      × (any is_unsafe_character name ≡ false)
      × (ends_with_dot_or_space name ≡ false)
unfolding has_unsafe_shape
shape_sound [] h = cc
shape_sound (c ∷ s) h = ground (arith, text_eq_iff (c ∷ s) (codes "."))

-- The names `.` and `..` are refused by their ending already.
aliases_end_badly :
    (name : Text)
    → ends_with_dot_or_space name ≡ false
    → (text_eq name (codes ".") ≡ false) × (text_eq name (codes "..") ≡ false)
unfolding ends_with_dot_or_space
aliases_end_badly name h =
    (ground (arith, text_eq_iff name (codes ".")), ground (arith, text_eq_iff name (codes "..")))

pub shape_complete :
    (name : Text)
    → (name ≢ [])
    → (utf16_count name ≤ 255)
    → any is_unsafe_character name ≡ false
    → ends_with_dot_or_space name ≡ false
    → has_unsafe_shape name ≡ false
unfolding has_unsafe_shape
shape_complete [] n u a e = absurd (n refl)
shape_complete (c ∷ s) n u a e = ground (arith, aliases_end_badly (c ∷ s))

pub IsDevice-sound :
    (name : Text) → is_reserved (device_stem name) ≡ false → ¬ IsDevice (device_stem name)
IsDevice-sound name h d = cc (IsDevice-is_reserved (device_stem name) d)

pub IsDevice-complete :
    (name : Text) → ¬ IsDevice (device_stem name) → is_reserved (device_stem name) ≡ false
IsDevice-complete name h = elim (Bool-cases (is_reserved (device_stem name))) [
  | inl e ↦ absurd (h (is_reserved-IsDevice (device_stem name) e))
  | inr e ↦ e
]

pub validate-checks :
    (name : Text)
    → (validate_output_name name ≡ ok tt)
      ↔ ((has_unsafe_shape name ≡ false) × (is_reserved (device_stem name) ≡ false))
unfolding validate_output_name
validate-checks name = (λ h. ground arith, λ h. ground arith)
