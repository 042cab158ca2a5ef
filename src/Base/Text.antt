-- ===== src/Base/Text.antt =====
-- Text as the program walks it: a list of Unicode code points (Rust's `char`s).
use Prim.Native.Char.{code}
use Prim.Native.String.{String}
use Prim.Native.Nat.{ℕ, ◌+◌, ◌-◌}
use mathlib.Core.Path.{◌≡◌}
use mathlib.Core.Logic.{◌↔◌}
use mathlib.Core.Bool.{Bool, true, false, ◌&&◌}
use mathlib.Core.Option.{Option, none, some}
use mathlib.Core.List.{List, [], ◌∷◌, ◌++◌}
use native.Mathlib.Omega.{arith}
use document_studio.Base.Tests.{ltb, leb, ◌==◌, if◌then◌else◌, within}
use document_studio.Base.Lists.{length, drop}

abbrev pub Text : Type 0
Text = List ℕ

abbrev pub codes : String → Text
codes String.[] = []
codes (String.◌∷◌ c s) = code c ∷ codes s

-- `==` on `str`.
unfoldable pub text_eq : Text → Text → Bool
text_eq [] [] = true
text_eq (a ∷ s) (b ∷ t) = (a == b) && text_eq s t
text_eq _ _ = false

-- `encode_utf16().count()`: characters outside the basic plane take two units.
unfoldable pub utf16_count : Text → ℕ
utf16_count [] = 0
utf16_count (c ∷ s) = (if ltb c 0x10000 then 1 else 2) + utf16_count s

-- `len()`: the bytes of the text in UTF-8.
abbrev pub utf8_width : ℕ → ℕ
utf8_width c = if ltb c 0x80 then 1 else if ltb c 0x800 then 2 else if ltb c 0x10000 then 3 else 4

unfoldable pub utf8_len : Text → ℕ
utf8_len [] = 0
utf8_len (c ∷ s) = utf8_width c + utf8_len s

-- `to_ascii_uppercase` and `to_ascii_lowercase`.
unfoldable pub ascii_upper : ℕ → ℕ
ascii_upper c = if within b'a' b'z' c then c - 32 else c

unfoldable pub ascii_lower : ℕ → ℕ
ascii_lower c = if within b'A' b'Z' c then c + 32 else c

-- `strip_prefix`.
unfoldable pub strip_prefix : Text → Text → Option Text
strip_prefix [] t = some t
strip_prefix (p ∷ ps) [] = none
strip_prefix (p ∷ ps) (c ∷ t) = if p == c then strip_prefix ps t else none

-- `starts_with`.
unfoldable pub starts_with : Text → Text → Bool
starts_with [] t = true
starts_with (p ∷ ps) [] = false
starts_with (p ∷ ps) (c ∷ t) = (p == c) && starts_with ps t

-- `ends_with`.
unfoldable pub ends_with : Text → Text → Bool
unfolding text_eq
ends_with suffix t =
    leb (length suffix) (length t) && text_eq (drop (length t - length suffix) t) suffix

pub text_eq_iff : (s t : Text) → (text_eq s t ≡ true) ↔ (s ≡ t)
unfolding text_eq
text_eq_iff [] [] = ground arith
text_eq_iff [] (b ∷ t) = ground arith
text_eq_iff (a ∷ s) [] = ground arith
text_eq_iff (a ∷ s) (b ∷ t) = ground (arith, text_eq_iff s t)

pub utf16_count-append : (s t : Text) → utf16_count (s ++ t) ≡ utf16_count s + utf16_count t
unfolding utf16_count
utf16_count-append [] t = omega arith
utf16_count-append (c ∷ s) t = ground (arith, utf16_count-append s t)

pub strip_prefix-join : (p t rest : Text) → (strip_prefix p t ≡ some rest) ↔ (t ≡ p ++ rest)
unfolding strip_prefix
strip_prefix-join [] t rest = (λ h. ground arith, λ h. ground arith)
strip_prefix-join (c ∷ p) [] rest = (λ h. ground arith, λ h. ground arith)
strip_prefix-join (c ∷ p) (d ∷ t) rest = (
  λ h. ground (arith, strip_prefix-join p t rest),
  λ h. ground (arith, strip_prefix-join p t rest),
)
