-- ===== src/Base/Utf8.antt =====
-- Strict UTF-8 as Rust's standard library reads it (`std::str::from_utf8`, `String::from_utf8` and
-- `String::from_utf8_lossy`) and writes it: bytes and code points are numbers.
use Prim.Native.Nat.{ℕ, ◌+◌, ◌-◌, ◌*◌, ◌/◌, ◌%◌}
use mathlib.Core.Option.{Option, none, some}
use mathlib.Core.List.{List, [], ◌∷◌, ◌++◌, map}
use document_studio.Base.Tests.{ltb, ◌==◌, if◌then◌else◌, within}
use document_studio.Base.Text.{Text}

-- What is open after a byte: nothing, or a character of which `needed` bytes are to come, the next
-- one between `lower` and `upper`.
pub data Pending : Type 0 where
  idle : Pending
  partial : (needed lower upper acc : ℕ) → Pending

-- A byte read where no character is open. `none` stands for an ill-formed sequence.
unfoldable pub start_byte : ℕ → List (Option ℕ) × Pending
start_byte b =
    if ltb b 0x80
    then (some b ∷ [], idle)
    else if within 0xc2 0xdf b
    then ([], partial 1 0x80 0xbf (b - 0xc0))
    else if b == 0xe0
    then ([], partial 2 0xa0 0xbf 0)
    else if b == 0xed
    then ([], partial 2 0x80 0x9f 0xd)
    else if within 0xe1 0xef b
    then ([], partial 2 0x80 0xbf (b - 0xe0))
    else if b == 0xf0
    then ([], partial 3 0x90 0xbf 0)
    else if within 0xf1 0xf3 b
    then ([], partial 3 0x80 0xbf (b - 0xf0))
    else if b == 0xf4
    then ([], partial 3 0x80 0x8f 4)
    else (none ∷ [], idle)

unfoldable pub next_byte : Pending → ℕ → List (Option ℕ) × Pending
next_byte idle b = start_byte b
next_byte (partial needed lower upper acc) b =
    if within lower upper b
    then if needed == 1
      then (some (acc * 64 + (b - 0x80)) ∷ [], idle)
      else ([], partial (needed - 1) 0x80 0xbf (acc * 64 + (b - 0x80)))
    else (none ∷ (start_byte b).0, (start_byte b).1)

unfoldable pub decode_from : Pending → List ℕ → List (Option ℕ)
decode_from idle [] = []
decode_from (partial needed lower upper acc) [] = none ∷ []
decode_from open_ (b ∷ bytes) = let step = next_byte open_ b in step.0 ++ decode_from step.1 bytes

-- Every character, or nothing when a sequence is ill-formed.
unfoldable pub all_some : List (Option ℕ) → Option Text
all_some [] = some []
all_some (none ∷ os) = none
all_some (some c ∷ os) = elim (all_some os) [ none ↦ none | some cs ↦ some (c ∷ cs) ]

unfoldable pub from_utf8 : List ℕ → Option Text
from_utf8 bytes = all_some (decode_from idle bytes)

unfoldable pub replacement : Option ℕ → ℕ
replacement none = 0xfffd
replacement (some c) = c

unfoldable pub from_utf8_lossy : List ℕ → Text
from_utf8_lossy bytes = map replacement (decode_from idle bytes)

-- `String::into_bytes` and `as_bytes`.
unfoldable pub utf8_char : ℕ → List ℕ
utf8_char c =
    if ltb c 0x80
    then c ∷ []
    else if ltb c 0x800
    then (0xc0 + c / 64) ∷ (0x80 + c % 64) ∷ []
    else if ltb c 0x10000
    then (0xe0 + c / 4096) ∷ (0x80 + (c / 64) % 64) ∷ (0x80 + c % 64) ∷ []
    else (0xf0 + c / 262144)
      ∷ (0x80 + (c / 4096) % 64)
      ∷ (0x80 + (c / 64) % 64)
      ∷ (0x80 + c % 64)
      ∷ []

unfoldable pub utf8_bytes : Text → List ℕ
utf8_bytes [] = []
utf8_bytes (c ∷ s) = utf8_char c ++ utf8_bytes s
