-- ===== src/Prelude/Int64.antt =====
-- Go's int64, and time.Duration over it, as its 64-bit pattern: a number below 2 ^ 64.
use Prim.Native.Nat.{ℕ, ◌+◌, ◌-◌, ◌*◌, ◌/◌, ◌%◌, ◌^◌, ◌<◌}
use mathlib.Core.Bool.{Bool}
use retrosaver.Prelude.Tests.{ltb, leb, if◌then◌else◌}

abbrev pub word : ℕ
word = 2 ^ 64

abbrev pub half_word : ℕ
half_word = 2 ^ 63

abbrev pub add64 : ℕ → ℕ → ℕ
add64 a b = (a + b) % word

abbrev pub sub64 : ℕ → ℕ → ℕ
sub64 a b = (a + (word - b)) % word

abbrev pub mul64 : ℕ → ℕ → ℕ
mul64 a b = (a * b) % word

-- Signed order: the sign bit flipped, patterns compare as the integers do.
abbrev pub lt64 : ℕ → ℕ → Bool
lt64 a b = ltb ((a + half_word) % word) ((b + half_word) % word)

abbrev pub le64 : ℕ → ℕ → Bool
le64 a b = leb ((a + half_word) % word) ((b + half_word) % word)

-- Signed division by a positive number: Go's quotient is truncated toward zero.
unfoldable pub div64 : ℕ → ℕ → ℕ
div64 a b = if ltb a half_word then a / b else (word - (word - a) / b) % word

abbrev pub Fits64 : ℕ → Type 0
Fits64 a = a < half_word
