-- ===== src/Prelude/Words.antt =====
-- 64-bit machine words. A word is its bit pattern, a number below 2 ^ 64: `uint64` reads it as it
-- stands, `int64` reads it in two's complement. A conversion between the two keeps the pattern.
use Prim.Native.Nat.{ℕ, ◌+◌, ◌-◌, ◌%◌, ◌^◌}
use mathlib.Core.Bool.{Bool}
use cosmos_pay.Prelude.Tests.{ltb}

abbrev pub word : ℕ
word = 2 ^ 64

-- the first pattern that `int64` reads as negative
abbrev pub half_word : ℕ
half_word = 2 ^ 63

abbrev pub add64 : ℕ → ℕ → ℕ
add64 a b = (a + b) % word

-- a - b on words: `-` on ℕ stops at 0, so the modulus is added first
abbrev pub sub64 : ℕ → ℕ → ℕ
sub64 a b = (a + (word - b % word)) % word

-- a < b on `int64`: flipping the sign bit turns the signed order into the unsigned one
abbrev pub signed_ltb : ℕ → ℕ → Bool
signed_ltb a b = ltb ((a + half_word) % word) ((b + half_word) % word)
