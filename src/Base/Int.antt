-- ===== src/Base/Int.antt =====
-- Signed integers over the native numbers, the comparisons of the source, and the conversions
-- between signed and unsigned words.
use Prim.Native.Nat.{ℕ, ◌-◌, ◌%◌, ◌^◌}
use mathlib.Core.Bool.{Bool, true, false, ◌&&◌}
use apilib.Base.Tests.{ltb, leb, if◌then◌else◌}

-- `negsuc n` is -(n + 1).
pub data ℤ : Type 0 where
  pos : ℕ → ℤ
  negsuc : ℕ → ℤ

abbrev pub leb_ℤ : ℤ → ℤ → Bool
leb_ℤ (pos a) (pos b) = leb a b
leb_ℤ (pos a) (negsuc b) = false
leb_ℤ (negsuc a) (pos b) = true
leb_ℤ (negsuc a) (negsuc b) = leb b a

-- `lo <= z && z <= hi`
abbrev pub between : ℤ → ℤ → ℤ → Bool
between lo hi z = leb_ℤ lo z && leb_ℤ z hi

-- Conversion to an unsigned type of `w` bits: reduction modulo 2^w.
abbrev pub to_word : ℕ → ℤ → ℕ
to_word w (pos n) = n % 2 ^ w
to_word w (negsuc n) = 2 ^ w - 1 - n % 2 ^ w

-- The signed value of a word of `w` bits, in two's complement.
abbrev pub of_word : ℕ → ℕ → ℤ
of_word w x = if ltb x (2 ^ (w - 1)) then pos x else negsuc (2 ^ w - 1 - x)

-- Conversion to a signed type of `w` bits.
abbrev pub narrow : ℕ → ℤ → ℤ
narrow w z = of_word w (to_word w z)
