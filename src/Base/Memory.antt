-- ===== src/Base/Memory.antt =====
-- Numbers in memory: the bytes of an unsigned object, in the order of the machine.
use Prim.Native.Nat.{ℕ, zero, suc, ◌+◌, ◌*◌, ◌/◌, ◌%◌, ◌^◌, ◌<◌}
use mathlib.Core.Path.{◌≡◌, refl, ap}
use mathlib.Core.List.{List, [], ◌∷◌, reverse, reverse-append, reverse-reverse}
use native.Mathlib.Omega.{arith}
use native.Mathlib.Nat.{pow-suc}
use apilib.Base.Lists.{length, length-append}

-- The byte order of the machine that runs the code.
pub data Host : Type 0 where
  big_host little_host : Host

abbrev pub little_bytes : ℕ → ℕ → List ℕ
little_bytes zero x = []
little_bytes (suc n) x = x % 256 ∷ little_bytes n (x / 256)

abbrev pub little_value : List ℕ → ℕ
little_value [] = 0
little_value (b ∷ bs) = b + 256 * little_value bs

abbrev pub big_bytes : ℕ → ℕ → List ℕ
big_bytes n x = reverse (little_bytes n x)

abbrev pub big_value : List ℕ → ℕ
big_value bs = little_value (reverse bs)

-- The `n` bytes of an object that holds `x`, from its lowest address. A number that is too large
-- is reduced modulo 256^n, as by a cast to the object's type.
abbrev pub memory : Host → ℕ → ℕ → List ℕ
memory big_host n x = big_bytes n x
memory little_host n x = little_bytes n x

-- The unsigned number that the bytes at an address hold.
abbrev pub load : Host → List ℕ → ℕ
load big_host bs = big_value bs
load little_host bs = little_value bs

pub little_value-little_bytes : (n x : ℕ) → x < 256 ^ n → little_value (little_bytes n x) ≡ x
little_value-little_bytes zero x h = omega arith
little_value-little_bytes (suc n) x h =
    let low : x / 256 < 256 ^ n = omega (arith, pow-suc 256 n) in
    omega (arith, little_value-little_bytes n (x / 256) low)

-- Reading an object back gives the number that was stored.
pub load-memory : (host : Host) (n x : ℕ) → x < 256 ^ n → load host (memory host n x) ≡ x
load-memory big_host n x h = rw reverse-reverse (little_value-little_bytes n x h)
load-memory little_host n x h = little_value-little_bytes n x h

pub length-reverse : (xs : List ℕ) → length (reverse xs) ≡ length xs
length-reverse [] = refl
length-reverse (x ∷ xs) =
    rw (reverse-append (x ∷ []) xs, length-append) (omega (arith, length-reverse xs))

pub length-little_bytes : (n x : ℕ) → length (little_bytes n x) ≡ n
length-little_bytes zero x = refl
length-little_bytes (suc n) x = ap suc (length-little_bytes n (x / 256))

pub length-memory : (host : Host) (n x : ℕ) → length (memory host n x) ≡ n
length-memory big_host n x = rw length-reverse (length-little_bytes n x)
length-memory little_host n x = length-little_bytes n x
