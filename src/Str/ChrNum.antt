-- ===== src/Str/ChrNum.antt =====
-- str/chrnum.hpp: digits as characters and characters as digits.
use apilib.Base.{ℕ, ◌+◌, ◌-◌, ◌≤◌, ◌<◌, ◌≡◌, Option, none, some, arith}
use apilib.Base.{leb, if◌then◌else◌}
use apilib.Str.Chr.{in_range, toupper}

-- `__ntochr_x` with the character as its result
unfoldable pub ntochr_value : ℕ → ℕ
ntochr_value digit =
    if in_range 0 9 digit
    then b'0' + digit
    else if in_range 10 35 digit
    then b'A' + digit - 10
    else b' '

-- `__chrton_x` with the digit as its result
unfoldable pub chrton_value : ℕ → ℕ → ℕ
chrton_value chr radix =
    if in_range b'0' b'9' chr
    then (let t : ℕ = chr - b'0' in if leb radix t then 0 else t)
    else if in_range b'A' b'Z' chr
    then (let t : ℕ = chr - b'A' + 10 in if leb radix t then 0 else t)
    else if in_range b'a' b'z' chr
    then (let t : ℕ = chr - b'a' + 10 in if leb radix t then 0 else t)
    else 0

-- `__ntochr_x` into `*chr`: what is stored where the result is 1, nothing where it is 0
unfoldable pub ntochr : ℕ → Option ℕ
ntochr digit =
    if in_range 0 9 digit
    then some (b'0' + digit)
    else if in_range 10 35 digit
    then some (b'A' + digit - 10)
    else none

-- `__chrton_x` into `*digit`, with the same results
unfoldable pub chrton : ℕ → ℕ → Option ℕ
chrton chr radix =
    if in_range b'0' b'9' chr
    then (let t : ℕ = chr - b'0' in if leb radix t then none else some t)
    else if in_range b'A' b'Z' chr
    then (let t : ℕ = chr - b'A' + 10 in if leb radix t then none else some t)
    else if in_range b'a' b'z' chr
    then (let t : ℕ = chr - b'a' + 10 in if leb radix t then none else some t)
    else none

-- A digit below a radix of at most 36 is written and read back, in either case, by both forms.
pub chrton-ntochr :
    (digit radix : ℕ)
    → digit < radix
    → radix ≤ 36
    → (ntochr digit ≡ some (ntochr_value digit))
      × (chrton (ntochr_value digit) radix ≡ some digit)
      × (chrton_value (ntochr_value digit) radix ≡ digit)
unfolding ntochr chrton ntochr_value chrton_value
chrton-ntochr digit radix h k = (ground arith, ground arith, ground arith)

-- A character that is read as a digit is, but for its case, the one written for that digit, and
-- the digit lies below the radix.
pub ntochr-chrton :
    (chr radix digit : ℕ)
    → chrton chr radix ≡ some digit
    → (digit < radix) × (ntochr digit ≡ some (toupper chr)) × (chrton_value chr radix ≡ digit)
unfolding ntochr chrton chrton_value toupper
ntochr-chrton chr radix digit h = (ground arith, ground arith, ground arith)
