-- ===== src/Mpack/Limits.antt =====
-- The limits of the integer types, from include/lib.h, and what a conversion keeps within them.
use apilib.Base.{ℕ, ◌+◌, ◌-◌, ◌≡◌, true, ◌^◌, ◌<◌, arith}
use apilib.Base.Int.{ℤ, pos, negsuc, between, narrow, to_word, of_word}

abbrev pub int08_min : ℤ
int08_min = negsuc 127

abbrev pub int08_max : ℤ
int08_max = pos 127

abbrev pub int16_min : ℤ
int16_min = negsuc 32767

abbrev pub int16_max : ℤ
int16_max = pos 32767

abbrev pub int32_min : ℤ
int32_min = negsuc 2147483647

abbrev pub int32_max : ℤ
int32_max = pos 2147483647

abbrev pub int64_min : ℤ
int64_min = negsuc 9223372036854775807

abbrev pub int64_max : ℤ
int64_max = pos 9223372036854775807

abbrev pub uint08_max : ℕ
uint08_max = 255

abbrev pub uint16_max : ℕ
uint16_max = 65535

abbrev pub uint32_max : ℕ
uint32_max = 4294967295

abbrev pub uint64_max : ℕ
uint64_max = 18446744073709551615

pub narrow08_lem : (z : ℤ) → between int08_min int08_max z ≡ true → narrow 8 z ≡ z
narrow08_lem (pos n) h = ground arith
narrow08_lem (negsuc n) h = ground arith

pub to_word08-lt : (z : ℤ) → to_word 8 z < 2 ^ 8
to_word08-lt (pos n) = omega arith
to_word08-lt (negsuc n) = omega arith

pub narrow16_lem : (z : ℤ) → between int16_min int16_max z ≡ true → narrow 16 z ≡ z
narrow16_lem (pos n) h = ground arith
narrow16_lem (negsuc n) h = ground arith

pub to_word16-lt : (z : ℤ) → to_word 16 z < 2 ^ 16
to_word16-lt (pos n) = omega arith
to_word16-lt (negsuc n) = omega arith

pub narrow32_lem : (z : ℤ) → between int32_min int32_max z ≡ true → narrow 32 z ≡ z
narrow32_lem (pos n) h = ground arith
narrow32_lem (negsuc n) h = ground arith

pub to_word32-lt : (z : ℤ) → to_word 32 z < 2 ^ 32
to_word32-lt (pos n) = omega arith
to_word32-lt (negsuc n) = omega arith

pub narrow64_lem : (z : ℤ) → between int64_min int64_max z ≡ true → narrow 64 z ≡ z
narrow64_lem (pos n) h = ground arith
narrow64_lem (negsuc n) h = ground arith

pub to_word64-lt : (z : ℤ) → to_word 64 z < 2 ^ 64
to_word64-lt (pos n) = omega arith
to_word64-lt (negsuc n) = omega arith

pub of_word08-between : (x : ℕ) → x < 2 ^ 8 → between int64_min int64_max (of_word 8 x) ≡ true
of_word08-between x h = ground arith

pub of_word16-between : (x : ℕ) → x < 2 ^ 16 → between int64_min int64_max (of_word 16 x) ≡ true
of_word16-between x h = ground arith

pub of_word32-between : (x : ℕ) → x < 2 ^ 32 → between int64_min int64_max (of_word 32 x) ≡ true
of_word32-between x h = ground arith

pub of_word64-between : (x : ℕ) → x < 2 ^ 64 → between int64_min int64_max (of_word 64 x) ≡ true
of_word64-between x h = ground arith

-- The signed byte of a short form.
pub of_word-fixint_positive : (n : ℕ) → n < 128 → of_word 8 n ≡ pos n
of_word-fixint_positive n h = ground arith

pub of_word-fixint_negative : (n : ℕ) → n < 32 → of_word 8 (0xe0 + n) ≡ negsuc (31 - n)
of_word-fixint_negative n h = ground arith

pub int08-int64 :
    (z : ℤ) → between int08_min int08_max z ≡ true → between int64_min int64_max z ≡ true
int08-int64 (pos n) h = ground arith
int08-int64 (negsuc n) h = ground arith

pub int16-int64 :
    (z : ℤ) → between int16_min int16_max z ≡ true → between int64_min int64_max z ≡ true
int16-int64 (pos n) h = ground arith
int16-int64 (negsuc n) h = ground arith

pub int32-int64 :
    (z : ℤ) → between int32_min int32_max z ≡ true → between int64_min int64_max z ≡ true
int32-int64 (pos n) h = ground arith
int32-int64 (negsuc n) h = ground arith
