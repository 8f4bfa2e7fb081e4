-- ===== src/Str/Read.antt =====
-- str/strnum.hpp: reading of a number from text, `__strton_x` and `__strton_nx`. The result is the
-- number and what `*endptr` points to.
pub mod Digits
pub mod Ten
pub mod Bounded
pub mod Wrap
use apilib.Base.{ℕ, zero, suc, ◌+◌, ◌-◌, ◌*◌, ◌/◌, ◌%◌, ◌^◌, List, [], ◌∷◌, Option, none, some}
use apilib.Base.{Bool, true, false, not, ◌&&◌, ◌||◌, ltb, leb, ◌==◌, if◌then◌else◌, drop}
use apilib.Str.{char_at}
use apilib.Str.Chr.{isblank, in_range}
use apilib.Str.ChrNum.{chrton}

-- The width in which `value + radix` is computed: of the number's type and `unsigned int` the
-- larger one.
abbrev pub sum_bits : ℕ → ℕ
sum_bits w = if ltb w 32 then 32 else w

-- The three tests of a round, after which the new digit is left unread.
unfoldable pub stops : ℕ → ℕ → ℕ → ℕ → ℕ → Bool
stops w radix limit value temp =
    not (limit == 0) && ltb limit temp
    || (not (value == 0) && ltb temp value
        || not (value == 0) && ltb temp ((value + radix) % 2 ^ sum_bits w))

-- The loop of `__strton_lsh_x` and `__strton_mul_x`, which differ in how the value is scaled.
unfoldable pub strton_loop : (ℕ → ℕ) → ℕ → ℕ → ℕ → ℕ → List ℕ → ℕ × List ℕ
strton_loop scale w radix limit value [] = (value, [])
strton_loop scale w radix limit value (c ∷ string) = elim (chrton c radix) [
  | none ↦ (value, c ∷ string)
  | some digit ↦
      let temp = (scale value + digit) % 2 ^ w in
      let rest = strton_loop scale w radix limit temp string in
      if stops w radix limit value temp then (value, c ∷ string) else rest
]

unfoldable pub strton_lsh : ℕ → ℕ → ℕ → ℕ → List ℕ → ℕ × List ℕ
strton_lsh shift w radix limit string =
    strton_loop (λ value. value * 2 ^ shift) w radix limit 0 string

unfoldable pub strton_mul : ℕ → ℕ → ℕ → List ℕ → ℕ × List ℕ
strton_mul w radix limit string = strton_loop (λ value. value * radix) w radix limit 0 string

-- The same loop with `length` characters left.
unfoldable pub strton_loop_n : (ℕ → ℕ) → ℕ → ℕ → ℕ → ℕ → ℕ → List ℕ → ℕ × List ℕ
strton_loop_n scale w radix limit value zero string = (value, string)
strton_loop_n scale w radix limit value (suc length) [] = (value, [])
strton_loop_n scale w radix limit value (suc length) (c ∷ string) = elim (chrton c radix) [
  | none ↦ (value, c ∷ string)
  | some digit ↦
      let temp = (scale value + digit) % 2 ^ w in
      let rest = strton_loop_n scale w radix limit temp length string in
      if stops w radix limit value temp then (value, c ∷ string) else rest
]

unfoldable pub strton_lsh_n : ℕ → ℕ → ℕ → ℕ → ℕ → List ℕ → ℕ × List ℕ
strton_lsh_n shift w radix limit length string =
    strton_loop_n (λ value. value * 2 ^ shift) w radix limit 0 length string

unfoldable pub strton_mul_n : ℕ → ℕ → ℕ → ℕ → List ℕ → ℕ × List ℕ
strton_mul_n w radix limit length string =
    strton_loop_n (λ value. value * radix) w radix limit 0 length string

-- `switch(radix)`
unfoldable pub read_digits : ℕ → ℕ → ℕ → List ℕ → ℕ × List ℕ
read_digits w radix limit string =
    if radix == 2
    then strton_lsh 1 w radix limit string
    else if radix == 4
    then strton_lsh 2 w radix limit string
    else if radix == 8
    then strton_lsh 3 w radix limit string
    else if radix == 16
    then strton_lsh 4 w radix limit string
    else if radix == 32
    then strton_lsh 5 w radix limit string
    else strton_mul w radix limit string

unfoldable pub read_digits_n : ℕ → ℕ → ℕ → ℕ → List ℕ → ℕ × List ℕ
read_digits_n w radix limit length string =
    if radix == 2
    then strton_lsh_n 1 w radix limit length string
    else if radix == 4
    then strton_lsh_n 2 w radix limit length string
    else if radix == 8
    then strton_lsh_n 3 w radix limit length string
    else if radix == 16
    then strton_lsh_n 4 w radix limit length string
    else if radix == 32
    then strton_lsh_n 5 w radix limit length string
    else strton_mul_n w radix limit length string

unfoldable pub skip_blanks : List ℕ → List ℕ
skip_blanks [] = []
skip_blanks (c ∷ string) =
    let rest = skip_blanks string in if not (isblank c == 0) then rest else c ∷ string

-- The string and the characters left of it.
unfoldable pub skip_blanks_n : ℕ → List ℕ → ℕ × List ℕ
skip_blanks_n zero string = (0, string)
skip_blanks_n (suc length) [] = (suc length, [])
skip_blanks_n (suc length) (c ∷ string) =
    let rest = skip_blanks_n length string in
    if not (isblank c == 0) then rest else (suc length, c ∷ string)

-- The number's sign: `none` where an unsigned number has a minus, else whether it is negative
-- and how many characters the sign has.
unfoldable pub read_sign : Bool → ℕ → Option (Bool × ℕ)
read_sign is_signed chr =
    if chr == b'+'
    then some (false, 1)
    else if chr == b'-'
    then (if is_signed then some (true, 1) else none)
    else some (false, 0)

-- The number's prefix, from its first two characters: `none` where it contradicts the radix, else
-- the radix and how many characters are skipped.
unfoldable pub read_prefix : ℕ → ℕ → ℕ → Option (ℕ × ℕ)
read_prefix radix first chr =
    if first == b'0'
    then (if chr == b'x' || chr == b'X'
        then (if radix == 0
            then some (16, 2)
            else if not (radix == 16)
            then none
            else some (radix, 2))
        else if in_range b'0' b'7' chr
        then (if radix == 0
            then some (8, 1)
            else if not (radix == 8)
            then none
            else some (radix, 1))
        else some (radix, 0))
    else some (radix, 0)

-- The largest absolute value: 0 stands for no limit.
unfoldable pub limit_of : Bool → ℕ → Bool → ℕ
limit_of is_signed w negative =
    if is_signed then (if negative then (2 ^ w - 1) / 2 + 1 else (2 ^ w - 1) / 2) else 0

-- `negative ? ~value + 1 : value`
unfoldable pub signed_value : ℕ → Bool → ℕ × List ℕ → ℕ × List ℕ
signed_value w negative (value, string) =
    (if negative then (2 ^ w - value) % 2 ^ w else value, string)

abbrev pub bad_radix : ℕ → Bool
bad_radix radix = not (radix == 0) && (ltb radix 2 || ltb 36 radix)

-- From the digits on.
unfoldable pub finish : Bool → ℕ → Bool → ℕ → List ℕ → ℕ × List ℕ
finish is_signed w negative radix string =
    signed_value w negative
      (read_digits w (if radix == 0 then 10 else radix) (limit_of is_signed w negative) string)

unfoldable pub after_sign : Bool → ℕ → Bool → ℕ → List ℕ → ℕ × List ℕ
after_sign is_signed w negative radix string =
    elim (read_prefix radix (char_at string 0) (char_at string 1)) [
      | none ↦ (0, string)
      | some (base, skipped) ↦ finish is_signed w negative base (drop skipped string)
    ]

unfoldable pub after_blanks : Bool → ℕ → ℕ → List ℕ → ℕ × List ℕ
after_blanks is_signed w radix string = elim (read_sign is_signed (char_at string 0)) [
  | none ↦ (0, string)
  | some (negative, skipped) ↦
      after_sign is_signed w negative radix (skip_blanks (drop skipped string))
]

-- `__strton_x` on a string that is not NULL
unfoldable pub strton : Bool → ℕ → List ℕ → ℕ → ℕ × List ℕ
strton is_signed w string radix =
    if bad_radix radix then (0, string) else after_blanks is_signed w radix (skip_blanks string)

unfoldable pub finish_n : Bool → ℕ → Bool → ℕ → ℕ → List ℕ → ℕ × List ℕ
finish_n is_signed w negative radix length string =
    if length == 0
    then (0, string)
    else signed_value w negative (
        read_digits_n w (if radix == 0 then 10 else radix) (limit_of is_signed w negative) length
          string)

unfoldable pub after_sign_n : Bool → ℕ → Bool → ℕ → ℕ × List ℕ → ℕ × List ℕ
after_sign_n is_signed w negative radix (length, string) =
    if length == 0
    then (0, string)
    else elim (if ltb 1 length
        then read_prefix radix (char_at string 0) (char_at string 1)
        else some (radix, 0)) [
          | none ↦ (0, string)
          | some (base, skipped) ↦
              finish_n is_signed w negative base (length - skipped) (drop skipped string)
        ]

unfoldable pub after_blanks_n : Bool → ℕ → ℕ → ℕ × List ℕ → ℕ × List ℕ
after_blanks_n is_signed w radix (length, string) =
    if length == 0 then (0, string) else elim (read_sign is_signed (char_at string 0)) [
      | none ↦ (0, string)
      | some (negative, skipped) ↦
          if length - skipped == 0
          then (0, drop skipped string)
          else after_sign_n is_signed w negative radix
              (skip_blanks_n (length - skipped) (drop skipped string))
    ]

-- `__strton_nx` on a string that is not NULL
unfoldable pub strton_n : Bool → ℕ → List ℕ → ℕ → ℕ → ℕ × List ℕ
strton_n is_signed w string length radix =
    if length == 0 || bad_radix radix
    then (0, string)
    else after_blanks_n is_signed w radix (skip_blanks_n length string)

-- Either function, NULL included: `endptr` is then NULL, too.
unfoldable pub or_null : (List ℕ → ℕ × List ℕ) → Option (List ℕ) → ℕ × Option (List ℕ)
or_null read none = (0, none)
or_null read (some string) = let result = read string in (result.0, some result.1)
