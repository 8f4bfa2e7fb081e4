-- ===== src/Str/Read/Bounded.antt =====
-- str/strnum.hpp: `__strton_nx`, which reads a number from the first characters of a text.
use native.Mathlib.Nat.{mod_self}
use apilib.Base.{ℕ, zero, suc, ◌+◌, ◌-◌, ◌*◌, ◌%◌, ◌^◌, ◌≤◌, ◌≡◌, inl, inr, refl, ap, sym, arith}
use apilib.Base.{List, [], ◌∷◌, ◌++◌, some, Bool, true, false}
use apilib.Base.{ltb, ◌==◌, if◌then◌else◌, Option-cases, Bool-cases, drop, length}
use apilib.Str.ChrNum.{chrton}
use apilib.Str.Read.Digits.{read_digits-strton_mul}
use apilib.Str.Read.{
  strton, stops, strton_loop, strton_lsh, strton_mul, strton_loop_n, strton_lsh_n, strton_mul_n,
  read_digits, read_digits_n, skip_blanks, skip_blanks_n, read_sign, read_prefix, signed_value,
  finish, finish_n, after_sign, after_sign_n, after_blanks, after_blanks_n, strton_n, bad_radix,
  limit_of,
}

-- A result on the first characters of a string, as a result on the string.
abbrev pub followed_by : List ℕ → ℕ × List ℕ → ℕ × List ℕ
followed_by rest (value, string) = (value, string ++ rest)

loop_n_front :
    (scale : ℕ → ℕ) (w radix limit value : ℕ) (string rest : List ℕ)
    → strton_loop_n scale w radix limit value (length string) (string ++ rest)
      ≡ followed_by rest (strton_loop scale w radix limit value string)
unfolding strton_loop strton_loop_n
loop_n_front scale w radix limit value [] [] = refl
loop_n_front scale w radix limit value [] (c ∷ rest) = refl
loop_n_front scale w radix limit value (c ∷ string) rest = elim (Option-cases (chrton c radix)) [
  | inl e ↦ rw (e, strton_loop, strton_loop_n) refl
  | inr (digit, e) ↦
      let temp : ℕ = (scale value + digit) % 2 ^ w in
      let ih = loop_n_front scale w radix limit temp string rest in
      elim (Bool-cases (stops w radix limit value temp)) [
        | inl s ↦ rw (e, strton_loop, strton_loop_n, s) refl
        | inr s ↦ rw (e, strton_loop, strton_loop_n, s) ih
      ]
]

read_digits_n_front :
    (w radix limit : ℕ) (string rest : List ℕ)
    → read_digits_n w radix limit (length string) (string ++ rest)
      ≡ followed_by rest (read_digits w radix limit string)
unfolding read_digits read_digits_n strton_lsh strton_lsh_n strton_mul strton_mul_n
read_digits_n_front w radix limit string rest =
    let lsh = λ (shift : ℕ). loop_n_front (λ v. v * 2 ^ shift) w radix limit 0 string rest in
    let mul = loop_n_front (λ v. v * radix) w radix limit 0 string rest in
    ground (arith, lsh 1, lsh 2, lsh 3, lsh 4, lsh 5, mul)

skip_blanks_n_front :
    (string rest : List ℕ)
    → skip_blanks_n (length string) (string ++ rest)
      ≡ (length (skip_blanks string), skip_blanks string ++ rest)
unfolding skip_blanks skip_blanks_n
skip_blanks_n_front [] rest = refl
skip_blanks_n_front (c ∷ string) rest =
    let ih = skip_blanks_n_front string rest in ground (arith, ih)

length_zero : (string : List ℕ) → length string ≡ 0 → string ≡ []
length_zero [] e = refl
length_zero (c ∷ string) e = absurd (omega arith)

-- No digits, no value.
finish_nil :
    (is_signed : Bool) (w : ℕ) (negative : Bool) (radix : ℕ)
    → finish is_signed w negative radix [] ≡ (0, [])
unfolding finish signed_value strton_mul strton_loop
finish_nil is_signed w true radix =
    let base : ℕ = if radix == 0 then 10 else radix in
    let e : 2 ^ w - 0 ≡ 2 ^ w = omega arith in
    rw (read_digits-strton_mul w base (limit_of is_signed w true) [], e, mod_self (2 ^ w)) refl
finish_nil is_signed w false radix =
    let base : ℕ = if radix == 0 then 10 else radix in
    rw (read_digits-strton_mul w base (limit_of is_signed w false) []) refl

signed_value_front :
    (w : ℕ) (negative : Bool) (rest : List ℕ) (result : ℕ × List ℕ)
    → signed_value w negative (followed_by rest result)
      ≡ followed_by rest (signed_value w negative result)
unfolding signed_value
signed_value_front w negative rest result = refl

suc_nonzero : (n : ℕ) → (suc n == 0) ≡ false
suc_nonzero n = ground arith

one_below : (n : ℕ) → ltb 1 (suc (suc n)) ≡ true
one_below n = ground arith

finish_n_front :
    (is_signed : Bool) (w : ℕ) (negative : Bool) (radix : ℕ) (string rest : List ℕ)
    → finish_n is_signed w negative radix (length string) (string ++ rest)
      ≡ followed_by rest (finish is_signed w negative radix string)
unfolding finish_n finish signed_value
finish_n_front is_signed w negative radix [] rest =
    ap (followed_by rest) (sym (finish_nil is_signed w negative radix))
finish_n_front is_signed w negative radix (c ∷ string) rest =
    let base : ℕ = if radix == 0 then 10 else radix in
    rw (suc_nonzero (length string)) (
      ap (signed_value w negative)
        (read_digits_n_front w base (limit_of is_signed w negative) (c ∷ string) rest))

-- Dropping no more than the string has.
drop_front :
    (n : ℕ) (string rest : List ℕ)
    → n ≤ length string
    → (drop n (string ++ rest) ≡ drop n string ++ rest)
      × (length string - n ≡ length (drop n string))
drop_front zero string rest h = (refl, omega arith)
drop_front (suc n) [] rest h = absurd (omega arith)
drop_front (suc n) (c ∷ string) rest h =
    let ih = drop_front n string rest (omega arith) in (ih.0, omega (arith, ih.1))

read_prefix_small :
    (radix first chr base skipped : ℕ)
    → read_prefix radix first chr ≡ some (base, skipped)
    → skipped ≤ 2
unfolding read_prefix
read_prefix_small radix first chr base skipped e = ground arith

-- A single character has no prefix.
read_prefix_one : (radix c : ℕ) → read_prefix radix c 0 ≡ some (radix, 0)
unfolding read_prefix
read_prefix_one radix c = ground arith

after_sign_nil :
    (is_signed : Bool) (w : ℕ) (negative : Bool) (radix : ℕ)
    → after_sign is_signed w negative radix [] ≡ (0, [])
unfolding after_sign
after_sign_nil is_signed w negative radix =
    rw (read_prefix_one radix 0, after_sign) (finish_nil is_signed w negative radix)

after_sign_n_front :
    (is_signed : Bool) (w : ℕ) (negative : Bool) (radix : ℕ) (string rest : List ℕ)
    → after_sign_n is_signed w negative radix (length string, string ++ rest)
      ≡ followed_by rest (after_sign is_signed w negative radix string)
unfolding after_sign_n after_sign
after_sign_n_front is_signed w negative radix [] rest =
    ap (followed_by rest) (sym (after_sign_nil is_signed w negative radix))
after_sign_n_front is_signed w negative radix (c ∷ []) rest =
    rw (read_prefix_one radix c, after_sign)
      (finish_n_front is_signed w negative radix (c ∷ []) rest)
after_sign_n_front is_signed w negative radix (c ∷ d ∷ string) rest =
    elim (Option-cases (read_prefix radix c d)) [
      | inl e ↦
          rw
            (
              suc_nonzero (suc (length string)),
              one_below (length string),
              e,
              after_sign,
              after_sign_n,
            )
            refl
      | inr ((base, skipped), e) ↦
          let small : skipped ≤ length (c ∷ d ∷ string) =
            omega (arith, read_prefix_small radix c d base skipped e) in
          let dropped = drop_front skipped (c ∷ d ∷ string) rest small in
          rw
            (
              suc_nonzero (suc (length string)),
              one_below (length string),
              e,
              after_sign,
              after_sign_n,
              dropped.0,
              dropped.1,
            )
            (finish_n_front is_signed w negative base (drop skipped (c ∷ d ∷ string)) rest)
    ]

read_sign_small :
    (is_signed : Bool) (c : ℕ) (negative : Bool) (skipped : ℕ)
    → read_sign is_signed c ≡ some (negative, skipped)
    → skipped ≤ 1
unfolding read_sign
read_sign_small is_signed c negative skipped e = ground arith

-- From the sign on, with `tail` behind the sign.
after_sign_n_blanks :
    (is_signed : Bool) (w : ℕ) (negative : Bool) (radix : ℕ) (tail rest : List ℕ)
    → (if length tail == 0
        then (0, tail ++ rest)
        else after_sign_n is_signed w negative radix (skip_blanks_n (length tail) (tail ++ rest)))
      ≡ followed_by rest (after_sign is_signed w negative radix (skip_blanks tail))
unfolding skip_blanks
after_sign_n_blanks is_signed w negative radix [] rest =
    ap (followed_by rest) (sym (after_sign_nil is_signed w negative radix))
after_sign_n_blanks is_signed w negative radix (c ∷ tail) rest =
    rw (suc_nonzero (length tail), skip_blanks_n_front (c ∷ tail) rest)
      (after_sign_n_front is_signed w negative radix (skip_blanks (c ∷ tail)) rest)

read_sign_nul : (is_signed : Bool) → read_sign is_signed 0 ≡ some (false, 0)
unfolding read_sign
read_sign_nul is_signed = refl

after_blanks_nil : (is_signed : Bool) (w radix : ℕ) → after_blanks is_signed w radix [] ≡ (0, [])
unfolding after_blanks skip_blanks
after_blanks_nil is_signed w radix =
    rw (read_sign_nul is_signed, after_blanks) (after_sign_nil is_signed w false radix)

strton_nil : (is_signed : Bool) (w radix : ℕ) → strton is_signed w [] radix ≡ (0, [])
unfolding strton skip_blanks
strton_nil is_signed w radix = ground (arith, after_blanks_nil is_signed w radix)

after_blanks_n_front :
    (is_signed : Bool) (w radix : ℕ) (string rest : List ℕ)
    → after_blanks_n is_signed w radix (length string, string ++ rest)
      ≡ followed_by rest (after_blanks is_signed w radix string)
unfolding after_blanks_n after_blanks
after_blanks_n_front is_signed w radix [] rest =
    ap (followed_by rest) (sym (after_blanks_nil is_signed w radix))
after_blanks_n_front is_signed w radix (c ∷ string) rest =
    let some_left = suc_nonzero (length string) in
    elim (Option-cases (read_sign is_signed c)) [
      | inl e ↦ rw (some_left, e, after_blanks, after_blanks_n) refl
      | inr ((negative, skipped), e) ↦
          let small : skipped ≤ length (c ∷ string) =
            omega (arith, read_sign_small is_signed c negative skipped e) in
          let dropped = drop_front skipped (c ∷ string) rest small in
          rw (some_left, e, after_blanks, after_blanks_n, dropped.0, dropped.1)
            (after_sign_n_blanks is_signed w negative radix (drop skipped (c ∷ string)) rest)
    ]

-- Reading from the first characters of a text gives the number, and the place where it ends, that
-- reading gives on a text of these characters alone, whatever stands behind them: for signed and
-- unsigned numbers, every width and every radix, valid or not.
pub strton_n-strton :
    (is_signed : Bool) (w radix : ℕ) (string rest : List ℕ)
    → strton_n is_signed w (string ++ rest) (length string) radix
      ≡ followed_by rest (strton is_signed w string radix)
unfolding strton_n strton
strton_n-strton is_signed w radix [] rest =
    ap (followed_by rest) (sym (strton_nil is_signed w radix))
strton_n-strton is_signed w radix (c ∷ string) rest =
    let blanks = skip_blanks_n_front (c ∷ string) rest in
    let front = after_blanks_n_front is_signed w radix (skip_blanks (c ∷ string)) rest in
    elim (Bool-cases (bad_radix radix)) [
      | inl bad ↦ rw (suc_nonzero (length string), bad) refl
      | inr good ↦ rw (suc_nonzero (length string), good, blanks) front
    ]
