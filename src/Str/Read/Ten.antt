-- ===== src/Str/Read/Ten.antt =====
-- str/strnum.hpp: the loops that read digits, on digits that begin with 1 and 0.
use native.Mathlib.Decide.{ℕ_discrete}
use native.Mathlib.Nat.{mod-eq_of_lt, one-le-pow, pow-le-pow_right}
use apilib.Base.{ℕ, ◌+◌, ◌*◌, ◌%◌, ◌^◌, ◌≤◌, ◌≡◌, refl, ◌∙◌, arith}
use apilib.Base.{List, [], ◌∷◌, some, true, false}
use apilib.Str.ChrNum.{chrton}
use apilib.Str.Read.{stops, sum_bits, strton_loop, strton_mul, read_digits}
use apilib.Str.Read.Digits.{read_digits-strton_mul, zero_first, reads_ten, behind_zeros}

sum_wide : (w radix : ℕ) → radix ≤ 36 → (1 + radix) % 2 ^ sum_bits w ≡ 1 + radix
sum_wide w radix high =
    let wide : 32 ≤ sum_bits w = ground arith in
    let bound : 2 ^ 32 ≤ 2 ^ sum_bits w = pow-le-pow_right (omega arith) wide in
    mod-eq_of_lt (omega (arith, bound))

chrton_zero : (radix : ℕ) → 2 ≤ radix → chrton b'0' radix ≡ some 0
unfolding chrton
chrton_zero radix low = ground arith

chrton_one : (radix : ℕ) → 2 ≤ radix → chrton b'1' radix ≡ some 1
unfolding chrton
chrton_one radix low = ground arith

turn_stops :
    (w radix limit : ℕ)
    → 2 ≤ radix
    → radix ≤ 36
    → stops w radix limit 1 ((1 * radix + 0) % 2 ^ w) ≡ true
unfolding stops
turn_stops w radix limit low high =
    let small : (1 * radix + 0) % 2 ^ w ≤ radix = ground arith in
    ground (arith, sum_wide w radix high)

one_stops :
    (w radix limit : ℕ) (string : List ℕ)
    → 2 ≤ radix
    → radix ≤ 36
    → zero_first string ≡ true
    → strton_loop (λ v. v * radix) w radix limit 1 string ≡ (1, string)
unfolding strton_loop
one_stops w radix limit [] low high z = refl
one_stops w radix limit (c ∷ string) low high z =
    let same : c ≡ b'0' = ground arith in
    let e : chrton c radix ≡ some 0 = rw same (chrton_zero radix low) in
    rw (e, strton_loop, turn_stops w radix limit low high) refl

first_passes : (w radix limit digit : ℕ) → digit ≤ 1 → stops w radix limit 0 digit ≡ false
unfolding stops
first_passes w radix limit digit h = ground arith

stop_at_zero :
    (w radix limit : ℕ) (string : List ℕ)
    → 1 ≤ w
    → 2 ≤ radix
    → radix ≤ 36
    → reads_ten string ≡ true
    → strton_loop (λ v. v * radix) w radix limit 0 string ≡ (1, behind_zeros string)
unfolding strton_loop reads_ten behind_zeros
stop_at_zero w radix limit [] some_bits low high ten = absurd (cc)
stop_at_zero w radix limit (c ∷ string) some_bits low high ten = elim (ℕ_discrete c b'0') [
  | yes z ↦
      let ih = stop_at_zero w radix limit string some_bits low high (ground arith) in
      let e : chrton c radix ≡ some 0 = rw z (chrton_zero radix low) in
      let nothing : 0 * radix + 0 ≡ 0 = omega arith in
      let none_yet : (0 * radix + 0) % 2 ^ w ≡ 0 =
        rw nothing (mod-eq_of_lt (one-le-pow w 2 (omega arith))) in
      rw (e, strton_loop, none_yet, first_passes w radix limit 0 (omega arith)) (ih ∙ ground arith)
  | no nz ↦
      let o : c ≡ b'1' = ground arith in
      let e : chrton c radix ≡ some 1 = rw o (chrton_one radix low) in
      let unit : 0 * radix + 1 ≡ 1 = omega arith in
      let one : (0 * radix + 1) % 2 ^ w ≡ 1 =
        let two : 2 ^ 1 ≤ 2 ^ w = pow-le-pow_right (omega arith) some_bits in
        rw unit (mod-eq_of_lt (omega (arith, two))) in
      let rest = one_stops w radix limit string low high (ground arith) in
      rw (e, strton_loop, one, first_passes w radix limit 1 (omega arith)) (rest ∙ ground arith)
]

-- DEFECT. In each radix, digits that begin, after zeros, with 1 and 0 are read as the number 1,
-- and `endptr` is left at that 0.
pub ten_is_read_as_one :
    (w radix limit : ℕ) (string : List ℕ)
    → 1 ≤ w
    → 2 ≤ radix
    → radix ≤ 36
    → reads_ten string ≡ true
    → read_digits w radix limit string ≡ (1, behind_zeros string)
unfolding strton_mul
ten_is_read_as_one w radix limit string some_bits low high ten =
    read_digits-strton_mul w radix limit string
    ∙ stop_at_zero w radix limit string some_bits low high ten
