-- ===== src/Str/Read/Digits.antt =====
-- str/strnum.hpp: what the loops that read digits compute.
use native.Mathlib.Decide.{ℕ_discrete}
use native.Mathlib.Nat.{mod-eq_of_lt, pow-le-pow_right}
use apilib.Base.{
  ℕ, zero, suc, ◌+◌, ◌*◌, ◌%◌, ◌^◌, ◌≤◌, ◌<◌, ◌≡◌, ◌≢◌, ◌⊎◌, inl, inr, refl, sym, ◌∙◌, arith,
}
use apilib.Base.{List, [], ◌∷◌, none, some, Bool, false}
use apilib.Base.{◌==◌, if◌then◌else◌, Option-cases}
use apilib.Str.ChrNum.{chrton}
use apilib.Str.Read.{stops, sum_bits, strton_loop, strton_lsh, strton_mul, read_digits}

-- Shifting is multiplication: whatever the radix, `switch(radix)` ends in the same number and at
-- the same character as the loop that multiplies.
pub read_digits-strton_mul :
    (w radix limit : ℕ) (string : List ℕ)
    → read_digits w radix limit string ≡ strton_mul w radix limit string
unfolding read_digits strton_mul strton_lsh
read_digits-strton_mul w radix limit string = elim (ℕ_discrete radix 2) [
  | yes e ↦ rw e refl
  | no n2 ↦ elim (ℕ_discrete radix 4) [
    | yes e ↦ rw e refl
    | no n4 ↦ elim (ℕ_discrete radix 8) [
      | yes e ↦ rw e refl
      | no n8 ↦ elim (ℕ_discrete radix 16) [
        | yes e ↦ rw e refl
        | no n16 ↦ elim (ℕ_discrete radix 32) [ yes e ↦ rw e refl | no n32 ↦ ground arith ]
      ]
    ]
  ]
]

-- The number that a string of digits stands for, without bounds, and what follows the digits.
unfoldable pub numeral : ℕ → ℕ → List ℕ → ℕ × List ℕ
numeral radix value [] = (value, [])
numeral radix value (c ∷ string) = elim (chrton c radix) [
  | none ↦ (value, c ∷ string)
  | some digit ↦ numeral radix (value * radix + digit) string
]

-- A string that begins with the character 0.
abbrev pub zero_first : List ℕ → Bool
zero_first [] = false
zero_first (c ∷ string) = c == b'0'

-- A string that begins with any number of 0, then 1 and 0.
unfoldable pub reads_ten : List ℕ → Bool
reads_ten [] = false
reads_ten (c ∷ string) =
    let rest = reads_ten string in
    if c == b'0' then rest else if c == b'1' then zero_first string else false

-- What stands behind the first character that is not 0.
unfoldable pub behind_zeros : List ℕ → List ℕ
behind_zeros [] = []
behind_zeros (c ∷ string) = let rest = behind_zeros string in if c == b'0' then rest else string

-- A bound on the numbers that a loop can return.
abbrev pub Fits : ℕ → ℕ → ℕ → Type 0
Fits w limit n = (n < 2 ^ w) × (0 < limit → n ≤ limit)

product_ge : (value radix : ℕ) → 1 ≤ radix → value ≤ value * radix
product_ge zero radix h = omega arith
product_ge (suc value) radix h =
    let e : suc value * radix ≡ radix + value * radix = grind arith in
    omega (arith, e, product_ge value radix h)

product_ge_sum : (value radix : ℕ) → 2 ≤ radix → suc (suc value) + radix ≤ suc (suc value) * radix
product_ge_sum zero radix h = omega arith
product_ge_sum (suc value) radix h =
    let e : suc (suc (suc value)) * radix ≡ radix + suc (suc value) * radix = grind arith in
    omega (arith, e, product_ge_sum value radix h)

pub numeral_ge :
    (radix value : ℕ) (string : List ℕ) → 1 ≤ radix → value ≤ (numeral radix value string).0
unfolding numeral
numeral_ge radix value [] h = omega arith
numeral_ge radix value (c ∷ string) h = elim (Option-cases (chrton c radix)) [
  | inl e ↦ rw (e, numeral) (omega arith)
  | inr (digit, e) ↦
      rw (e, numeral)
        (omega (arith, product_ge value radix h, numeral_ge radix (value * radix + digit) string h))
]

below_sum : (w : ℕ) → 2 ^ w ≤ 2 ^ sum_bits w
below_sum w = let wider : w ≤ sum_bits w = ground arith in pow-le-pow_right (omega arith) wider

-- The number grows by the radix at least, but where it is 0 or turns from 1 into the radix.
product_grows :
    (value radix digit : ℕ)
    → 2 ≤ radix
    → (0 < digit) ⊎ (2 ≤ value)
    → (value ≡ 0) ⊎ (value + radix ≤ value * radix + digit)
product_grows zero radix digit low start = inl refl
product_grows (suc zero) radix digit low (inl pos) =
    let e : suc zero * radix ≡ radix = omega arith in inr (omega (arith, e))
product_grows (suc zero) radix digit low (inr more) = absurd (omega arith)
product_grows (suc (suc value)) radix digit low start =
    inr (omega (arith, product_ge_sum value radix low))

-- A round passes its tests where the new number is within the bounds and the old one is 0, or 1
-- before another digit than 0, or larger.
passes :
    (w radix limit value digit : ℕ)
    → 2 ≤ radix
    → Fits w limit (value * radix + digit)
    → (value ≡ 0) ⊎ ((0 < digit) ⊎ (2 ≤ value))
    → stops w radix limit value (value * radix + digit) ≡ false
unfolding stops
passes w radix limit value digit low (small, within) start = elim start [
  | inl e ↦ ground (arith, e, within)
  | inr grows ↦ elim (product_grows value radix digit low grows) [
    | inl e ↦ ground (arith, e, within)
    | inr large ↦
        let s : (value + radix) % 2 ^ sum_bits w ≡ value + radix =
          mod-eq_of_lt (omega (arith, below_sum w)) in
        ground (arith, s, large, within)
  ]
]

-- Where no 1 before a 0 lies ahead of the first digits that are not 0.
abbrev Continues : ℕ → List ℕ → Type 0
Continues value string =
    (value ≡ 0) × (reads_ten string ≡ false)
    ⊎ ((value ≡ 1) × (zero_first string ≡ false) ⊎ (2 ≤ value))

digit_of :
    (c radix digit : ℕ)
    → 2 ≤ radix
    → chrton c radix ≡ some digit
    → (c ≡ b'0') × (digit ≡ 0) ⊎ ((c ≡ b'1') × (digit ≡ 1) ⊎ (2 ≤ digit) × (c ≢ b'0') × (c ≢ b'1'))
unfolding chrton
digit_of c radix digit low e = elim (ℕ_discrete c b'0') [
  | yes z ↦ inl (z, ground (arith, z))
  | no nz ↦ elim (ℕ_discrete c b'1') [
    | yes o ↦ inr (inl (o, ground (arith, o)))
    | no no1 ↦ inr (inr (ground arith, nz, no1))
  ]
]

Continues-next :
    (radix value c digit : ℕ) (string : List ℕ)
    → 2 ≤ radix
    → chrton c radix ≡ some digit
    → Continues value (c ∷ string)
    → Continues (value * radix + digit) string × ((value ≡ 0) ⊎ ((0 < digit) ⊎ (2 ≤ value)))
unfolding reads_ten
Continues-next radix value c digit string low e (inl (z, ahead)) =
    let p : value * radix + digit ≡ digit = rw z (omega arith) in
    elim (digit_of c radix digit low e) [
      | inl (c0, d0) ↦ (inl (omega arith, ground arith), inl z)
      | inr (inl (c1, d1)) ↦ (inr (inl (omega arith, ground arith)), inl z)
      | inr (inr (d2, c0, c1)) ↦ (inr (inr (omega arith)), inl z)
    ]
Continues-next radix value c digit string low e (inr (inl (one, ahead))) =
    let p : value * radix + digit ≡ radix + digit = rw one (omega arith) in
    elim (digit_of c radix digit low e) [
      | inl (c0, d0) ↦ absurd (ground arith)
      | inr (inl (c1, d1)) ↦ (inr (inr (omega arith)), inr (inl (omega arith)))
      | inr (inr (d2, c0, c1)) ↦ (inr (inr (omega arith)), inr (inl (omega arith)))
    ]
Continues-next radix value c digit string low e (inr (inr large)) =
    (inr (inr (omega (arith, product_ge value radix (omega arith)))), inr (inr large))

loop_numeral :
    (w radix limit value : ℕ) (string : List ℕ)
    → 2 ≤ radix
    → Fits w limit (numeral radix value string).0
    → Continues value string
    → strton_loop (λ v. v * radix) w radix limit value string ≡ numeral radix value string
unfolding strton_loop numeral
loop_numeral w radix limit value [] low fits go = refl
loop_numeral w radix limit value (c ∷ string) low fits go = elim (Option-cases (chrton c radix)) [
  | inl e ↦ rw (e, strton_loop, numeral) refl
  | inr (digit, e) ↦
      let n : ℕ = value * radix + digit in
      let same : numeral radix value (c ∷ string) ≡ numeral radix n string = rw (e, numeral) refl in
      let (next, start) = Continues-next radix value c digit string low e go in
      let fits_next : Fits w limit (numeral radix n string).0 = rw (sym same) fits in
      let above : n ≤ (numeral radix n string).0 = numeral_ge radix n string (omega arith) in
      let now : Fits w limit n = (omega arith, λ h. omega (arith, fits_next.1 h)) in
      let ih : strton_loop (λ v. v * radix) w radix limit n string ≡ numeral radix n string =
        loop_numeral w radix limit n string low fits_next next in
      let small : n % 2 ^ w ≡ n = mod-eq_of_lt now.0 in
      let pass : stops w radix limit value n ≡ false =
        passes w radix limit value digit low now start in
      rw (e, strton_loop, numeral, small, pass, ih) refl
]

-- Digits whose number lies within the bounds of the type and within the limit are read in full and
-- exactly, in each radix, unless the digits begin, after zeros, with 1 and 0.
pub read_digits-numeral :
    (w radix limit : ℕ) (string : List ℕ)
    → 2 ≤ radix
    → reads_ten string ≡ false
    → Fits w limit (numeral radix 0 string).0
    → read_digits w radix limit string ≡ numeral radix 0 string
unfolding strton_mul
read_digits-numeral w radix limit string low ahead fits =
    read_digits-strton_mul w radix limit string
    ∙ loop_numeral w radix limit 0 string low fits (inl (refl, ahead))
