-- ===== src/Str/RoundTrip/Digits.antt =====
-- str/strnum.hpp: the digits that are written, as they are read.
use native.Mathlib.Nat.{mod-lt, div-add-mod'}
use native.Mathlib.Decide.{ℕ_discrete}
use mathlib.Core.List.{append_assoc}
use apilib.Base.{
  ℕ, zero, suc, ◌+◌, ◌*◌, ◌/◌, ◌%◌, ◌^◌, ◌≤◌, ◌<◌, ◌≡◌, ◌≢◌, ◌⊎◌, inl, inr, refl, ap, sym, ◌∙◌,
  arith,
}
use apilib.Base.{List, [], ◌∷◌, ◌++◌, Option, none, some, true}
use apilib.Base.{◌==◌, Bool-cases}
use apilib.Str.{char_at}
use apilib.Str.Chr.{isalnum}
use apilib.Str.ChrNum.{ntochr_value, chrton, chrton-ntochr}
use apilib.Str.Read.Digits.{numeral}
use apilib.Str.Print.Digits.{digits, digits_last, digits_more, shrinks, nothing_left}

chrton_end : (c radix : ℕ) → isalnum c ≡ 0 → chrton c radix ≡ none
unfolding chrton isalnum
chrton_end c radix e = ground arith

-- A number ends before a character that is neither a letter nor a digit, and at the end.
pub numeral_ends :
    (radix value : ℕ) (rest : List ℕ)
    → isalnum (char_at rest 0) ≡ 0
    → numeral radix value rest ≡ (value, rest)
unfolding numeral
numeral_ends radix value [] e = refl
numeral_ends radix value (c ∷ rest) e = rw (chrton_end c radix e, numeral) refl

numeral_digit :
    (radix value number : ℕ) (rest : List ℕ)
    → 2 ≤ radix
    → radix ≤ 36
    → numeral radix value (ntochr_value (number % radix) ∷ rest)
      ≡ numeral radix (value * radix + number % radix) rest
unfolding numeral
numeral_digit radix value number rest low high =
    let below : number % radix < radix = mod-lt number (omega arith) in
    let e = (chrton-ntochr (number % radix) radix below high).1 in rw (e, numeral) refl

no_higher : (radix number : ℕ) → (number / radix == 0) ≡ true → number / radix ≡ 0
no_higher radix number e = ground arith

numeral_last :
    (k radix number : ℕ) (rest : List ℕ)
    → 2 ≤ radix
    → radix ≤ 36
    → (number / radix == 0) ≡ true
    → numeral radix 0 (digits (suc k) radix number ++ rest) ≡ numeral radix number rest
numeral_last k radix number rest low high e =
    let same : 0 * radix + number % radix ≡ number =
      ap (λ q. q * radix + number % radix) (sym (no_higher radix number e))
      ∙ div-add-mod' number radix in
    rw (digits_last k radix number e)
      (numeral_digit radix 0 number rest low high ∙ ap (λ n. numeral radix n rest) same)

-- The digits of a number stand for that number, whatever follows.
pub numeral-digits :
    (k radix number : ℕ) (rest : List ℕ)
    → 2 ≤ radix
    → radix ≤ 36
    → number < 2 ^ k
    → numeral radix 0 (digits (suc k) radix number ++ rest) ≡ numeral radix number rest
numeral-digits zero radix number rest low high small =
    numeral_last 0 radix number rest low high (nothing_left number radix small)
numeral-digits (suc k) radix number rest low high small = elim (Bool-cases (number / radix == 0)) [
  | inl e ↦ numeral_last (suc k) radix number rest low high e
  | inr e ↦
      let higher : List ℕ = digits (suc k) radix (number / radix) in
      let c : ℕ = ntochr_value (number % radix) in
      let ih =
        numeral-digits k radix (number / radix) (c ∷ rest) low high
          (shrinks k number radix low small) in
      rw (digits_more (suc k) radix number e, append_assoc higher (c ∷ []) rest)
        (ih
          ∙ numeral_digit radix (number / radix) number rest low high
          ∙ ap (λ n. numeral radix n rest) (div-add-mod' number radix))
]

-- How the digits of a number begin: with another digit than 0, but for the number 0.
abbrev pub Begins : ℕ → ℕ → List ℕ → Type 0
Begins radix number ds =
    (number ≡ 0) × (ds ≡ b'0' ∷ [])
    ⊎ (c : ℕ) × (tail : List ℕ) × (ds ≡ c ∷ tail)
      × (c ≢ b'0')
      × (isalnum c ≡ 1)
      × (chrton c radix ≢ none)

digit_char : (digit : ℕ) → digit < 36 → isalnum (ntochr_value digit) ≡ 1
unfolding isalnum ntochr_value
digit_char digit h = ground arith

digit_nonzero : (digit : ℕ) → 0 < digit → digit < 36 → ntochr_value digit ≢ b'0'
unfolding ntochr_value
digit_nonzero digit pos h e = ground arith

ntochr_value_zero : ◌≡◌ {A = List ℕ} (ntochr_value 0 ∷ []) (b'0' ∷ [])
unfolding ntochr_value
ntochr_value_zero = refl

digit_read : {o : Option ℕ} {d : ℕ} → o ≡ some d → o ≢ none
digit_read {o} {d} e f = ground (arith, e, f)

last-Begins :
    (k radix number : ℕ)
    → 2 ≤ radix
    → radix ≤ 36
    → (number / radix == 0) ≡ true
    → Begins radix number (digits (suc k) radix number)
last-Begins k radix number low high e =
    let d : ℕ = number % radix in
    let small : d < radix = mod-lt number (omega arith) in
    let below : d < 36 = omega arith in
    let whole : number ≡ d =
      sym (div-add-mod' number radix)
      ∙ ap (λ q. q * radix + number % radix) (no_higher radix number e)
      ∙ omega arith in
    elim (ℕ_discrete d 0) [
      | yes z ↦ inl (
        whole ∙ z,
        digits_last k radix number e ∙ ap (λ n. ntochr_value n ∷ []) z ∙ ntochr_value_zero,
      )
      | no nz ↦ inr (
        ntochr_value d,
        [],
        digits_last k radix number e,
        digit_nonzero d (omega (arith, nz)) below,
        digit_char d below,
        λ e. digit_read (chrton-ntochr d radix small high).1 e,
      )
    ]

pub digits-Begins :
    (k radix number : ℕ)
    → 2 ≤ radix
    → radix ≤ 36
    → number < 2 ^ k
    → Begins radix number (digits (suc k) radix number)
digits-Begins zero radix number low high small =
    last-Begins 0 radix number low high (nothing_left number radix small)
digits-Begins (suc k) radix number low high small = elim (Bool-cases (number / radix == 0)) [
  | inl e ↦ last-Begins (suc k) radix number low high e
  | inr e ↦
      let c : ℕ = ntochr_value (number % radix) in
      elim (digits-Begins k radix (number / radix) low high (shrinks k number radix low small)) [
        | inl (z, one) ↦ absurd (ground (arith, z, e))
        | inr (d, tail, whole, nonzero, char, digit) ↦ inr (
          d,
          tail ++ (c ∷ []),
          digits_more (suc k) radix number e ∙ ap (λ ds. ds ++ (c ∷ [])) whole,
          nonzero,
          char,
          digit,
        )
      ]
]
