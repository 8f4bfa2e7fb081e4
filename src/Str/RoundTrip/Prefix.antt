-- ===== src/Str/RoundTrip/Prefix.antt =====
-- str/strnum.hpp: a number's prefix that is written, as it is read.
use native.Mathlib.Decide.{ℕ_discrete}
use mathlib.Core.Path.{subst}
use apilib.Base.{ℕ, ◌≡◌, ◌≢◌, ◌⊎◌, inl, inr, refl, ap, sym, ◌∙◌, arith}
use apilib.Base.{List, [], ◌∷◌, ◌++◌, none, some, Bool}
use apilib.Base.{◌==◌, Bool-cases, drop}
use apilib.Str.{char_at}
use apilib.Str.Chr.{isalnum, isblank}
use apilib.Str.ChrNum.{chrton}
use apilib.Str.Read.{skip_blanks, read_prefix, finish, after_sign}
use apilib.Str.Print.Text.{prefix_text, base_of}
use apilib.Str.RoundTrip.Digits.{Begins}

pub skip_blanks_alnum : (c : ℕ) (tail : List ℕ) → isalnum c ≡ 1 → skip_blanks (c ∷ tail) ≡ c ∷ tail
unfolding skip_blanks isalnum isblank
skip_blanks_alnum c tail e = ground arith

prefix_none : (radix c chr : ℕ) → c ≢ b'0' → read_prefix radix c chr ≡ some (radix, 0)
unfolding read_prefix
prefix_none radix c chr ne = ground arith

prefix_zero : (radix chr : ℕ) → isalnum chr ≡ 0 → read_prefix radix b'0' chr ≡ some (radix, 0)
unfolding read_prefix isalnum
prefix_zero radix chr e = ground arith

prefix_octal : (chr : ℕ) → chrton chr 8 ≢ none → read_prefix 8 b'0' chr ≡ some (8, 1)
unfolding read_prefix chrton
prefix_octal chr digit = ground (arith, digit)

isalnum_zero : isalnum b'0' ≡ 1
unfolding isalnum
isalnum_zero = refl

after_sign_prefix :
    (is_signed : Bool) (w : ℕ) (negative : Bool) (radix base skipped c : ℕ) (tail : List ℕ)
    → read_prefix radix c (char_at tail 0) ≡ some (base, skipped)
    → after_sign is_signed w negative radix (c ∷ tail)
      ≡ finish is_signed w negative base (drop skipped (c ∷ tail))
unfolding after_sign
after_sign_prefix is_signed w negative radix base skipped c tail e = rw (e, after_sign) refl

-- The rest of the text after the sign: where its blanks end and what its prefix is.
after_sign_at :
    (is_signed : Bool) (w : ℕ) (negative : Bool) (radix base skipped c : ℕ) (string tail : List ℕ)
    → string ≡ c ∷ tail
    → isalnum c ≡ 1
    → read_prefix radix c (char_at tail 0) ≡ some (base, skipped)
    → after_sign is_signed w negative radix (skip_blanks string)
      ≡ finish is_signed w negative base (drop skipped (c ∷ tail))
after_sign_at is_signed w negative radix base skipped c string tail same char e =
    ap (after_sign is_signed w negative radix) (ap skip_blanks same ∙ skip_blanks_alnum c tail char)
    ∙ after_sign_prefix is_signed w negative radix base skipped c tail e

-- The digits with no prefix.
after_sign_plain :
    (is_signed : Bool) (w : ℕ) (negative : Bool) (radix base number : ℕ) (ds rest : List ℕ)
    → isalnum (char_at rest 0) ≡ 0
    → Begins base number ds
    → after_sign is_signed w negative radix (skip_blanks (ds ++ rest))
      ≡ finish is_signed w negative radix (ds ++ rest)
after_sign_plain is_signed w negative radix base number ds rest ends (inl (z, one)) =
    let same : ds ++ rest ≡ b'0' ∷ rest = ap (λ d. d ++ rest) one in
    after_sign_at is_signed w negative radix radix 0 b'0' (ds ++ rest) rest same isalnum_zero
      (prefix_zero radix (char_at rest 0) ends)
    ∙ ap (finish is_signed w negative radix) (sym same)
after_sign_plain is_signed w negative radix base number ds rest ends
      (inr (c, tail, whole, nonzero, char, digit)) =
    let same : ds ++ rest ≡ c ∷ (tail ++ rest) = ap (λ d. d ++ rest) whole in
    after_sign_at is_signed w negative radix radix 0 c (ds ++ rest) (tail ++ rest) same char
      (prefix_none radix c (char_at (tail ++ rest) 0) nonzero)
    ∙ ap (finish is_signed w negative radix) (sym same)

-- The first digit, in octal, shows that there is a prefix.
first_octal :
    (number : ℕ) (ds rest : List ℕ) → Begins 8 number ds → chrton (char_at (ds ++ rest) 0) 8 ≢ none
unfolding chrton
first_octal number ds rest (inl (z, one)) e =
    let bad : chrton b'0' 8 ≡ none = ap (λ d. chrton (char_at (d ++ rest) 0) 8) (sym one) ∙ e in
    absurd (cc)
first_octal number ds rest (inr (c, tail, whole, nonzero, char, digit)) e =
    digit (ap (λ d. chrton (char_at (d ++ rest) 0) 8) (sym whole) ∙ e)

prefix_cases :
    (prefix radix : ℕ)
    → (prefix_text prefix radix ≡ [])
      ⊎ ((radix ≡ 8) × (prefix_text prefix radix ≡ b'0' ∷ [])
          ⊎ (radix ≡ 16) × (prefix_text prefix radix ≡ b'0' ∷ (b'x' ∷ [])))
unfolding prefix_text
prefix_cases prefix radix = elim (Bool-cases (prefix == 0)) [
  | inl p ↦ inl (rw p refl)
  | inr p ↦ elim (ℕ_discrete radix 8) [
    | yes e ↦ inr (inl (e, rw (p, e) refl))
    | no n8 ↦ elim (ℕ_discrete radix 16) [
      | yes e ↦ inr (inr (e, rw (p, e) refl))
      | no n16 ↦ inl (ground (arith, n8, n16))
    ]
  ]
]

prefix_hex : (radix : ℕ) → radix ≡ 16 → read_prefix radix b'0' b'x' ≡ some (radix, 2)
unfolding read_prefix
prefix_hex radix e = rw e refl

-- The digits with their prefix, in the three forms that it has.
pub after_sign_digits :
    (is_signed : Bool) (w : ℕ) (negative : Bool) (prefix radix number : ℕ) (ds rest : List ℕ)
    → isalnum (char_at rest 0) ≡ 0
    → Begins (base_of radix) number ds
    → after_sign is_signed w negative radix (skip_blanks (prefix_text prefix radix ++ (ds ++ rest)))
      ≡ finish is_signed w negative radix (ds ++ rest)
after_sign_digits is_signed w negative prefix radix number ds rest ends begins =
    elim (prefix_cases prefix radix) [
      | inl e ↦
          rw e
            (after_sign_plain is_signed w negative radix (base_of radix) number ds rest ends begins)
      | inr (inl (octal, e)) ↦
          let first : chrton (char_at (ds ++ rest) 0) 8 ≢ none =
            first_octal number ds rest (subst (λ r. Begins (base_of r) number ds) octal begins) in
          let skips : read_prefix radix b'0' (char_at (ds ++ rest) 0) ≡ some (radix, 1) =
            rw octal (prefix_octal (char_at (ds ++ rest) 0) first) in
          after_sign_at is_signed w negative radix radix 1 b'0'
            (prefix_text prefix radix ++ (ds ++ rest)) (ds ++ rest) (ap (λ t. t ++ (ds ++ rest)) e)
            isalnum_zero skips
      | inr (inr (hex, e)) ↦
          after_sign_at is_signed w negative radix radix 2 b'0'
            (prefix_text prefix radix ++ (ds ++ rest)) (b'x' ∷ (ds ++ rest))
            (ap (λ t. t ++ (ds ++ rest)) e) isalnum_zero (prefix_hex radix hex)
    ]

-- The text after the sign begins with a letter or a digit.
pub text_first :
    (base number prefix radix : ℕ) (ds rest : List ℕ)
    → Begins base number ds
    → (c : ℕ) × (tail : List ℕ) × (prefix_text prefix radix ++ (ds ++ rest) ≡ c ∷ tail)
      × (isalnum c ≡ 1)
text_first base number prefix radix ds rest begins = elim (prefix_cases prefix radix) [
  | inl e ↦ elim begins [
    | inl (z, one) ↦
        (b'0', rest, ap (λ t. t ++ (ds ++ rest)) e ∙ ap (λ d. d ++ rest) one, isalnum_zero)
    | inr (c, tail, whole, nonzero, char, digit) ↦
        (c, tail ++ rest, ap (λ t. t ++ (ds ++ rest)) e ∙ ap (λ d. d ++ rest) whole, char)
  ]
  | inr (inl (octal, e)) ↦ (b'0', ds ++ rest, ap (λ t. t ++ (ds ++ rest)) e, isalnum_zero)
  | inr (inr (hex, e)) ↦ (b'0', b'x' ∷ (ds ++ rest), ap (λ t. t ++ (ds ++ rest)) e, isalnum_zero)
]
