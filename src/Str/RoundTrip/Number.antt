-- ===== src/Str/RoundTrip/Number.antt =====
-- str/strnum.hpp: `__strton_x` on the text of `__ntostr_x`.
use native.Mathlib.Nat.{mod-eq_of_lt, pow-suc}
use mathlib.Core.List.{append_assoc}
use apilib.Base.{
  ℕ, zero, suc, ◌+◌, ◌-◌, ◌*◌, ◌/◌, ◌%◌, ◌^◌, ◌≤◌, ◌<◌, ◌≡◌, inl, inr, refl, ap, sym, ◌∙◌, arith,
}
use apilib.Base.{List, [], ◌∷◌, ◌++◌, some, Bool, true, false}
use apilib.Base.{leb, Bool-cases, drop}
use apilib.Str.{char_at}
use apilib.Str.Chr.{isalnum, isblank}
use apilib.Str.Read.{
  bad_radix, skip_blanks, read_sign, signed_value, limit_of, finish, after_sign, after_blanks,
  strton, read_digits,
}
use apilib.Str.Read.Digits.{numeral, reads_ten, Fits, read_digits-numeral}
use apilib.Str.Print.{is_negative, magnitude}
use apilib.Str.Print.Digits.{digits}
use apilib.Str.Print.Text.{sign_text, prefix_text, base_of, number_text}
use apilib.Str.Print.Number.{magnitude_small, base_range}
use apilib.Str.RoundTrip.Prefix.{skip_blanks_alnum, after_sign_digits, text_first}
use apilib.Str.RoundTrip.Digits.{numeral_ends, numeral-digits, Begins, digits-Begins}

-- What follows a number ends it.
reads_ten-append :
    (ds rest : List ℕ)
    → isalnum (char_at rest 0) ≡ 0
    → reads_ten ds ≡ false
    → reads_ten (ds ++ rest) ≡ false
unfolding reads_ten isalnum
reads_ten-append [] [] ends e = refl
reads_ten-append [] (c ∷ rest) ends e = ground arith
reads_ten-append (d ∷ []) [] ends e = e
reads_ten-append (d ∷ []) (c ∷ rest) ends e =
    ground (arith, reads_ten-append [] (c ∷ rest) ends refl)
reads_ten-append (d ∷ f ∷ ds) rest ends e = ground (arith, reads_ten-append (f ∷ ds) rest ends)

even : (w : ℕ) → 1 ≤ w → (x : ℕ) × (2 ^ w ≡ x * 2)
even zero h = absurd (omega arith)
even (suc w) h = (2 ^ w, pow-suc 2 w)

-- The limit on the absolute value lets every number of the type pass.
magnitude_within :
    (is_signed : Bool) (w number : ℕ)
    → 1 ≤ w
    → number < 2 ^ w
    → Fits w (limit_of is_signed w (is_negative is_signed w number)) (magnitude is_signed w number)
unfolding limit_of magnitude is_negative
magnitude_within false w number bits small = (small, λ h. absurd (omega arith))
magnitude_within true w number bits small =
    let (x, twice) = even w bits in
    elim (Bool-cases (leb ((2 ^ w - 1) / 2 + 1) number)) [
      | inl e ↦
          let above : (2 ^ w - 1) / 2 + 1 ≤ number = ground arith in
          let wrapped : (2 ^ w - number) % 2 ^ w ≡ 2 ^ w - number = mod-eq_of_lt (omega arith) in
          rw (e, wrapped) (omega arith, λ h. omega (arith, twice))
      | inr e ↦
          let below : number < (2 ^ w - 1) / 2 + 1 = ground arith in rw e (small, λ h. omega arith)
    ]

-- The sign is put back.
magnitude_back :
    (is_signed : Bool) (w number : ℕ) (rest : List ℕ)
    → 1 ≤ w
    → number < 2 ^ w
    → signed_value w (is_negative is_signed w number) (magnitude is_signed w number, rest)
      ≡ (number, rest)
unfolding signed_value magnitude is_negative
magnitude_back false w number rest bits small = refl
magnitude_back true w number rest bits small =
    elim (Bool-cases (leb ((2 ^ w - 1) / 2 + 1) number)) [
      | inl e ↦
          let above : (2 ^ w - 1) / 2 + 1 ≤ number = ground arith in
          let wrapped : (2 ^ w - number) % 2 ^ w ≡ 2 ^ w - number = mod-eq_of_lt (omega arith) in
          let back : (2 ^ w - (2 ^ w - number)) % 2 ^ w ≡ number =
            ap (λ n. n % 2 ^ w) (omega arith) ∙ mod-eq_of_lt small in
          rw (e, wrapped, back) refl
      | inr e ↦ rw e refl
    ]

finish-digits :
    (is_signed : Bool) (w number radix : ℕ) (rest : List ℕ)
    → bad_radix radix ≡ false
    → 1 ≤ w
    → number < 2 ^ w
    → isalnum (char_at rest 0) ≡ 0
    → let ds : List ℕ = digits (suc w) (base_of radix) (magnitude is_signed w number) in
      reads_ten ds ≡ false
      → finish is_signed w (is_negative is_signed w number) radix (ds ++ rest) ≡ (number, rest)
unfolding finish
finish-digits is_signed w number radix rest good bits small ends ten =
    let n : ℕ = magnitude is_signed w number in
    let negative : Bool = is_negative is_signed w number in
    let base : ℕ = base_of radix in
    let limit : ℕ = limit_of is_signed w negative in
    let ds : List ℕ = digits (suc w) base n in
    let (low, high) = base_range radix good in
    let value : numeral base 0 (ds ++ rest) ≡ (n, rest) =
      numeral-digits w base n rest low high (magnitude_small is_signed w number small)
      ∙ numeral_ends base n rest ends in
    let fits : Fits w limit (numeral base 0 (ds ++ rest)).0 =
      rw value (magnitude_within is_signed w number bits small) in
    let read : read_digits w base limit (ds ++ rest) ≡ (n, rest) =
      read_digits-numeral w base limit (ds ++ rest) low (reads_ten-append ds rest ends ten) fits
      ∙ value in
    ap (signed_value w negative) read ∙ magnitude_back is_signed w number rest bits small

sign_none : (is_signed : Bool) (c : ℕ) → isalnum c ≡ 1 → read_sign is_signed c ≡ some (false, 0)
unfolding read_sign isalnum
sign_none is_signed c e = ground arith

sign_minus :
    (is_signed : Bool) (w number : ℕ)
    → is_negative is_signed w number ≡ true
    → read_sign is_signed b'-' ≡ some (true, 1)
unfolding read_sign is_negative
sign_minus true w number e = refl
sign_minus false w number e = absurd (cc)

skip_blanks_minus : (tail : List ℕ) → skip_blanks (b'-' ∷ tail) ≡ b'-' ∷ tail
unfolding skip_blanks isblank
skip_blanks_minus tail = refl

sign_some :
    (is_signed : Bool) (w number : ℕ)
    → is_negative is_signed w number ≡ true
    → sign_text is_signed w number ≡ b'-' ∷ []
unfolding sign_text
sign_some is_signed w number e = rw e refl

sign_empty :
    (is_signed : Bool) (w number : ℕ)
    → is_negative is_signed w number ≡ false
    → sign_text is_signed w number ≡ []
unfolding sign_text
sign_empty is_signed w number e = rw e refl

after_blanks_at :
    (is_signed : Bool) (w radix : ℕ) (negative : Bool) (skipped c : ℕ) (string tail : List ℕ)
    → string ≡ c ∷ tail
    → read_sign is_signed c ≡ some (negative, skipped)
    → after_blanks is_signed w radix string
      ≡ after_sign is_signed w negative radix (skip_blanks (drop skipped (c ∷ tail)))
unfolding after_blanks
after_blanks_at is_signed w radix negative skipped c string tail same e =
    ap (after_blanks is_signed w radix) same ∙ rw (e, after_blanks) refl

-- The text from the sign on.
after_blanks_text :
    (is_signed : Bool) (w number radix : ℕ) (text : List ℕ) (c : ℕ) (tail : List ℕ)
    → text ≡ c ∷ tail
    → isalnum c ≡ 1
    → after_blanks is_signed w radix (skip_blanks (sign_text is_signed w number ++ text))
      ≡ after_sign is_signed w (is_negative is_signed w number) radix (skip_blanks text)
after_blanks_text is_signed w number radix text c tail same char =
    elim (Bool-cases (is_negative is_signed w number)) [
      | inl e ↦
          let string : skip_blanks (sign_text is_signed w number ++ text) ≡ b'-' ∷ text =
            ap (λ s. skip_blanks (s ++ text)) (sign_some is_signed w number e)
            ∙ skip_blanks_minus text in
          after_blanks_at is_signed w radix true 1 b'-'
            (skip_blanks (sign_text is_signed w number ++ text)) text string
            (sign_minus is_signed w number e)
          ∙ ap (λ n. after_sign is_signed w n radix (skip_blanks text)) (sym e)
      | inr e ↦
          let string : skip_blanks (sign_text is_signed w number ++ text) ≡ c ∷ tail =
            ap (λ s. skip_blanks (s ++ text)) (sign_empty is_signed w number e)
            ∙ ap skip_blanks same
            ∙ skip_blanks_alnum c tail char in
          after_blanks_at is_signed w radix false 0 c
            (skip_blanks (sign_text is_signed w number ++ text)) tail string
            (sign_none is_signed c char)
          ∙ ap (λ t. after_sign is_signed w false radix (skip_blanks t)) (sym same)
          ∙ ap (λ n. after_sign is_signed w n radix (skip_blanks text)) (sym e)
    ]

-- Every number of a type of `w` bits, signed or not, that is written with or without a prefix is
-- read back from its text as the same number, and `endptr` is left behind the text, if what stands
-- there is neither a letter nor a digit; for each valid radix, 0 included, unless the digits of the
-- number begin with 1 and 0.
pub strton-number_text :
    (is_signed : Bool) (w number radix prefix : ℕ) (rest : List ℕ)
    → bad_radix radix ≡ false
    → 1 ≤ w
    → number < 2 ^ w
    → isalnum (char_at rest 0) ≡ 0
    → reads_ten (digits (suc w) (base_of radix) (magnitude is_signed w number)) ≡ false
    → strton is_signed w (number_text is_signed w number radix prefix ++ rest) radix
      ≡ (number, rest)
unfolding strton number_text
strton-number_text is_signed w number radix prefix rest good bits small ends ten =
    let n : ℕ = magnitude is_signed w number in
    let sign : List ℕ = sign_text is_signed w number in
    let pre : List ℕ = prefix_text prefix radix in
    let ds : List ℕ = digits (suc w) (base_of radix) n in
    let (low, high) = base_range radix good in
    let begins : Begins (base_of radix) n ds =
      digits-Begins w (base_of radix) n low high (magnitude_small is_signed w number small) in
    let (c, tail, same, char) = text_first (base_of radix) n prefix radix ds rest begins in
    let whole : (sign ++ (pre ++ ds)) ++ rest ≡ sign ++ (pre ++ (ds ++ rest)) =
      append_assoc sign (pre ++ ds) rest ∙ ap (λ t. sign ++ t) (append_assoc pre ds rest) in
    rw (good, whole)
      (after_blanks_text is_signed w number radix (pre ++ (ds ++ rest)) c tail same char
        ∙ after_sign_digits is_signed w (is_negative is_signed w number) prefix radix n ds rest ends
            begins
        ∙ finish-digits is_signed w number radix rest good bits small ends ten)
