-- ===== src/Str/Read/Wrap.antt =====
-- str/strnum.hpp: the loops that read digits of an unsigned number, on digits that are too many.
use native.Mathlib.Nat.{mod-lt, mod-le, one-le-pow}
use apilib.Base.{ℕ, ◌+◌, ◌*◌, ◌%◌, ◌^◌, ◌≤◌, ◌<◌, ◌≡◌, refl, ap, sym, ◌∙◌, arith, inl, inr}
use apilib.Base.{List, [], ◌∷◌, ◌++◌, some, false}
use apilib.Base.{Bool-cases, Option-cases}
use apilib.Str.ChrNum.{chrton}
use apilib.Str.Read.{stops, sum_bits, strton_loop, strton_mul, read_digits}
use apilib.Str.Read.Digits.{read_digits-strton_mul}

-- Where all of a front is read, the loop goes on behind it.
loop_append :
    (scale : ℕ → ℕ) (w radix limit value last : ℕ) (front tail : List ℕ)
    → strton_loop scale w radix limit value front ≡ (last, [])
    → strton_loop scale w radix limit value (front ++ tail)
      ≡ strton_loop scale w radix limit last tail
unfolding strton_loop
loop_append scale w radix limit value last [] tail e =
    ap (λ v. strton_loop scale w radix limit v tail) (ap (λ r. r.0) e)
loop_append scale w radix limit value last (c ∷ front) tail e =
    elim (Option-cases (chrton c radix)) [
      | inl o ↦ absurd (ground (arith, o, e))
      | inr (digit, o) ↦
          let temp : ℕ = (scale value + digit) % 2 ^ w in
          elim (Bool-cases (stops w radix limit value temp)) [
            | inl s ↦ absurd (ground (arith, o, s, e))
            | inr s ↦
                let rest : strton_loop scale w radix limit temp front ≡ (last, []) =
                  ground (arith, o, s, e) in
                rw (o, s, strton_loop) (loop_append scale w radix limit temp last front tail rest)
          ]
    ]

wraps_unseen : (w radix value temp : ℕ) → value + radix ≤ temp → stops w radix 0 value temp ≡ false
unfolding stops
wraps_unseen w radix value temp grows =
    let sum : (value + radix) % 2 ^ sum_bits w ≤ value + radix =
      mod-le (value + radix) (2 ^ sum_bits w) in
    ground (arith, grows, sum)

one_digit :
    (w radix value c digit : ℕ)
    → chrton c radix ≡ some digit
    → value + radix ≤ (value * radix + digit) % 2 ^ w
    → strton_loop (λ v. v * radix) w radix 0 value (c ∷ []) ≡ ((value * radix + digit) % 2 ^ w, [])
unfolding strton_loop
one_digit w radix value c digit e grows =
    let pass = wraps_unseen w radix value ((value * radix + digit) % 2 ^ w) grows in
    rw (e, pass, strton_loop) refl

-- DEFECT. An unsigned number that a further digit takes beyond its type is reduced modulo 2^w and
-- returned as if it had been read in full, whenever the reduced number is at least the number
-- before plus the radix.
pub overflow_unseen :
    (w radix value c digit : ℕ) (front : List ℕ)
    → read_digits w radix 0 front ≡ (value, [])
    → chrton c radix ≡ some digit
    → 2 ^ w ≤ value * radix + digit
    → value + radix ≤ (value * radix + digit) % 2 ^ w
    → (read_digits w radix 0 (front ++ (c ∷ [])) ≡ ((value * radix + digit) % 2 ^ w, []))
      × ((value * radix + digit) % 2 ^ w < value * radix + digit)
unfolding strton_mul
overflow_unseen w radix value c digit front e d large grows =
    let exact : ℕ = value * radix + digit in
    let before : strton_mul w radix 0 front ≡ (value, []) =
      sym (read_digits-strton_mul w radix 0 front) ∙ e in
    let reduced : exact % 2 ^ w < 2 ^ w = mod-lt exact (one-le-pow w 2 (omega arith)) in
    (
      read_digits-strton_mul w radix 0 (front ++ (c ∷ []))
          ∙ loop_append (λ v. v * radix) w radix 0 0 value front (c ∷ []) before
          ∙ one_digit w radix value c digit d grows,
      omega arith,
    )
