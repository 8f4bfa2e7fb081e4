-- ===== src/Str/Print/Text.antt =====
-- str/strnum.hpp: the text that `__ntostr_x` writes.
use native.Mathlib.Decide.{ℕ_discrete}
use mathlib.Core.List.{append-nil, append_assoc}
use apilib.Base.{ℕ, suc, ◌+◌, ◌-◌, ◌^◌, ◌≤◌, ◌<◌, ◌≡◌, inl, inr, refl, ap, ◌∙◌, arith}
use apilib.Base.{List, [], ◌∷◌, ◌++◌, some, Bool, true, false}
use apilib.Base.{◌==◌, if◌then◌else◌, Bool-cases, length, length-append, set, overwrite_at}
use apilib.Base.{set-overwrite_at, overwrite_at-behind, overwrite_at-nil}
use apilib.Str.Print.{
  Cursor, ntostr_lsh, ntostr_div, print_digits, put_char, put_sign, put_prefix, put_number,
  is_negative, magnitude,
}
use apilib.Str.Print.Digits.{digits, loop_counts, ntostr_loop-Writes, length-digits_pos}

unfoldable pub sign_text : Bool → ℕ → ℕ → List ℕ
sign_text is_signed w number = if is_negative is_signed w number then b'-' ∷ [] else []

unfoldable pub prefix_text : ℕ → ℕ → List ℕ
prefix_text prefix radix =
    if prefix == 0
    then []
    else if radix == 8
    then b'0' ∷ []
    else if radix == 16
    then b'0' ∷ (b'x' ∷ [])
    else []

abbrev pub base_of : ℕ → ℕ
base_of radix = if radix == 0 then 10 else radix

-- The text of a number: its sign, its prefix and its digits.
unfoldable pub number_text : Bool → ℕ → ℕ → ℕ → ℕ → List ℕ
number_text is_signed w number radix prefix =
    sign_text is_signed w number
    ++ (prefix_text prefix radix ++ digits (suc w) (base_of radix) (magnitude is_signed w number))

-- Shifting is division: every case of `switch(radix)` is the loop that divides.
pub print_digits-ntostr_div :
    (w number string radix : ℕ) (text : List ℕ)
    → print_digits w number string radix text ≡ ntostr_div w number string radix text
unfolding print_digits ntostr_div ntostr_lsh
print_digits-ntostr_div w number string radix text = elim (ℕ_discrete radix 2) [
  | yes e ↦ rw e refl
  | no n2 ↦ elim (ℕ_discrete radix 4) [
    | yes e ↦ rw e refl
    | no n4 ↦ elim (ℕ_discrete radix 8) [
      | yes e ↦ rw e refl
      | no n8 ↦ elim (ℕ_discrete radix 16) [
        | yes e ↦ rw e refl
        | no n16 ↦ elim (ℕ_discrete radix 32) [ yes e ↦ rw e refl | no n32 ↦ ground arith ]
      ]
    ]
  ]
]

-- The state when `done` has been written at `string`.
abbrev pub cursor_after : ℕ → List ℕ → List ℕ → Cursor
cursor_after string done text = record {
  string = string + length done;
  length = length done;
  text = overwrite_at string done text;
}

pub put_char_after :
    (string c : ℕ) (done text : List ℕ)
    → 1 ≤ string
    → put_char c (cursor_after string done text) ≡ cursor_after string (done ++ (c ∷ [])) text
unfolding put_char
put_char_after string c done text pos =
    let there : (string + length done == 0) ≡ false = ground (arith, pos) in
    let n : length (done ++ (c ∷ [])) ≡ length done + 1 = length-append done (c ∷ []) in
    let here : string + length done + 1 ≡ string + (length done + 1) = omega arith in
    let written : set (overwrite_at string done text) (string + length done) c
        ≡ overwrite_at string (done ++ (c ∷ [])) text =
      set-overwrite_at (overwrite_at string done text) (string + length done) c
      ∙ overwrite_at-behind string done (c ∷ []) text in
    rw (there, n, here, written) refl

pub cursor_start :
    (string : ℕ) (text : List ℕ)
    → record { string = string; length = 0; text = text } ≡ cursor_after string [] text
cursor_start string text =
    let e : string + 0 ≡ string = omega arith in rw (e, overwrite_at-nil string text) refl

-- A function that puts a character behind what a state says to be written puts the sign and the
-- prefix there.
module _ (put : ℕ → Cursor → Cursor) (state : List ℕ → Cursor)
    (step : (c : ℕ) (done : List ℕ) → put c (state done) ≡ state (done ++ (c ∷ []))) where
  pub put_sign_text :
      (is_signed : Bool) (w number : ℕ)
      → put_sign put is_signed w number (state []) ≡ state (sign_text is_signed w number)
  unfolding put_sign sign_text
  put_sign_text is_signed w number = elim (Bool-cases (is_negative is_signed w number)) [
    | inl e ↦ rw e (step b'-' [])
    | inr e ↦ rw e refl
  ]

  pub put_prefix_text :
      (prefix radix : ℕ) (done : List ℕ)
      → put_prefix put prefix radix (state done) ≡ state (done ++ prefix_text prefix radix)
  unfolding put_prefix prefix_text
  put_prefix_text prefix radix done =
      let two : put b'x' (put b'0' (state done)) ≡ state (done ++ (b'0' ∷ (b'x' ∷ []))) =
        ap (put b'x') (step b'0' done)
        ∙ step b'x' (done ++ (b'0' ∷ []))
        ∙ ap state (append_assoc done (b'0' ∷ []) (b'x' ∷ [])) in
      ground (arith, two, step b'0' done, append-nil done)

pub print_counts :
    (w number radix : ℕ) (text : List ℕ)
    → 2 ≤ radix
    → number < 2 ^ w
    → print_digits w number 0 radix text
      ≡ some (record { length = length (digits (suc w) radix number); text = text })
unfolding ntostr_div
print_counts w number radix text low small =
    print_digits-ntostr_div w number 0 radix text
    ∙ loop_counts w radix (λ length. true) number 0 text low small
    ∙ ap (λ (n : ℕ). some (record { length = n; text = text })) (omega arith)

pub print_writes :
    (w number radix start string : ℕ) (text : List ℕ)
    → 2 ≤ radix
    → radix ≤ 36
    → number < 2 ^ w
    → 1 ≤ start
    → string + 1 ≡ start + length (digits (suc w) radix number)
    → print_digits w number string radix text
      ≡ some (record {
        length = length (digits (suc w) radix number);
        text = overwrite_at start (digits (suc w) radix number) text;
      })
unfolding ntostr_div
print_writes w number radix start string text low high small pos place =
    print_digits-ntostr_div w number string radix text
    ∙ ntostr_loop-Writes w radix (λ length. true) number 0 start string text low high small
        (pos, place, λ i h. refl)
    ∙ ap
        (λ (n : ℕ).
          some
            (record { length = n; text = overwrite_at start (digits (suc w) radix number) text }))
        (omega arith)

-- The digits and the zero behind what has been written.
pub put_number_text :
    (w number radix string : ℕ) (done text : List ℕ)
    → 2 ≤ radix
    → radix ≤ 36
    → number < 2 ^ w
    → 1 ≤ string
    → let all : List ℕ = done ++ digits (suc w) radix number in
      put_number w number radix (cursor_after string done text)
      ≡ some (length all, overwrite_at string (all ++ (0 ∷ [])) text)
unfolding put_number
put_number_text w number radix string done text low high small pos =
    let ds : List ℕ = digits (suc w) radix number in
    let some_digits : 0 < length ds = length-digits_pos w radix number in
    let here : ℕ = string + length done in
    let front : List ℕ = overwrite_at string done text in
    let counted = print_counts w number radix front low small in
    let written =
      print_writes w number radix here (here + length ds - 1) front low high small (omega arith)
        (omega arith) in
    let there : (here == 0) ≡ false = ground (arith, pos) in
    let more : (length ds == 0) ≡ false = ground (arith, some_digits) in
    let n : length (done ++ ds) ≡ length done + length ds = length-append done ds in
    let digits_there : overwrite_at here ds front ≡ overwrite_at string (done ++ ds) text =
      overwrite_at-behind string done ds text in
    let zero_there : set (overwrite_at string (done ++ ds) text) (string + length (done ++ ds)) 0
        ≡ overwrite_at string ((done ++ ds) ++ (0 ∷ [])) text =
      set-overwrite_at (overwrite_at string (done ++ ds) text) (string + length (done ++ ds)) 0
      ∙ overwrite_at-behind string (done ++ ds) (0 ∷ []) text in
    let place : here + length ds ≡ string + length (done ++ ds) = omega (arith, n) in
    rw (counted, there, more, put_number, written, digits_there, place, zero_there, n) refl
