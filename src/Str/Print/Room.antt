-- ===== src/Str/Print/Room.antt =====
-- str/strnum.hpp: `__ntostr_lx`, which writes a number where it has room.
use native.Mathlib.Decide.{ℕ_discrete}
use mathlib.Core.List.{append_assoc}
use apilib.Base.{ℕ, suc, ◌+◌, ◌-◌, ◌^◌, ◌≤◌, ◌<◌, ◌≡◌, inl, inr, refl, ap, ◌∙◌, arith}
use apilib.Base.{List, [], ◌∷◌, ◌++◌, some, Bool, true, false, not, ◌&&◌, ◌||◌}
use apilib.Base.{
  ltb, ◌==◌, if◌then◌else◌, Bool-cases, length, length-append, set, take, overwrite_at,
}
use apilib.Base.{
  set-overwrite_at, overwrite_at-behind, overwrite_at-nil, take_all, take-append_full,
}
use apilib.Str.Read.{bad_radix}
use apilib.Str.Print.{
  Cursor, ntostr_lsh_l, ntostr_div_l, print_digits_l, put_char_l, put_number_l, ntostr_l, magnitude,
}
use apilib.Str.Print.Digits.{digits, loop_counts, ntostr_loop-Writes, length-digits_pos}
use apilib.Str.Print.Text.{
  sign_text, prefix_text, base_of, number_text, put_sign_text, put_prefix_text,
}
use apilib.Str.Print.Number.{magnitude_small, base_range}

-- Shifting is division here as well.
print_digits_l-ntostr_div_l :
    (w number string maxcnt radix : ℕ) (text : List ℕ)
    → print_digits_l w number string maxcnt radix text
      ≡ ntostr_div_l w number string maxcnt radix text
unfolding print_digits_l ntostr_div_l ntostr_lsh_l
print_digits_l-ntostr_div_l w number string maxcnt radix text = elim (ℕ_discrete radix 2) [
  | yes e ↦ rw e refl
  | no n2 ↦ elim (ℕ_discrete radix 4) [
    | yes e ↦ rw e refl
    | no n4 ↦ elim (ℕ_discrete radix 8) [
      | yes e ↦ rw e refl
      | no n8 ↦ elim (ℕ_discrete radix 16) [
        | yes e ↦ rw e refl
        | no n16 ↦ elim (ℕ_discrete radix 32) [ yes e ↦ rw e refl | no n32 ↦ ground arith ]
      ]
    ]
  ]
]

-- The state when `done` has been put at `string`, of which `maxcnt` characters have room.
abbrev cursor_room : ℕ → ℕ → List ℕ → List ℕ → Cursor
cursor_room string maxcnt text done = record {
  string = string + (if ltb (length done) maxcnt then length done else maxcnt);
  length = length done;
  text = overwrite_at string (take maxcnt done) text;
}

cursor_room_start :
    (string maxcnt : ℕ) (text : List ℕ)
    → record { string = string; length = 0; text = text } ≡ cursor_room string maxcnt text []
cursor_room_start string maxcnt text =
    let none_put : take {A = ℕ} maxcnt [] ≡ [] = take_all maxcnt [] (omega arith) in
    let here : string + (if ltb 0 maxcnt then 0 else maxcnt) ≡ string = ground arith in
    rw (none_put, here, overwrite_at-nil string text) refl

put_char_l_room :
    (string maxcnt : ℕ) (text : List ℕ)
    → 1 ≤ string
    → (c : ℕ) (done : List ℕ)
    → put_char_l maxcnt c (cursor_room string maxcnt text done)
      ≡ cursor_room string maxcnt text (done ++ (c ∷ []))
unfolding put_char_l
put_char_l_room string maxcnt text pos c done =
    let n : length (done ++ (c ∷ [])) ≡ length done + 1 = length-append done (c ∷ []) in
    elim (Bool-cases (ltb (length done) maxcnt)) [
      | inl fits ↦
          let below : length done < maxcnt = ground arith in
          let there : (string + length done == 0) ≡ false = ground (arith, pos) in
          let before : take maxcnt done ≡ done = take_all maxcnt done (omega arith) in
          let after : take maxcnt (done ++ (c ∷ [])) ≡ done ++ (c ∷ []) =
            take_all maxcnt (done ++ (c ∷ [])) (omega (arith, n)) in
          let next : (if ltb (length done + 1) maxcnt then length done + 1 else maxcnt)
              ≡ length done + 1 =
            ground (arith, below) in
          let written : set (overwrite_at string done text) (string + length done) c
              ≡ overwrite_at string (done ++ (c ∷ [])) text =
            set-overwrite_at (overwrite_at string done text) (string + length done) c
            ∙ overwrite_at-behind string done (c ∷ []) text in
          let place : string + length done + 1 ≡ string + (length done + 1) = omega arith in
          rw (n, fits, there, before, after, next, written, place) refl
      | inr full ↦
          let above : maxcnt ≤ length done = ground arith in
          let same : take maxcnt (done ++ (c ∷ [])) ≡ take maxcnt done =
            take-append_full maxcnt done (c ∷ []) above in
          let next : ltb (length done + 1) maxcnt ≡ false = ground (arith, above) in
          let idle : (not (string + maxcnt == 0) && false) ≡ false = ground arith in
          rw (n, full, same, next, idle) refl
    ]

print_counts_l :
    (w number radix : ℕ) (text : List ℕ)
    → 2 ≤ radix
    → number < 2 ^ w
    → print_digits_l w number 0 0 radix text
      ≡ some (record { length = length (digits (suc w) radix number); text = text })
unfolding ntostr_div_l
print_counts_l w number radix text low small =
    print_digits_l-ntostr_div_l w number 0 0 radix text
    ∙ loop_counts w radix (λ i. ltb i 0) number 0 text low small
    ∙ ap (λ (n : ℕ). some (record { length = n; text = text })) (omega arith)

print_writes_l :
    (w number radix start string maxcnt : ℕ) (text : List ℕ)
    → 2 ≤ radix
    → radix ≤ 36
    → number < 2 ^ w
    → 1 ≤ start
    → string + 1 ≡ start + length (digits (suc w) radix number)
    → length (digits (suc w) radix number) ≤ maxcnt
    → print_digits_l w number string maxcnt radix text
      ≡ some (record {
        length = length (digits (suc w) radix number);
        text = overwrite_at start (digits (suc w) radix number) text;
      })
unfolding ntostr_div_l
print_writes_l w number radix start string maxcnt text low high small pos place space =
    print_digits_l-ntostr_div_l w number string maxcnt radix text
    ∙ ntostr_loop-Writes w radix (λ i. ltb i maxcnt) number 0 start string text low high small
        (pos, place, λ i h. ground (arith, space, h))
    ∙ ap
        (λ (n : ℕ).
          some
            (record { length = n; text = overwrite_at start (digits (suc w) radix number) text }))
        (omega arith)

-- The digits that have room, and the zero.
digits_fit :
    (w number radix string maxlen maxcnt : ℕ) (done text : List ℕ)
    → 2 ≤ radix
    → radix ≤ 36
    → number < 2 ^ w
    → 1 ≤ string
    → let all : List ℕ = done ++ digits (suc w) radix number in
      length all ≤ maxcnt
      → length all < maxlen
      → put_number_l w number radix maxlen maxcnt (cursor_room string maxcnt text done)
        ≡ some (length all, overwrite_at string (all ++ (0 ∷ [])) text)
unfolding put_number_l
digits_fit w number radix string maxlen maxcnt done text low high small pos fits ended =
    let ds : List ℕ = digits (suc w) radix number in
    let n : length (done ++ ds) ≡ length done + length ds = length-append done ds in
    let some_digits : 0 < length ds = length-digits_pos w radix number in
    let below : ltb (length done) maxcnt ≡ true = ground (arith, n, some_digits, fits) in
    let before : take maxcnt done ≡ done = take_all maxcnt done (omega (arith, n)) in
    let here : ℕ = string + length done in
    let front : List ℕ = overwrite_at string done text in
    let counted = print_counts_l w number radix front low small in
    let written =
      print_writes_l w number radix here (here + length ds - 1) (maxcnt - length done) front low
        high small (omega arith) (omega arith) (omega (arith, n)) in
    let go : (here == 0 || (length ds == 0 || ltb maxcnt (length done + length ds))) ≡ false =
      ground (arith, pos, some_digits, n, fits) in
    let ends : ltb (length done + length ds) maxlen ≡ true = ground (arith, n, ended) in
    let digits_there : overwrite_at here ds front ≡ overwrite_at string (done ++ ds) text =
      overwrite_at-behind string done ds text in
    let zero_there : set (overwrite_at string (done ++ ds) text) (string + length (done ++ ds)) 0
        ≡ overwrite_at string ((done ++ ds) ++ (0 ∷ [])) text =
      set-overwrite_at (overwrite_at string (done ++ ds) text) (string + length (done ++ ds)) 0
      ∙ overwrite_at-behind string (done ++ ds) (0 ∷ []) text in
    let place : here + length ds ≡ string + length (done ++ ds) = omega (arith, n) in
    let same : cursor_room string maxcnt text done
        ≡ record { string = here; length = length done; text = front } =
      rw (below, before) refl in
    ap (put_number_l w number radix maxlen maxcnt) same
    ∙ rw (counted, go, put_number_l, written, ends, digits_there, place, zero_there, n) refl

-- The digits that have no room.
digits_cut :
    (w number radix string maxlen maxcnt : ℕ) (done text : List ℕ)
    → 2 ≤ radix
    → number < 2 ^ w
    → 1 ≤ string
    → let all : List ℕ = done ++ digits (suc w) radix number in
      maxcnt < length all
      → maxlen ≤ length all
      → put_number_l w number radix maxlen maxcnt (cursor_room string maxcnt text done)
        ≡ some (length all, overwrite_at string (take maxcnt done) text)
unfolding put_number_l
digits_cut w number radix string maxlen maxcnt done text low small pos cut ended =
    let ds : List ℕ = digits (suc w) radix number in
    let n : length (done ++ ds) ≡ length done + length ds = length-append done ds in
    let place : ℕ = string + (if ltb (length done) maxcnt then length done else maxcnt) in
    let there : (place == 0) ≡ false = ground (arith, pos) in
    let counted =
      print_counts_l w number radix (overwrite_at string (take maxcnt done) text) low small in
    let more : (length ds == 0) ≡ false = ground (arith, length-digits_pos w radix number) in
    let stop : ltb maxcnt (length done + length ds) ≡ true = ground (arith, n, cut) in
    let ends : ltb (length done + length ds) maxlen ≡ false = ground (arith, n, ended) in
    rw (counted, there, more, stop, put_number_l, ends, n) refl

-- For every number of a type of `w` bits and every valid radix, `__ntostr_lx` returns the length
-- of the number's text. Where it lies below `maxlen`, the text and a zero are written at `string`,
-- as by `__ntostr_x`; otherwise only as much of the sign and the prefix as leaves one character
-- of the `maxlen`, and no zero.
pub ntostr_l-number_text :
    (is_signed : Bool) (w number string maxlen radix prefix : ℕ) (text : List ℕ)
    → bad_radix radix ≡ false
    → number < 2 ^ w
    → 1 ≤ string
    → let t : List ℕ = number_text is_signed w number radix prefix in
      ntostr_l is_signed w number string maxlen radix prefix text
      ≡ some (
        length t,
        if ltb (length t) maxlen
            then overwrite_at string (t ++ (0 ∷ [])) text
            else overwrite_at string
                (take (maxlen - 1) (sign_text is_signed w number ++ prefix_text prefix radix))
                text,
      )
unfolding ntostr_l number_text
ntostr_l-number_text is_signed w number string maxlen radix prefix text good small pos =
    let n : ℕ = magnitude is_signed w number in
    let mag = magnitude_small is_signed w number small in
    let sign : List ℕ = sign_text is_signed w number in
    let pre : List ℕ = prefix_text prefix radix in
    let ds : List ℕ = digits (suc w) (base_of radix) n in
    let (low, high) = base_range radix good in
    let maxcnt : ℕ = maxlen - 1 in
    let count : (if not (string == 0) && not (maxlen == 0) then maxlen - 1 else 0) ≡ maxlen - 1 =
      ground (arith, pos) in
    let state : List ℕ → Cursor = cursor_room string maxcnt text in
    let step = put_char_l_room string maxcnt text pos in
    let start = cursor_room_start string maxcnt text in
    let signed = put_sign_text (put_char_l maxcnt) state step is_signed w number in
    let prefixed = put_prefix_text (put_char_l maxcnt) state step prefix radix sign in
    let parts : (sign ++ pre) ++ ds ≡ sign ++ (pre ++ ds) = append_assoc sign pre ds in
    let same : length ((sign ++ pre) ++ ds) ≡ length (sign ++ (pre ++ ds)) = ap length parts in
    let some_text : 0 < length ((sign ++ pre) ++ ds) =
      omega (arith, length-append (sign ++ pre) ds, length-digits_pos w (base_of radix) n) in
    elim (Bool-cases (ltb (length (sign ++ (pre ++ ds))) maxlen)) [
      | inl fits ↦
          let below : length (sign ++ (pre ++ ds)) < maxlen = ground arith in
          rw (count, good, start, signed, prefixed, fits, ← parts)
            (digits_fit w n (base_of radix) string maxlen maxcnt (sign ++ pre) text low high mag pos
              (omega (arith, same)) (omega (arith, same)))
      | inr cut ↦
          let above : maxlen ≤ length (sign ++ (pre ++ ds)) = ground arith in
          rw (count, good, start, signed, prefixed, cut, ← parts)
            (digits_cut w n (base_of radix) string maxlen maxcnt (sign ++ pre) text low mag pos
              (omega (arith, same, some_text)) (omega (arith, same)))
    ]
