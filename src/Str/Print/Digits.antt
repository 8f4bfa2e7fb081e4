-- ===== src/Str/Print/Digits.antt =====
-- str/strnum.hpp: what the loops that write digits compute.
use native.Mathlib.Nat.{mod-lt, pow-suc}
use apilib.Base.{
  ℕ, zero, suc, ◌+◌, ◌-◌, ◌/◌, ◌%◌, ◌^◌, ◌≤◌, ◌<◌, ◌≡◌, inl, inr, refl, ap, ◌∙◌, arith,
}
use apilib.Base.{List, [], ◌∷◌, ◌++◌, some, Bool, true, false}
use apilib.Base.{◌==◌, if◌then◌else◌, Bool-cases, length, length-append, set, overwrite_at}
use apilib.Base.{overwrite_at-nil}
use apilib.Str.ChrNum.{ntochr, ntochr_value, chrton-ntochr}
use apilib.Str.Print.{ntostr_loop}

-- The digits of a number, from the highest one, in at most `rounds` places.
unfoldable pub digits : ℕ → ℕ → ℕ → List ℕ
digits zero radix number = []
digits (suc rounds) radix number =
    let higher = digits rounds radix (number / radix) in
    (if number / radix == 0 then [] else higher) ++ (ntochr_value (number % radix) ∷ [])

-- A piece is written from its last character on.
pub overwrite_at-snoc :
    (start : ℕ) (bs : List ℕ) (c : ℕ) (text : List ℕ)
    → overwrite_at start (bs ++ (c ∷ [])) text
      ≡ overwrite_at start bs (set text (start + length bs) c)
overwrite_at-snoc zero [] c [] = refl
overwrite_at-snoc zero [] c (x ∷ text) = refl
overwrite_at-snoc zero (b ∷ bs) c [] = refl
overwrite_at-snoc zero (b ∷ bs) c (x ∷ text) =
    let e : 0 + suc (length bs) ≡ suc (0 + length bs) = omega arith in
    rw e (ap (λ t. b ∷ t) (overwrite_at-snoc zero bs c text))
overwrite_at-snoc (suc start) bs c [] = refl
overwrite_at-snoc (suc start) bs c (x ∷ text) =
    let e : suc start + length bs ≡ suc (start + length bs) = omega arith in
    rw e (ap (λ t. x ∷ t) (overwrite_at-snoc start bs c text))

digit_written :
    (number radix : ℕ)
    → 2 ≤ radix
    → radix ≤ 36
    → ntochr (number % radix) ≡ some (ntochr_value (number % radix))
digit_written number radix low high =
    let below : number % radix < radix = mod-lt number (omega arith) in
    (chrton-ntochr (number % radix) radix below high).0

pub shrinks : (k number radix : ℕ) → 2 ≤ radix → number < 2 ^ suc k → number / radix < 2 ^ k
shrinks k number radix low h = grind (arith, pow-suc 2 k)

pub length-digits_pos : (rounds radix number : ℕ) → 0 < length (digits (suc rounds) radix number)
unfolding digits
length-digits_pos rounds radix number =
    let higher : List ℕ =
      if number / radix == 0 then [] else digits rounds radix (number / radix) in
    omega (arith, length-append higher (ntochr_value (number % radix) ∷ []))

pub digits_last :
    (k radix number : ℕ)
    → (number / radix == 0) ≡ true
    → digits (suc k) radix number ≡ ntochr_value (number % radix) ∷ []
unfolding digits
digits_last k radix number e = rw (e, digits) refl

pub digits_more :
    (k radix number : ℕ)
    → (number / radix == 0) ≡ false
    → digits (suc k) radix number
      ≡ digits k radix (number / radix) ++ (ntochr_value (number % radix) ∷ [])
unfolding digits
digits_more k radix number e = rw (e, digits) refl

pub length-digits_more :
    (k radix number : ℕ)
    → (number / radix == 0) ≡ false
    → length (digits (suc k) radix number) ≡ suc (length (digits k radix (number / radix)))
length-digits_more k radix number e = rw (digits_more k radix number e) (
    omega
      (arith, length-append (digits k radix (number / radix)) (ntochr_value (number % radix) ∷ [])))

pub nothing_left : (number radix : ℕ) → number < 1 → (number / radix == 0) ≡ true
nothing_left number radix h = ground arith

-- Without a string the digits are counted.
pub loop_counts :
    (k radix : ℕ) (room : ℕ → Bool) (number done : ℕ) (text : List ℕ)
    → 2 ≤ radix
    → number < 2 ^ k
    → ntostr_loop (suc k) (λ n. n / radix) room radix number done 0 text
      ≡ some (record { length = done + length (digits (suc k) radix number); text = text })
unfolding ntostr_loop
loop_counts zero radix room number done text low small =
    let e = nothing_left number radix small in
    let n : done + length (digits 1 radix number) ≡ suc done =
      rw (digits_last 0 radix number e) (omega arith) in
    rw (e, n) refl
loop_counts (suc k) radix room number done text low small =
    elim (Bool-cases (number / radix == 0)) [
      | inl e ↦
          let n : done + length (digits (suc (suc k)) radix number) ≡ suc done =
            rw (digits_last (suc k) radix number e) (omega arith) in
          rw (e, n) refl
      | inr e ↦
          let ih =
            loop_counts k radix room (number / radix) (suc done) text low
              (shrinks k number radix low small) in
          let n : done + length (digits (suc (suc k)) radix number)
              ≡ suc done + length (digits (suc k) radix (number / radix)) =
            omega (arith, length-digits_more (suc k) radix number e) in
          rw (e, n) ih
    ]

-- A round that writes its digit.
round_writes :
    (k radix : ℕ) (room : ℕ → Bool) (number done string : ℕ) (text : List ℕ)
    → 2 ≤ radix
    → radix ≤ 36
    → (string == 0) ≡ false
    → room done ≡ true
    → let text' : List ℕ = set text string (ntochr_value (number % radix)) in
      ntostr_loop (suc k) (λ n. n / radix) room radix number done string text ≡ (
        if number / radix == 0
        then some (record { length = suc done; text = text' })
        else ntostr_loop k
            (λ n. n / radix)
            room
            radix
            (number / radix)
            (suc done)
            (string - 1)
            text')
unfolding ntostr_loop
round_writes k radix room number done string text low high there space =
    rw (there, space, digit_written number radix low high, ntostr_loop, there, space) refl

-- What the loop is to do: the digits are written at `start` and counted.
abbrev pub Writes : ℕ → ℕ → (ℕ → Bool) → ℕ → ℕ → ℕ → ℕ → List ℕ → Type 0
Writes k radix room number done start string text =
    ntostr_loop (suc k) (λ n. n / radix) room radix number done string text
    ≡ some (record {
      length = done + length (digits (suc k) radix number);
      text = overwrite_at start (digits (suc k) radix number) text;
    })

-- Where the loop is to start: at the last digit of a piece at `start` in which there is room.
abbrev pub Placed : ℕ → ℕ → (ℕ → Bool) → ℕ → ℕ → ℕ → ℕ → Type 0
Placed k radix room number done start string =
    (1 ≤ start)
    × (string + 1 ≡ start + length (digits (suc k) radix number))
    × ((i : ℕ) → i < done + length (digits (suc k) radix number) → room i ≡ true)

last_round :
    (k radix : ℕ) (room : ℕ → Bool) (number done start string : ℕ) (text : List ℕ)
    → 2 ≤ radix
    → radix ≤ 36
    → (number / radix == 0) ≡ true
    → Placed k radix room number done start string
    → Writes k radix room number done start string text
last_round k radix room number done start string text low high e (pos, place, space) =
    let c : ℕ = ntochr_value (number % radix) in
    let one : digits (suc k) radix number ≡ c ∷ [] = digits_last k radix number e in
    let n : length (digits (suc k) radix number) ≡ 1 = ap length one in
    let here : string ≡ start = omega (arith, n) in
    let there : (string == 0) ≡ false = ground (arith, here, pos) in
    let free : room done ≡ true = space done (omega (arith, n)) in
    let last : overwrite_at start (c ∷ []) text ≡ set text string c =
      overwrite_at-snoc start [] c text
      ∙ overwrite_at-nil start (set text (start + 0) c)
      ∙ ap (λ i. set text i c) (omega arith) in
    let count : done + 1 ≡ suc done = omega arith in
    round_writes k radix room number done string text low high there free
    ∙ rw (e, one, last, count) refl

pub ntostr_loop-Writes :
    (k radix : ℕ) (room : ℕ → Bool) (number done start string : ℕ) (text : List ℕ)
    → 2 ≤ radix
    → radix ≤ 36
    → number < 2 ^ k
    → Placed k radix room number done start string
    → Writes k radix room number done start string text
ntostr_loop-Writes zero radix room number done start string text low high small placed =
    last_round 0 radix room number done start string text low high (nothing_left number radix small)
      placed
ntostr_loop-Writes (suc k) radix room number done start string text low high small placed =
    elim (Bool-cases (number / radix == 0)) [
      | inl e ↦ last_round (suc k) radix room number done start string text low high e placed
      | inr e ↦
          let c : ℕ = ntochr_value (number % radix) in
          let (pos, place, space) = placed in
          let n = length-digits_more (suc k) radix number e in
          let higher : List ℕ = digits (suc k) radix (number / radix) in
          let some_higher : 0 < length higher = length-digits_pos k radix (number / radix) in
          let there : (string == 0) ≡ false = ground (arith, n, some_higher, place) in
          let free : room done ≡ true = space done (omega (arith, n)) in
          let ih =
            ntostr_loop-Writes k radix room (number / radix) (suc done) start (string - 1)
              (set text string c) low high (shrinks k number radix low small)
              (pos, omega (arith, n), λ i h. space i (omega (arith, n))) in
          let place_last : start + length higher ≡ string = omega (arith, n) in
          let written : overwrite_at start (digits (suc (suc k)) radix number) text
              ≡ overwrite_at start higher (set text string c) =
            ap (λ t. overwrite_at start t text) (digits_more (suc k) radix number e)
            ∙ overwrite_at-snoc start higher c text
            ∙ ap (λ i. overwrite_at start higher (set text i c)) place_last in
          let count : done + suc (length higher) ≡ suc done + length higher = omega arith in
          round_writes (suc k) radix room number done string text low high there free
          ∙ rw (e, written, n, count) ih
    ]
