-- ===== src/Str/Print/Number.antt =====
-- str/strnum.hpp: `__ntostr_x` on every number, with a string and without.
use native.Mathlib.Nat.{mod-lt}
use mathlib.Core.List.{append_assoc}
use apilib.Base.{ℕ, suc, ◌+◌, ◌-◌, ◌%◌, ◌^◌, ◌≤◌, ◌<◌, ◌≡◌, refl, ap, sym, ◌∙◌, arith}
use apilib.Base.{List, [], ◌∷◌, ◌++◌, some, Bool, false}
use apilib.Base.{length, length-append, overwrite_at}
use apilib.Str.Read.{bad_radix}
use apilib.Str.Print.{Cursor, put_char, put_number, ntostr, magnitude}
use apilib.Str.Print.Digits.{digits}
use apilib.Str.Print.Text.{
  sign_text, prefix_text, base_of, number_text, cursor_after, cursor_start, put_char_after,
  put_sign_text, put_prefix_text, print_counts, put_number_text,
}

pub put_number_null :
    (w number radix done : ℕ) (text : List ℕ)
    → 2 ≤ radix
    → number < 2 ^ w
    → put_number w number radix (record { string = 0; length = done; text = text })
      ≡ some (done + length (digits (suc w) radix number), text)
unfolding put_number
put_number_null w number radix done text low small =
    rw (print_counts w number radix text low small, put_number) refl

pub magnitude_small :
    (is_signed : Bool) (w number : ℕ) → number < 2 ^ w → magnitude is_signed w number < 2 ^ w
unfolding magnitude
magnitude_small is_signed w number small =
    let wrapped : (2 ^ w - number) % 2 ^ w < 2 ^ w = mod-lt (2 ^ w - number) (omega arith) in
    ground (arith, small, wrapped)

pub base_range : (radix : ℕ) → bad_radix radix ≡ false → (2 ≤ base_of radix) × (base_of radix ≤ 36)
base_range radix good = (ground arith, ground arith)

put_char_null :
    (c : ℕ) (done text : List ℕ)
    → put_char c (record { string = 0; length = length done; text = text })
      ≡ record { string = 0; length = length (done ++ (c ∷ [])); text = text }
unfolding put_char
put_char_null c done text = rw (length-append done (c ∷ [])) refl

-- For every number of a type of `w` bits, signed or not, and every valid radix, `__ntostr_x` writes
-- the text of the number and a zero at `string` and nothing else, and returns the length of the
-- text; the digit loops end within `w` + 1 rounds.
pub ntostr-number_text :
    (is_signed : Bool) (w number string radix prefix : ℕ) (text : List ℕ)
    → bad_radix radix ≡ false
    → number < 2 ^ w
    → 1 ≤ string
    → let t : List ℕ = number_text is_signed w number radix prefix in
      ntostr is_signed w number string radix prefix text
      ≡ some (length t, overwrite_at string (t ++ (0 ∷ [])) text)
unfolding ntostr number_text
ntostr-number_text is_signed w number string radix prefix text good small pos =
    let n : ℕ = magnitude is_signed w number in
    let sign : List ℕ = sign_text is_signed w number in
    let pre : List ℕ = prefix_text prefix radix in
    let ds : List ℕ = digits (suc w) (base_of radix) n in
    let (low, high) = base_range radix good in
    let state : List ℕ → Cursor = λ done. cursor_after string done text in
    let step = λ (c : ℕ) (done : List ℕ). put_char_after string c done text pos in
    let signed = put_sign_text put_char state step is_signed w number in
    let prefixed = put_prefix_text put_char state step prefix radix sign in
    let parts : (sign ++ pre) ++ ds ≡ sign ++ (pre ++ ds) = append_assoc sign pre ds in
    let done =
      put_number_text w n (base_of radix) string (sign ++ pre) text low high
        (magnitude_small is_signed w number small) pos in
    rw (good, cursor_start string text, signed, prefixed, ← parts) done

-- Without a string it returns the same length and writes nothing.
pub ntostr_null :
    (is_signed : Bool) (w number radix prefix : ℕ) (text : List ℕ)
    → bad_radix radix ≡ false
    → number < 2 ^ w
    → ntostr is_signed w number 0 radix prefix text
      ≡ some (length (number_text is_signed w number radix prefix), text)
unfolding ntostr number_text
ntostr_null is_signed w number radix prefix text good small =
    let n : ℕ = magnitude is_signed w number in
    let sign : List ℕ = sign_text is_signed w number in
    let pre : List ℕ = prefix_text prefix radix in
    let ds : List ℕ = digits (suc w) (base_of radix) n in
    let (low, high) = base_range radix good in
    let state : List ℕ → Cursor =
      λ done. record { string = 0; length = length done; text = text } in
    let step = λ (c : ℕ) (done : List ℕ). put_char_null c done text in
    let signed = put_sign_text put_char state step is_signed w number in
    let prefixed = put_prefix_text put_char state step prefix radix sign in
    let parts : (sign ++ pre) ++ ds ≡ sign ++ (pre ++ ds) = append_assoc sign pre ds in
    let total : length (sign ++ pre) + length ds ≡ length (sign ++ (pre ++ ds)) =
      sym (length-append (sign ++ pre) ds) ∙ ap length parts in
    rw (good, signed, prefixed)
      (put_number_null w n (base_of radix) (length (sign ++ pre)) text low
          (magnitude_small is_signed w number small)
        ∙ ap (λ (k : ℕ). some (k, text)) total)
