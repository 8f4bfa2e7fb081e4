-- ===== src/Str/Print.antt =====
-- str/strnum.hpp: writing of a number as text, `__ntostr_x` and `__ntostr_lx`. The text is written
-- into a memory of characters, whose index is the address; the address 0 is NULL.
pub mod Digits
pub mod Text
pub mod Number
pub mod Room
use apilib.Base.{
  ℕ, zero, suc, ◌+◌, ◌-◌, ◌*◌, ◌/◌, ◌%◌, ◌^◌, ◌≤◌, List, [], ◌∷◌, Option, none, some, set,
}
use apilib.Base.{Bool, true, false, not, ◌&&◌, ◌||◌, ltb, leb, ◌==◌, if◌then◌else◌}
use apilib.Str.ChrNum.{ntochr}
use apilib.Str.Read.{bad_radix}

-- The state of a loop that writes digits from the last one on.
pub record Written : Type 0 where
  length : ℕ
  text : List ℕ

-- The loops of `__ntostr_lsh_x`, `__ntostr_div_x`, `__ntostr_lsh_lx` and `__ntostr_div_lx`. They
-- differ in how the next number is computed and in the condition, on the number of digits so far,
-- under which a digit is written. `none` stands for rounds that do not suffice.
unfoldable pub ntostr_loop : ℕ → (ℕ → ℕ) → (ℕ → Bool) → ℕ → ℕ → ℕ → ℕ → List ℕ → Option Written
ntostr_loop zero next room radix number length string text = none
ntostr_loop (suc rounds) next room radix number length string text =
    let write = not (string == 0) && room length in
    let digit = ntochr (number % radix) in
    elim (if write then digit else some 0) [
      | none ↦ some (record { length = length; text = text })
      | some c ↦
          let rest =
            ntostr_loop rounds next room radix (next number) (suc length)
              (if write then string - 1 else string) (if write then set text string c else text) in
          if next number == 0
          then some
              (record { length = suc length; text = if write then set text string c else text })
          else rest
    ]

unfoldable pub ntostr_lsh : ℕ → ℕ → ℕ → ℕ → ℕ → List ℕ → Option Written
ntostr_lsh shift w number string radix text =
    ntostr_loop (suc w) (λ n. n / 2 ^ shift) (λ length. true) radix number 0 string text

unfoldable pub ntostr_div : ℕ → ℕ → ℕ → ℕ → List ℕ → Option Written
ntostr_div w number string radix text =
    ntostr_loop (suc w) (λ n. n / radix) (λ length. true) radix number 0 string text

unfoldable pub ntostr_lsh_l : ℕ → ℕ → ℕ → ℕ → ℕ → ℕ → List ℕ → Option Written
ntostr_lsh_l shift w number string maxcnt radix text =
    ntostr_loop (suc w) (λ n. n / 2 ^ shift) (λ length. ltb length maxcnt) radix number 0 string
      text

unfoldable pub ntostr_div_l : ℕ → ℕ → ℕ → ℕ → ℕ → List ℕ → Option Written
ntostr_div_l w number string maxcnt radix text =
    ntostr_loop (suc w) (λ n. n / radix) (λ length. ltb length maxcnt) radix number 0 string text

-- `switch(radix)` of `__ntostr_x`
unfoldable pub print_digits : ℕ → ℕ → ℕ → ℕ → List ℕ → Option Written
print_digits w number string radix text =
    if radix == 2
    then ntostr_lsh 1 w number string radix text
    else if radix == 4
    then ntostr_lsh 2 w number string radix text
    else if radix == 8
    then ntostr_lsh 3 w number string radix text
    else if radix == 16
    then ntostr_lsh 4 w number string radix text
    else if radix == 32
    then ntostr_lsh 5 w number string radix text
    else ntostr_div w number string radix text

-- `switch(radix)` of `__ntostr_lx`
unfoldable pub print_digits_l : ℕ → ℕ → ℕ → ℕ → ℕ → List ℕ → Option Written
print_digits_l w number string maxcnt radix text =
    if radix == 2
    then ntostr_lsh_l 1 w number string maxcnt radix text
    else if radix == 4
    then ntostr_lsh_l 2 w number string maxcnt radix text
    else if radix == 8
    then ntostr_lsh_l 3 w number string maxcnt radix text
    else if radix == 16
    then ntostr_lsh_l 4 w number string maxcnt radix text
    else if radix == 32
    then ntostr_lsh_l 5 w number string maxcnt radix text
    else ntostr_div_l w number string maxcnt radix text

-- The state between the parts of the functions: `string`, `length` and the memory.
pub record Cursor : Type 0 where
  string : ℕ
  length : ℕ
  text : List ℕ

-- `*string++ = c` unless `string` is NULL, and `length += 1`
unfoldable pub put_char : ℕ → Cursor → Cursor
put_char c s = record {
  string = if s.string == 0 then 0 else s.string + 1;
  length = s.length + 1;
  text = if s.string == 0 then s.text else set s.text s.string c;
}

-- The same where there is room: below `maxcnt` characters so far.
unfoldable pub put_char_l : ℕ → ℕ → Cursor → Cursor
put_char_l maxcnt c s =
    let write = not (s.string == 0) && ltb s.length maxcnt in
    record {
      string = if write then s.string + 1 else s.string;
      length = s.length + 1;
      text = if write then set s.text s.string c else s.text;
    }

-- The negative numbers of a signed type, as unsigned ones.
unfoldable pub is_negative : Bool → ℕ → ℕ → Bool
is_negative is_signed w number = is_signed && leb ((2 ^ w - 1) / 2 + 1) number

-- `~number + 1` where the number is negative
unfoldable pub magnitude : Bool → ℕ → ℕ → ℕ
magnitude is_signed w number =
    if is_negative is_signed w number then (2 ^ w - number) % 2 ^ w else number

-- The sign and the prefix, with the function that puts a character.
unfoldable pub put_sign : (ℕ → Cursor → Cursor) → Bool → ℕ → ℕ → Cursor → Cursor
put_sign put is_signed w number s = if is_negative is_signed w number then put b'-' s else s

unfoldable pub put_prefix : (ℕ → Cursor → Cursor) → ℕ → ℕ → Cursor → Cursor
put_prefix put prefix radix s =
    if prefix == 0
    then s
    else if radix == 8
    then put b'0' s
    else if radix == 16
    then put b'x' (put b'0' s)
    else s

-- The digits, from the last one at `&string[offset - 1]`, and the terminating zero.
unfoldable pub put_number : ℕ → ℕ → ℕ → Cursor → Option (ℕ × List ℕ)
put_number w number radix s = elim (print_digits w number 0 radix s.text) [
  | none ↦ none
  | some counted ↦
      if s.string == 0 || counted.length == 0
      then some (s.length + counted.length, if s.string == 0 then s.text else set s.text s.string 0)
      else elim (print_digits w number (s.string + counted.length - 1) radix s.text) [
        | none ↦ none
        | some written ↦
            some (s.length + written.length, set written.text (s.string + written.length) 0)
      ]
]

-- `__ntostr_x`: the length and the memory afterwards.
unfoldable pub ntostr : Bool → ℕ → ℕ → ℕ → ℕ → ℕ → List ℕ → Option (ℕ × List ℕ)
ntostr is_signed w number string radix prefix text =
    if bad_radix radix
    then some (0, text)
    else put_number w (magnitude is_signed w number) (if radix == 0 then 10 else radix) (
        put_prefix put_char prefix radix (
          put_sign put_char is_signed w number
            (record { string = string; length = 0; text = text })))

-- The digits are written only if all of them have room, the zero only below `maxlen` characters.
unfoldable pub put_number_l : ℕ → ℕ → ℕ → ℕ → ℕ → Cursor → Option (ℕ × List ℕ)
put_number_l w number radix maxlen maxcnt s = elim (print_digits_l w number 0 0 radix s.text) [
  | none ↦ none
  | some counted ↦
      if s.string == 0 || (counted.length == 0 || ltb maxcnt (s.length + counted.length))
      then some (
        s.length + counted.length,
        if not (s.string == 0) && ltb (s.length + counted.length) maxlen
            then set s.text s.string 0
            else s.text,
      )
      else elim (print_digits_l w number (s.string + counted.length - 1) (maxcnt - s.length) radix
          s.text) [
            | none ↦ none
            | some written ↦ some (
              s.length + written.length,
              if ltb (s.length + written.length) maxlen
                  then set written.text (s.string + written.length) 0
                  else written.text,
            )
          ]
]

-- `__ntostr_lx`
unfoldable pub ntostr_l : Bool → ℕ → ℕ → ℕ → ℕ → ℕ → ℕ → List ℕ → Option (ℕ × List ℕ)
ntostr_l is_signed w number string maxlen radix prefix text =
    let maxcnt : ℕ = if not (string == 0) && not (maxlen == 0) then maxlen - 1 else 0 in
    if bad_radix radix
    then some (0, text)
    else put_number_l w (magnitude is_signed w number) (if radix == 0 then 10 else radix) maxlen
        maxcnt
        (put_prefix (put_char_l maxcnt) prefix radix (
          put_sign (put_char_l maxcnt) is_signed w number
            (record { string = string; length = 0; text = text })))
