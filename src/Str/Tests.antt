-- ===== src/Str/Tests.antt =====
-- The theorems about numbers and strings on small texts.
mod Strings
mod Search
use mathlib.Core.List.{append-nil}
use apilib.Base.{ℕ, ◌≡◌, refl, List, ◌∷◌, [], ◌++◌, arith, ◌+◌, ◌*◌, ◌%◌, ◌^◌, ◌<◌, ◌≤◌}
use apilib.Base.{some, true, false, length, take, overwrite_at, ltb, if◌then◌else◌, ◌-◌}
use apilib.Str.{char_at}
use apilib.Str.Chr.{isalnum, isblank}
use apilib.Str.ChrNum.{chrton, ntochr_value}
use apilib.Str.Read.{
  read_digits, strton_lsh, strton_mul, strton_loop, stops, strton, strton_n, bad_radix,
}
use apilib.Str.Read.Digits.{numeral, reads_ten, behind_zeros, read_digits-numeral}
use apilib.Str.Read.Ten.{ten_is_read_as_one}
use apilib.Str.Read.Wrap.{overflow_unseen}
use apilib.Str.Read.Bounded.{strton_n-strton, followed_by}
use apilib.Str.Print.{ntostr, ntostr_l, magnitude, is_negative}
use apilib.Str.Print.Digits.{digits}
use apilib.Str.Print.Text.{number_text, sign_text, prefix_text}
use apilib.Str.Print.Number.{ntostr-number_text}
use apilib.Str.Print.Room.{ntostr_l-number_text}
use apilib.Str.RoundTrip.Number.{strton-number_text}

abbrev number : List ℕ
number = b'1' ∷ (b'2' ∷ (b'0' ∷ []))

abbrev ten : List ℕ
ten = b'1' ∷ (b'0' ∷ [])

abbrev six_hundred_millions : List ℕ
six_hundred_millions =
    b'6' ∷ (b'0' ∷ (b'0' ∷ (b'0' ∷ (b'0' ∷ (b'0' ∷ (b'0' ∷ (b'0' ∷ (b'0' ∷ []))))))))

abbrev blank_text : List ℕ
blank_text = 1 ∷ (1 ∷ (1 ∷ (1 ∷ (1 ∷ (1 ∷ (1 ∷ (1 ∷ [])))))))

read_digits-numeral_example : read_digits 32 10 0 number ≡ numeral 10 0 number
unfolding numeral chrton reads_ten
read_digits-numeral_example =
    read_digits-numeral 32 10 0 number (omega arith) refl (omega arith, λ h. absurd (omega arith))

ten_is_read_as_one_example : read_digits 32 16 0 ten ≡ (1, behind_zeros ten)
unfolding reads_ten
ten_is_read_as_one_example =
    ten_is_read_as_one 32 16 0 ten (omega arith) (omega arith) (omega arith) refl

overflow_unseen_example :
    (read_digits 32 10 0 (six_hundred_millions ++ (b'0' ∷ []))
      ≡ ((600000000 * 10 + 0) % 2 ^ 32, []))
    × ((600000000 * 10 + 0) % 2 ^ 32 < 600000000 * 10 + 0)
unfolding read_digits strton_lsh strton_mul strton_loop stops chrton
overflow_unseen_example =
    overflow_unseen 32 10 600000000 b'0' 0 six_hundred_millions refl refl (omega arith)
      (omega arith)

strton_n-strton_example :
    strton_n true 32 (number ++ ten) (length number) 10 ≡ followed_by ten (strton true 32 number 10)
strton_n-strton_example = strton_n-strton true 32 10 number ten

ntostr-number_text_example :
    ntostr true 8 200 1 10 0 blank_text
    ≡ some (
      length (number_text true 8 200 10 0),
      overwrite_at 1 (number_text true 8 200 10 0 ++ (0 ∷ [])) blank_text,
    )
ntostr-number_text_example =
    ntostr-number_text true 8 200 1 10 0 blank_text refl (omega arith) (omega arith)

ntostr_l-number_text_example :
    ntostr_l true 8 200 1 3 16 1 blank_text
    ≡ some (
      length (number_text true 8 200 16 1),
      if ltb (length (number_text true 8 200 16 1)) 3
          then overwrite_at 1 (number_text true 8 200 16 1 ++ (0 ∷ [])) blank_text
          else overwrite_at 1 (take (3 - 1) (sign_text true 8 200 ++ prefix_text 1 16)) blank_text,
    )
ntostr_l-number_text_example =
    ntostr_l-number_text true 8 200 1 3 16 1 blank_text refl (omega arith) (omega arith)

strton-number_text_example :
    strton true 8 (number_text true 8 200 16 1 ++ (b';' ∷ [])) 16 ≡ (200, b';' ∷ [])
unfolding isalnum digits reads_ten magnitude is_negative ntochr_value
strton-number_text_example =
    strton-number_text true 8 200 16 1 (b';' ∷ []) refl (omega arith) (omega arith) refl refl
