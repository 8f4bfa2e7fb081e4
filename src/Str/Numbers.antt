-- ===== src/Str/Numbers.antt =====
-- str/strnum.cpp: the functions on numbers, one for each type. The forms for `char` and `wchar_t`
-- are one definition each, since they differ in nothing that these functions look at. `long` has
-- 32 bits, as on Windows.
use apilib.Base.{ℕ, List, Option, true, false}
use apilib.Base.Int.{ℤ, of_word, to_word}
use apilib.Str.Read.{strton, strton_n, or_null}
use apilib.Str.Print.{ntostr, ntostr_l}

-- A result as a value of the signed type.
abbrev pub signed_result : ℕ → ℕ × Option (List ℕ) → ℤ × Option (List ℕ)
signed_result w (value, endptr) = (of_word w value, endptr)

abbrev pub strtouch : Option (List ℕ) → ℕ → ℕ × Option (List ℕ)
strtouch string radix = or_null (λ s. strton false 8 s radix) string

abbrev pub strtouch_n : Option (List ℕ) → ℕ → ℕ → ℕ × Option (List ℕ)
strtouch_n string length radix = or_null (λ s. strton_n false 8 s length radix) string

abbrev pub strtoush : Option (List ℕ) → ℕ → ℕ × Option (List ℕ)
strtoush string radix = or_null (λ s. strton false 16 s radix) string

abbrev pub strtoush_n : Option (List ℕ) → ℕ → ℕ → ℕ × Option (List ℕ)
strtoush_n string length radix = or_null (λ s. strton_n false 16 s length radix) string

abbrev pub strtoul : Option (List ℕ) → ℕ → ℕ × Option (List ℕ)
strtoul string radix = or_null (λ s. strton false 32 s radix) string

abbrev pub strtoul_n : Option (List ℕ) → ℕ → ℕ → ℕ × Option (List ℕ)
strtoul_n string length radix = or_null (λ s. strton_n false 32 s length radix) string

abbrev pub strtoull : Option (List ℕ) → ℕ → ℕ × Option (List ℕ)
strtoull string radix = or_null (λ s. strton false 64 s radix) string

abbrev pub strtoull_n : Option (List ℕ) → ℕ → ℕ → ℕ × Option (List ℕ)
strtoull_n string length radix = or_null (λ s. strton_n false 64 s length radix) string

abbrev pub strtoch : Option (List ℕ) → ℕ → ℤ × Option (List ℕ)
strtoch string radix = signed_result 8 (or_null (λ s. strton true 8 s radix) string)

abbrev pub strtoch_n : Option (List ℕ) → ℕ → ℕ → ℤ × Option (List ℕ)
strtoch_n string length radix =
    signed_result 8 (or_null (λ s. strton_n true 8 s length radix) string)

abbrev pub strtosh : Option (List ℕ) → ℕ → ℤ × Option (List ℕ)
strtosh string radix = signed_result 16 (or_null (λ s. strton true 16 s radix) string)

abbrev pub strtosh_n : Option (List ℕ) → ℕ → ℕ → ℤ × Option (List ℕ)
strtosh_n string length radix =
    signed_result 16 (or_null (λ s. strton_n true 16 s length radix) string)

abbrev pub strtol : Option (List ℕ) → ℕ → ℤ × Option (List ℕ)
strtol string radix = signed_result 32 (or_null (λ s. strton true 32 s radix) string)

abbrev pub strtol_n : Option (List ℕ) → ℕ → ℕ → ℤ × Option (List ℕ)
strtol_n string length radix =
    signed_result 32 (or_null (λ s. strton_n true 32 s length radix) string)

abbrev pub strtoll : Option (List ℕ) → ℕ → ℤ × Option (List ℕ)
strtoll string radix = signed_result 64 (or_null (λ s. strton true 64 s radix) string)

abbrev pub strtoll_n : Option (List ℕ) → ℕ → ℕ → ℤ × Option (List ℕ)
strtoll_n string length radix =
    signed_result 64 (or_null (λ s. strton_n true 64 s length radix) string)

abbrev pub uchtostr : ℕ → ℕ → ℕ → ℕ → List ℕ → Option (ℕ × List ℕ)
uchtostr number string radix prefix text = ntostr false 8 number string radix prefix text

abbrev pub uchtostr_l : ℕ → ℕ → ℕ → ℕ → ℕ → List ℕ → Option (ℕ × List ℕ)
uchtostr_l number string maxlen radix prefix text =
    ntostr_l false 8 number string maxlen radix prefix text

abbrev pub ushtostr : ℕ → ℕ → ℕ → ℕ → List ℕ → Option (ℕ × List ℕ)
ushtostr number string radix prefix text = ntostr false 16 number string radix prefix text

abbrev pub ushtostr_l : ℕ → ℕ → ℕ → ℕ → ℕ → List ℕ → Option (ℕ × List ℕ)
ushtostr_l number string maxlen radix prefix text =
    ntostr_l false 16 number string maxlen radix prefix text

abbrev pub ultostr : ℕ → ℕ → ℕ → ℕ → List ℕ → Option (ℕ × List ℕ)
ultostr number string radix prefix text = ntostr false 32 number string radix prefix text

abbrev pub ultostr_l : ℕ → ℕ → ℕ → ℕ → ℕ → List ℕ → Option (ℕ × List ℕ)
ultostr_l number string maxlen radix prefix text =
    ntostr_l false 32 number string maxlen radix prefix text

abbrev pub ulltostr : ℕ → ℕ → ℕ → ℕ → List ℕ → Option (ℕ × List ℕ)
ulltostr number string radix prefix text = ntostr false 64 number string radix prefix text

abbrev pub ulltostr_l : ℕ → ℕ → ℕ → ℕ → ℕ → List ℕ → Option (ℕ × List ℕ)
ulltostr_l number string maxlen radix prefix text =
    ntostr_l false 64 number string maxlen radix prefix text

abbrev pub chtostr : ℤ → ℕ → ℕ → ℕ → List ℕ → Option (ℕ × List ℕ)
chtostr number string radix prefix text = ntostr true 8 (to_word 8 number) string radix prefix text

abbrev pub chtostr_l : ℤ → ℕ → ℕ → ℕ → ℕ → List ℕ → Option (ℕ × List ℕ)
chtostr_l number string maxlen radix prefix text =
    ntostr_l true 8 (to_word 8 number) string maxlen radix prefix text

abbrev pub shtostr : ℤ → ℕ → ℕ → ℕ → List ℕ → Option (ℕ × List ℕ)
shtostr number string radix prefix text =
    ntostr true 16 (to_word 16 number) string radix prefix text

abbrev pub shtostr_l : ℤ → ℕ → ℕ → ℕ → ℕ → List ℕ → Option (ℕ × List ℕ)
shtostr_l number string maxlen radix prefix text =
    ntostr_l true 16 (to_word 16 number) string maxlen radix prefix text

abbrev pub ltostr : ℤ → ℕ → ℕ → ℕ → List ℕ → Option (ℕ × List ℕ)
ltostr number string radix prefix text = ntostr true 32 (to_word 32 number) string radix prefix text

abbrev pub ltostr_l : ℤ → ℕ → ℕ → ℕ → ℕ → List ℕ → Option (ℕ × List ℕ)
ltostr_l number string maxlen radix prefix text =
    ntostr_l true 32 (to_word 32 number) string maxlen radix prefix text

abbrev pub lltostr : ℤ → ℕ → ℕ → ℕ → List ℕ → Option (ℕ × List ℕ)
lltostr number string radix prefix text =
    ntostr true 64 (to_word 64 number) string radix prefix text

abbrev pub lltostr_l : ℤ → ℕ → ℕ → ℕ → ℕ → List ℕ → Option (ℕ × List ℕ)
lltostr_l number string maxlen radix prefix text =
    ntostr_l true 64 (to_word 64 number) string maxlen radix prefix text
