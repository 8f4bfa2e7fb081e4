-- ===== src/Str/Hex.antt =====
-- str/strhex.hpp: bytes as hexadecimal digits, and back. The binary data are a list of bytes, or
-- NULL; the buffer is an address in a memory of characters, or of bytes, where 0 is NULL. Writes
-- by `*buffer++ = c` one after the other are one write of the list of what is written.
pub mod Amount
pub mod RoundTrip
use apilib.Base.{ℕ, zero, suc, ◌+◌, ◌-◌, ◌*◌, ◌/◌, ◌%◌, ◌^◌, List, [], ◌∷◌, ◌++◌, bit_and, bit_or}
use apilib.Base.{Bool, true, false, not, ◌&&◌, ◌||◌, ltb, leb, ◌==◌, if◌then◌else◌}
use apilib.Base.{Option, none, some, drop, set, get_or, length, overwrite_at}
use apilib.Str.{char_at}
use apilib.Str.Chr.{isspace, isxdigit}
use apilib.Str.ChrNum.{ntochr_value, chrton}
use apilib.Str.Len.{strlen, strlen_n}

-- `((da << 4) & 0xf0) | (db & 0x0f)`
abbrev pub join_digits : ℕ → ℕ → ℕ
join_digits da db = bit_or (bit_and (da * 16) 240) (bit_and db 15)

-- The write of a byte: `none` where a character is no digit.
unfoldable pub store_byte : ℕ → ℕ → ℕ → ℕ → ℕ → List ℕ → Option (List ℕ)
store_byte buffer buffer_size offset ca cb m =
    if not (buffer == 0) && ltb offset buffer_size
    then (elim (chrton ca 16) [
      | none ↦ none
      | some da ↦ elim (chrton cb 16) [
        | none ↦ none
        | some db ↦ some (set m (buffer + offset) (join_digits da db))
      ]
    ])
    else some m

-- The loop, with `length` characters left; an error leaves 0 as the size.
unfoldable pub hex_loop : ℕ → ℕ → ℕ → List ℕ → ℕ → List ℕ → ℕ × List ℕ
hex_loop buffer buffer_size zero string offset m = (offset, m)
hex_loop buffer buffer_size (suc zero) string offset m =
    if isspace (char_at string 0) == 1 then (offset, m) else (0, m)
hex_loop buffer buffer_size (suc (suc length)) string offset m =
    let ca = char_at string 0 in
    let cb = char_at string 1 in
    let skipped = hex_loop buffer buffer_size (suc length) (drop 1 string) offset m in
    if isspace ca == 1
    then skipped
    else if isxdigit ca == 0 || isxdigit cb == 0
    then (0, m)
    else elim (store_byte buffer buffer_size offset ca cb m) [
      | none ↦ (0, m)
      | some m' ↦ hex_loop buffer buffer_size length (drop 2 string) (suc offset) m'
    ]

unfoldable pub strtohex : Option (List ℕ) → ℕ → ℕ → List ℕ → ℕ × List ℕ
strtohex none buffer buffer_size m = (0, m)
strtohex (some string) buffer buffer_size m = hex_loop buffer buffer_size (strlen string) string 0 m

unfoldable pub strtohex_n : Option (List ℕ) → ℕ → ℕ → ℕ → List ℕ → ℕ × List ℕ
strtohex_n none maxlen buffer buffer_size m = (0, m)
strtohex_n (some string) maxlen buffer buffer_size m =
    if not (maxlen == 0)
    then hex_loop buffer buffer_size (strlen_n string maxlen) string 0 m
    else (0, m)

-- `(length / LINE_LENGTH) + ((length % LINE_LENGTH) ? 1 : 0)`
abbrev pub line_count : ℕ → ℕ
line_count n = n / 16 + (if n % 16 == 0 then 0 else 1)

-- The size of the text, computed in advance.
unfoldable pub hex_amount : ℕ → ℕ → ℕ → ℕ
hex_amount n separator multiline =
    if not (multiline == 0)
    then (if not (separator == 0)
        then n * 2 + (line_count n - 1) * 2 + (n - line_count n)
        else n * 2 + (line_count n - 1) * 2)
    else if not (separator == 0)
    then n * 2 + (n - 1)
    else n * 2

-- What stands before the byte `i`.
unfoldable pub hex_gap : ℕ → ℕ → ℕ → List ℕ
hex_gap separator multiline i =
    if not (i == 0)
    then (if multiline == 1 && i % 16 == 0
        then 13 ∷ (10 ∷ [])
        else if separator == 1
        then b' ' ∷ []
        else [])
    else []

-- The two digits of a byte.
abbrev pub hex_byte : ℕ → List ℕ
hex_byte value = ntochr_value (bit_and (value / 16) 15) ∷ (ntochr_value (bit_and value 15) ∷ [])

-- The loop over the bytes, from the byte `i` on.
unfoldable pub hex_text : ℕ → ℕ → ℕ → List ℕ → List ℕ
hex_text separator multiline i [] = []
hex_text separator multiline i (value ∷ binary) =
    hex_gap separator multiline i ++ (hex_byte value ++ hex_text separator multiline (suc i) binary)

unfoldable pub strgenhexseq : Option (List ℕ) → ℕ → ℕ → ℕ → List ℕ → ℕ × List ℕ
strgenhexseq none buffer separator multiline m = (0, m)
strgenhexseq (some binary) buffer separator multiline m =
    if not (length binary == 0)
    then (
      hex_amount (length binary) separator multiline,
      if not (buffer == 0)
          then overwrite_at buffer (hex_text separator multiline 0 binary ++ (0 ∷ [])) m
          else m,
    )
    else (0, m)

unfoldable pub strgenhexseq_n : Option (List ℕ) → ℕ → ℕ → ℕ → ℕ → List ℕ → ℕ × List ℕ
strgenhexseq_n none buffer maxlen separator multiline m = (0, m)
strgenhexseq_n (some binary) buffer maxlen separator multiline m =
    let amount = hex_amount (length binary) separator multiline in
    if not (length binary == 0)
    then (
      amount,
      if not (buffer == 0) && ltb amount maxlen
          then overwrite_at buffer (hex_text separator multiline 0 binary ++ (0 ∷ [])) m
          else m,
    )
    else (0, m)
