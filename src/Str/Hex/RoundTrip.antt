-- ===== src/Str/Hex/RoundTrip.antt =====
-- str/strhex.hpp: bytes that are written as hexadecimal digits and read back.
use mathlib.Core.List.{append_assoc}
use apilib.Base.{ℕ, zero, suc, ◌+◌, ◌/◌, ◌≤◌, ◌<◌, ◌≡◌, ◌≢◌, ◌⊎◌, inl, inr, refl, ap, ◌∙◌, arith}
use apilib.Base.{List, [], ◌∷◌, ◌++◌, true, not, ◌&&◌, some}
use apilib.Base.{
  ◌==◌, ltb, length, length-append, overwrite_at, set, bit_and, passes_upto, passes_upto_line,
  overwrite_at-nil, overwrite_at-behind, set-overwrite_at, ==_iff,
}
use apilib.Str.Chr.{isspace, isxdigit}
use apilib.Str.ChrNum.{ntochr_value, chrton}
use apilib.Str.Len.{strlen}
use apilib.Str.Hex.{join_digits, store_byte, hex_loop, strtohex, hex_gap, hex_byte, hex_text}

IsDigit : ℕ → ℕ → Type 0
IsDigit c d = (chrton c 16 ≡ some d) × (isspace c ≡ 0) × (isxdigit c ≡ 1) × (c ≢ 0)

ntochr_value-IsDigit : (d : ℕ) → d < 16 → IsDigit (ntochr_value d) d
unfolding IsDigit chrton isspace isxdigit ntochr_value
ntochr_value-IsDigit d h = (ground arith, ground arith, ground arith, λ e. ground arith)

join_back :
    (value : ℕ) → value < 256 → join_digits (bit_and (value / 16) 15) (bit_and value 15) ≡ value
unfolding passes_upto
join_back value h =
    (==_iff (join_digits (bit_and (value / 16) 15) (bit_and value 15)) value).0 (
      passes_upto_line 256 (λ v. join_digits (bit_and (v / 16) 15) (bit_and v 15) == v) value refl
        h)

below_sixteen : (value : ℕ) → value < 256 → (bit_and (value / 16) 15 < 16) × (bit_and value 15 < 16)
unfolding passes_upto
below_sixteen value h =
    let both =
      passes_upto_line 256 (λ v. ltb (bit_and (v / 16) 15) 16 && ltb (bit_and v 15) 16) value refl
        h in
    (ground (arith, both), ground (arith, both))

skip_space :
    (buffer size n c offset : ℕ) (string m : List ℕ)
    → isspace c ≡ 1
    → hex_loop buffer size (suc n) (c ∷ string) offset m ≡ hex_loop buffer size n string offset m
unfolding hex_loop
skip_space buffer size zero c offset string m e = rw e refl
skip_space buffer size (suc n) c offset string m e = rw e refl

isspace_blanks : (isspace 13 ≡ 1) × (isspace 10 ≡ 1) × (isspace b' ' ≡ 1)
unfolding isspace
isspace_blanks = (refl, refl, refl)

-- The three forms of what stands before a byte.
gap_cases :
    (separator multiline i : ℕ)
    → (hex_gap separator multiline i ≡ [])
      ⊎ ((hex_gap separator multiline i ≡ 13 ∷ (10 ∷ []))
          ⊎ (hex_gap separator multiline i ≡ b' ' ∷ []))
unfolding hex_gap
gap_cases separator multiline i = ground arith

skip_gap :
    (buffer size n separator multiline i offset : ℕ) (string m : List ℕ)
    → let gap : List ℕ = hex_gap separator multiline i in
      hex_loop buffer size (length gap + n) (gap ++ string) offset m
      ≡ hex_loop buffer size n string offset m
skip_gap buffer size n separator multiline i offset string m =
    elim (gap_cases separator multiline i) [
      | inl e ↦ rw e (ap (λ k. hex_loop buffer size k string offset m) (omega arith))
      | inr (inl e) ↦
          let two : 2 + n ≡ suc (suc n) = omega arith in
          rw (e, two)
            (skip_space buffer size (suc n) 13 offset (10 ∷ string) m isspace_blanks.0
              ∙ skip_space buffer size n 10 offset string m isspace_blanks.1)
      | inr (inr e) ↦
          let one : 1 + n ≡ suc n = omega arith in
          rw (e, one) (skip_space buffer size n b' ' offset string m isspace_blanks.2)
    ]

read_byte :
    (buffer size n value offset : ℕ) (string m : List ℕ)
    → value < 256
    → 0 < buffer
    → offset < size
    → hex_loop buffer size (suc (suc n)) (hex_byte value ++ string) offset m
      ≡ hex_loop buffer size n string (suc offset) (set m (buffer + offset) value)
unfolding hex_loop store_byte IsDigit
read_byte buffer size n value offset string m byte pos room =
    let (first, second) = below_sixteen value byte in
    let (ra, sa, xa, za) = ntochr_value-IsDigit (bit_and (value / 16) 15) first in
    let (rb, sb, xb, zb) = ntochr_value-IsDigit (bit_and value 15) second in
    let there : (not (buffer == 0) && ltb offset size) ≡ true = ground (arith, pos, room) in
    rw (sa, xa, xb, store_byte, there, ra, rb, join_back value byte) refl

strlen_nonzero : (c : ℕ) (string : List ℕ) → c ≢ 0 → strlen (c ∷ string) ≡ suc (strlen string)
unfolding strlen
strlen_nonzero c string ne = ground (arith, ne)

strlen_gap :
    (separator multiline i : ℕ) (string : List ℕ)
    → let gap : List ℕ = hex_gap separator multiline i in
      strlen (gap ++ string) ≡ length gap + strlen string
strlen_gap separator multiline i string = elim (gap_cases separator multiline i) [
  | inl e ↦ rw e (omega arith)
  | inr (inl e) ↦ rw e (
      strlen_nonzero 13 (10 ∷ string) (omega arith)
      ∙ ap suc (strlen_nonzero 10 string (omega arith))
      ∙ omega arith)
  | inr (inr e) ↦ rw e (strlen_nonzero b' ' string (omega arith) ∙ omega arith)
]

strlen_byte :
    (value : ℕ) (string : List ℕ)
    → value < 256
    → strlen (hex_byte value ++ string) ≡ suc (suc (strlen string))
unfolding IsDigit
strlen_byte value string byte =
    let (first, second) = below_sixteen value byte in
    let ca : ℕ = ntochr_value (bit_and (value / 16) 15) in
    let cb : ℕ = ntochr_value (bit_and value 15) in
    strlen_nonzero ca (cb ∷ string) (ntochr_value-IsDigit (bit_and (value / 16) 15) first).3
    ∙ ap suc (strlen_nonzero cb string (ntochr_value-IsDigit (bit_and value 15) second).3)

-- All data are bytes.
abbrev pub AllBytes : List ℕ → Type 0
AllBytes [] = Unit {0}
AllBytes (value ∷ binary) = (value < 256) × AllBytes binary

strlen-hex_text :
    (separator multiline i : ℕ) (binary rest : List ℕ)
    → AllBytes binary
    → strlen (hex_text separator multiline i binary ++ (0 ∷ rest))
      ≡ length (hex_text separator multiline i binary)
unfolding hex_text strlen
strlen-hex_text separator multiline i [] rest bytes = refl
strlen-hex_text separator multiline i (value ∷ binary) rest (byte, bytes) =
    let gap : List ℕ = hex_gap separator multiline i in
    let text : List ℕ = hex_text separator multiline (suc i) binary in
    ap strlen (append_assoc gap (hex_byte value ++ text) (0 ∷ rest))
    ∙ strlen_gap separator multiline i (hex_byte value ++ (text ++ (0 ∷ rest)))
    ∙ omega (
      arith,
      strlen_byte value (text ++ (0 ∷ rest)) byte,
      strlen-hex_text separator multiline (suc i) binary rest bytes,
      length-append gap (hex_byte value ++ text),
    )

loop_reads :
    (buffer size separator multiline i offset : ℕ) (binary rest m : List ℕ)
    → AllBytes binary
    → 0 < buffer
    → offset + length binary ≤ size
    → let text : List ℕ = hex_text separator multiline i binary in
      hex_loop buffer size (length text) (text ++ rest) offset m
      ≡ (offset + length binary, overwrite_at (buffer + offset) binary m)
unfolding hex_text hex_loop
loop_reads buffer size separator multiline i offset [] rest m bytes pos room =
    let e : offset + 0 ≡ offset = omega arith in rw (e, overwrite_at-nil (buffer + offset) m) refl
loop_reads buffer size separator multiline i offset (value ∷ binary) rest m (byte, bytes) pos room =
    let gap : List ℕ = hex_gap separator multiline i in
    let text : List ℕ = hex_text separator multiline (suc i) binary in
    let n : length (gap ++ (hex_byte value ++ text)) ≡ length gap + suc (suc (length text)) =
      length-append gap (hex_byte value ++ text) in
    let m' : List ℕ = set m (buffer + offset) value in
    let count : suc offset + length binary ≡ offset + suc (length binary) = omega arith in
    let place : buffer + suc offset ≡ buffer + offset + 1 = omega arith in
    let written : overwrite_at (buffer + suc offset) binary m'
        ≡ overwrite_at (buffer + offset) (value ∷ binary) m =
      ap (λ k. overwrite_at k binary m') place
      ∙ ap (overwrite_at (buffer + offset + 1) binary) (set-overwrite_at m (buffer + offset) value)
      ∙ overwrite_at-behind (buffer + offset) (value ∷ []) binary m in
    ap (λ k. hex_loop buffer size k ((gap ++ (hex_byte value ++ text)) ++ rest) offset m) n
    ∙ ap (λ s. hex_loop buffer size (length gap + suc (suc (length text))) s offset m)
        (append_assoc gap (hex_byte value ++ text) rest)
    ∙ skip_gap buffer size (suc (suc (length text))) separator multiline i offset
        (hex_byte value ++ (text ++ rest)) m
    ∙ read_byte buffer size (length text) value offset (text ++ rest) m byte pos (omega arith)
    ∙ loop_reads buffer size separator multiline (suc i) (suc offset) binary rest m' bytes pos
        (omega arith)
    ∙ rw (count, written) refl

-- The text of any bytes, with any options and ended by a zero, is read back by `strtohex` as these
-- bytes, if the buffer has room for them, and nothing else is written.
pub strtohex-hex_text :
    (buffer size separator multiline : ℕ) (binary rest m : List ℕ)
    → AllBytes binary
    → 0 < buffer
    → length binary ≤ size
    → strtohex (some (hex_text separator multiline 0 binary ++ (0 ∷ rest))) buffer size m
      ≡ (length binary, overwrite_at buffer binary m)
unfolding strtohex
strtohex-hex_text buffer size separator multiline binary rest m bytes pos room =
    let text : List ℕ = hex_text separator multiline 0 binary in
    let here : buffer + 0 ≡ buffer = omega arith in
    let count : 0 + length binary ≡ length binary = omega arith in
    rw (strlen-hex_text separator multiline 0 binary rest bytes) (
      loop_reads buffer size separator multiline 0 0 binary (0 ∷ rest) m bytes pos (omega arith)
      ∙ rw (here, count) refl)
