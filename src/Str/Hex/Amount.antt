-- ===== src/Str/Hex/Amount.antt =====
-- str/strhex.hpp: the size of the text that is computed in advance, and the text.
use apilib.Base.{ℕ, suc, ◌+◌, ◌≤◌, ◌<◌, ◌≡◌, refl, ap, ◌∙◌, arith}
use apilib.Base.{List, [], ◌∷◌, ◌++◌, false, some}
use apilib.Base.{◌==◌, ltb, if◌then◌else◌, length, length-append, overwrite_at}
use apilib.Str.Hex.{hex_amount, hex_gap, hex_byte, hex_text, strgenhexseq, strgenhexseq_n}

-- One more byte makes the text longer by its gap and two digits.
amount_suc :
    (i separator multiline : ℕ)
    → separator ≤ 1
    → multiline ≤ 1
    → hex_amount (suc i) separator multiline
      ≡ hex_amount i separator multiline + (length (hex_gap separator multiline i) + 2)
unfolding hex_amount hex_gap
amount_suc i separator multiline s l = ground arith

amount_text :
    (i separator multiline : ℕ) (binary : List ℕ)
    → separator ≤ 1
    → multiline ≤ 1
    → hex_amount (i + length binary) separator multiline
      ≡ hex_amount i separator multiline + length (hex_text separator multiline i binary)
unfolding hex_text
amount_text i separator multiline [] s l = let e : i + 0 ≡ i = omega arith in rw e (omega arith)
amount_text i separator multiline (value ∷ binary) s l =
    let e : i + suc (length binary) ≡ suc i + length binary = omega arith in
    let gap : List ℕ = hex_gap separator multiline i in
    let rest : List ℕ = hex_text separator multiline (suc i) binary in
    rw e (
      omega (
        arith,
        amount_text (suc i) separator multiline binary s l,
        amount_suc i separator multiline s l,
        length-append gap (hex_byte value ++ rest),
      ))

amount_none : (separator multiline : ℕ) → hex_amount 0 separator multiline ≡ 0
unfolding hex_amount
amount_none separator multiline = ground arith

-- With options that are 0 or 1, the size that both functions return for some bytes is the length
-- of the text, and a buffer receives the whole text and a zero: always from the one, and from
-- the other if the text and the zero fit in `maxlen` characters, and else nothing.
pub strgenhexseq_writes :
    (binary : List ℕ) (buffer maxlen separator multiline : ℕ) (m : List ℕ)
    → 0 < length binary
    → 0 < buffer
    → separator ≤ 1
    → multiline ≤ 1
    → let text : List ℕ = hex_text separator multiline 0 binary in
      let written : List ℕ = overwrite_at buffer (text ++ (0 ∷ [])) m in
      (strgenhexseq (some binary) buffer separator multiline m ≡ (length text, written))
      × (strgenhexseq_n (some binary) buffer maxlen separator multiline m
          ≡ (length text, if ltb (length text) maxlen then written else m))
      × (strgenhexseq (some binary) 0 separator multiline m ≡ (length text, m))
unfolding strgenhexseq strgenhexseq_n
strgenhexseq_writes binary buffer maxlen separator multiline m some_bytes pos s l =
    let text : List ℕ = hex_text separator multiline 0 binary in
    let amount : hex_amount (length binary) separator multiline ≡ length text =
      ap (λ n. hex_amount n separator multiline) (omega arith)
      ∙ amount_text 0 separator multiline binary s l
      ∙ omega (arith, amount_none separator multiline) in
    let bytes : (length binary == 0) ≡ false = ground (arith, some_bytes) in
    let there : (buffer == 0) ≡ false = ground (arith, pos) in
    (rw (bytes, amount, there) refl, rw (bytes, amount, there) refl, rw (bytes, amount) refl)
