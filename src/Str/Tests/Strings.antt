-- ===== src/Str/Tests/Strings.antt =====
-- The theorems about strings on small texts.
use apilib.Base.{ℕ, zero, suc, ◌≡◌, List, ◌∷◌, [], ◌++◌, arith, ◌<◌, inr}
use apilib.Base.{some, length, take, drop, overwrite_at, ltb, if◌then◌else◌}
use apilib.Str.{narrow}
use apilib.Str.Len.{contents}
use apilib.Str.Compare.{
  strcmp, strcmp_e, strcmp_n, strcmp_en, strequ, strequ_e, strequ_n, strequ_en, zero_result,
}
use apilib.Str.Compare.Order.{IsText, Compares, strcmp-Compares, strequ-strcmp}
use apilib.Str.Copy.{strcpy, strcpy_n, strcpy_l, strcpy_ln, strcat, strcat_n}
use apilib.Str.Copy.Bounded.{bounded}
use apilib.Str.Copy.Result.{strcpy_copies}
use apilib.Str.Copy.Join.{joined, strcat_joins}
use apilib.Str.Hex.{strgenhexseq, strgenhexseq_n, strtohex, hex_text}
use apilib.Str.Hex.Amount.{strgenhexseq_writes}
use apilib.Str.Hex.RoundTrip.{strtohex-hex_text}
use apilib.Str.Trim.{strtrim}
use apilib.Str.Trim.Result.{Trimmed, strtrim-Trimmed}

-- Two strings, "ab" and "aC", and space behind them.
abbrev text : List ℕ
text = 1 ∷ (b'a' ∷ (b'b' ∷ (0 ∷ (b'a' ∷ (b'C' ∷ (0 ∷ (1 ∷ (1 ∷ (1 ∷ (1 ∷ (1 ∷ (1 ∷ []))))))))))))

IsText-nil : IsText narrow []
IsText-nil i = omega arith

IsText-cons : (c : ℕ) (m : List ℕ) → c < 256 → IsText narrow m → IsText narrow (c ∷ m)
IsText-cons c m h rest zero = h
IsText-cons c m h rest (suc i) = rest i

abbrev Small : List ℕ → Type 0
Small [] = Unit {0}
Small (c ∷ m) = (c < 256) × Small m

Small-IsText : (m : List ℕ) → Small m → IsText narrow m
Small-IsText [] h = IsText-nil
Small-IsText (c ∷ m) (h, rest) = IsText-cons c m h (Small-IsText m rest)

text-IsText : IsText narrow text
text-IsText = Small-IsText text (omega arith)

strcmp-Compares_example : Compares narrow (drop 1 text) (drop 4 text) (strcmp narrow 1 4 text)
strcmp-Compares_example = strcmp-Compares narrow 1 4 text text-IsText (omega arith) (omega arith)

strequ-strcmp_example :
    (strequ 1 4 text ≡ zero_result (strcmp narrow 1 4 text))
    × (strequ_e 1 4 text ≡ zero_result (strcmp_e narrow 1 4 text))
    × (strequ_n 1 4 1 text ≡ zero_result (strcmp_n narrow 1 4 1 text))
    × (strequ_en 1 4 1 text ≡ zero_result (strcmp_en narrow 1 4 1 text))
strequ-strcmp_example = strequ-strcmp narrow 1 4 1 text text-IsText (omega arith)

strcpy_copies_example :
    (strcpy 8 1 text
      ≡ some (
        length (contents (drop 1 text)),
        overwrite_at 8 (contents (drop 1 text) ++ (0 ∷ [])) text,
      ))
    × (strcpy_n 8 1 1 text
        ≡ some (
          length (take 1 (contents (drop 1 text))),
          overwrite_at 8 (take 1 (contents (drop 1 text)) ++ (0 ∷ [])) text,
        ))
    × (strcpy_l 8 1 2 text
        ≡ some (
          length (contents (drop 1 text)),
          overwrite_at 8 (bounded 2 (contents (drop 1 text) ++ (0 ∷ []))) text,
        ))
    × (strcpy_ln 8 1 2 1 text
        ≡ some (
          length (take 1 (contents (drop 1 text))),
          overwrite_at 8 (bounded 2 (take 1 (contents (drop 1 text)) ++ (0 ∷ []))) text,
        ))
unfolding contents
strcpy_copies_example =
    strcpy_copies 8 1 2 1 text (omega arith) (omega arith) (inr (omega arith)) (inr (omega arith))

strcat_joins_example :
    (strcat 4 1 text
      ≡ some (
        length (contents (drop 4 text) ++ contents (drop 1 text)),
        joined 4 (contents (drop 1 text)) text,
      ))
    × (contents (drop 4 (joined 4 (contents (drop 1 text)) text))
        ≡ contents (drop 4 text) ++ contents (drop 1 text))
    × (strcat_n 4 1 1 text
        ≡ some (
          length (contents (drop 4 text) ++ take 1 (contents (drop 1 text))),
          joined 4 (take 1 (contents (drop 1 text))) text,
        ))
    × (contents (drop 4 (joined 4 (take 1 (contents (drop 1 text))) text))
        ≡ contents (drop 4 text) ++ take 1 (contents (drop 1 text)))
unfolding contents
strcat_joins_example =
    strcat_joins 4 1 1 text (omega arith) (omega arith) (inr (omega arith)) (inr (omega arith))
      (omega arith)

abbrev binary : List ℕ
binary = 0 ∷ (171 ∷ (255 ∷ []))

strgenhexseq_writes_example :
    (strgenhexseq (some binary) 2 1 0 text
      ≡ (length (hex_text 1 0 0 binary), overwrite_at 2 (hex_text 1 0 0 binary ++ (0 ∷ [])) text))
    × (strgenhexseq_n (some binary) 2 9 1 0 text ≡ (
      length (hex_text 1 0 0 binary),
      if ltb (length (hex_text 1 0 0 binary)) 9
          then overwrite_at 2 (hex_text 1 0 0 binary ++ (0 ∷ [])) text
          else text,
    ))
    × (strgenhexseq (some binary) 0 1 0 text ≡ (length (hex_text 1 0 0 binary), text))
strgenhexseq_writes_example =
    strgenhexseq_writes binary 2 9 1 0 text (omega arith) (omega arith) (omega arith) (omega arith)

strtohex-hex_text_example :
    strtohex (some (hex_text 1 0 0 binary ++ (0 ∷ []))) 2 8 text
    ≡ (length binary, overwrite_at 2 binary text)
strtohex-hex_text_example =
    strtohex-hex_text 2 8 1 0 binary [] text (omega arith) (omega arith) (omega arith)

-- " a" and a tabulator.
abbrev padded : List ℕ
padded = 1 ∷ (32 ∷ (b'a' ∷ (9 ∷ (0 ∷ []))))

strtrim-Trimmed_example : Trimmed padded 1 (strtrim 1 padded).0 (strtrim 1 padded).1
strtrim-Trimmed_example = strtrim-Trimmed 1 padded (omega arith)
