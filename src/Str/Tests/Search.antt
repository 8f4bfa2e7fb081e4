-- ===== src/Str/Tests/Search.antt =====
-- The theorems about search on a small text.
use apilib.Base.{length, drop, not, ℕ, List, ◌∷◌, [], arith}
use apilib.Str.Len.{contents}
use apilib.Str.Search.{strstr, strrstr, strspn, strcspn, strrspn, strrcspn}
use apilib.Str.Search.Span.{Leads, Trails, has, strspn_spans}
use apilib.Str.Search.Result.{FirstOccurrence, LastOccurrence, strstr_occurrences}

-- The strings "aba" and "a".
abbrev searched : List ℕ
searched = 1 ∷ (b'a' ∷ (b'b' ∷ (b'a' ∷ (0 ∷ (b'a' ∷ (0 ∷ []))))))

strstr_occurrences_example :
    FirstOccurrence searched 1 5 (strstr 1 5 searched)
    × LastOccurrence searched 1 5 (strrstr 1 5 searched)
unfolding contents
strstr_occurrences_example =
    strstr_occurrences searched 1 5 (omega arith) (omega arith) (omega arith)

strspn_spans_example :
    Leads
      (λ c. has c (contents (drop 5 searched)))
      (contents (drop 1 searched))
      (strspn 1 5 searched)
    × Leads
        (λ c. not (has c (contents (drop 5 searched))))
        (contents (drop 1 searched))
        (strcspn 1 5 searched)
    × Trails
        (λ c. has c (contents (drop 5 searched)))
        (contents (drop 1 searched))
        (length (contents (drop 1 searched)))
        (strrspn 1 5 searched)
    × Trails
        (λ c. not (has c (contents (drop 5 searched))))
        (contents (drop 1 searched))
        (length (contents (drop 1 searched)))
        (strrcspn 1 5 searched)
strspn_spans_example = strspn_spans searched 1 5 (omega arith) (omega arith)
