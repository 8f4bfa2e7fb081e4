-- ===== src/Str/Compare/Order.antt =====
-- str/strcmp.hpp: the order that the comparisons of strings follow.
use apilib.Base.{ℕ, zero, suc, ◌<◌, ◌≡◌, ◌≢◌, ◌⊎◌, inl, inr, refl, ap, sym, ◌∙◌, ap₂, arith}
use apilib.Base.{List, [], ◌∷◌, Bool, false}
use apilib.Base.{◌==◌, if◌then◌else◌, drop}
use apilib.Base.Int.{ℤ, pos, negsuc, leb_ℤ, of_word}
use native.Mathlib.Decide.{ℕ_discrete}
use apilib.Str.{CharType, narrow, wide, char_at}
use apilib.Str.ChrCmp.{chrcmp, chrcmp_e, chrequ, chrequ_e, IsChar, comparisons_agree}
use apilib.Str.Len.{contents}
use apilib.Str.Compare.{
  compare_strings, compare_strings_n, equal_strings, equal_strings_n, strcmp, strcmp_e, strcmp_n,
  strcmp_en, strequ, strequ_e, strequ_n, strequ_en, zero_result, compare_at,
}

-- All characters of a memory have codes of the type.
abbrev pub IsText : CharType → List ℕ → Type 0
IsText x m = (i : ℕ) → IsChar x (char_at m i)

IsText-tail : (x : CharType) (c : ℕ) (m : List ℕ) → IsText x (c ∷ m) → IsText x m
IsText-tail x c m h i = h (suc i)

IsText-drop : (x : CharType) (a : ℕ) (m : List ℕ) → IsText x m → IsText x (drop a m)
IsText-drop x zero m h = h
IsText-drop x (suc a) [] h = h
IsText-drop x (suc a) (c ∷ m) h = IsText-drop x a m (IsText-tail x c m h)

-- A test of equality that fits an order: on the codes of the type it is true where the order
-- returns 0.
abbrev pub Fits : CharType → (ℕ → ℕ → ℤ) → (ℕ → ℕ → Bool) → Type 0
Fits x order same = (c1 c2 : ℕ) → IsChar x c1 → IsChar x c2 → zero_result (order c1 c2) ≡ same c1 c2

equal-compare :
    (x : CharType) (order : ℕ → ℕ → ℤ) (same : ℕ → ℕ → Bool) (s1 s2 : List ℕ)
    → Fits x order same
    → IsText x s1
    → IsText x s2
    → equal_strings same s1 s2 ≡ zero_result (compare_strings order s1 s2)
unfolding equal_strings compare_strings
equal-compare x order same [] s2 fits t1 t2 = sym (fits 0 (char_at s2 0) (t1 0) (t2 0))
equal-compare x order same (c1 ∷ s1) s2 fits t1 t2 =
    let ih =
      equal-compare x order same s1 (drop 1 s2) fits (IsText-tail x c1 s1 t1)
        (IsText-drop x 1 s2 t2) in
    ground (arith, ih, fits c1 (char_at s2 0) (t1 0) (t2 0))

equal-compare_n :
    (x : CharType) (order : ℕ → ℕ → ℤ) (same : ℕ → ℕ → Bool) (n : ℕ) (s1 s2 : List ℕ)
    → Fits x order same
    → IsText x s1
    → IsText x s2
    → equal_strings_n same n s1 s2 ≡ zero_result (compare_strings_n order n s1 s2)
unfolding equal_strings_n compare_strings_n
equal-compare_n x order same zero s1 s2 fits t1 t2 = refl
equal-compare_n x order same (suc n) s1 s2 fits t1 t2 =
    let ih =
      equal-compare_n x order same n (drop 1 s1) (drop 1 s2) fits (IsText-drop x 1 s1 t1)
        (IsText-drop x 1 s2 t2) in
    ground (arith, ih, fits (char_at s1 0) (char_at s2 0) (t1 0) (t2 0))

-- In a memory of characters of a type, the tests of equality are the comparisons that return 0:
-- with and without regard to case, NULL included, for whole strings and for the first characters
-- of them, if there is at least one.
pub strequ-strcmp :
    (x : CharType) (s1 s2 maxcnt : ℕ) (m : List ℕ)
    → IsText x m
    → 0 < maxcnt
    → (strequ s1 s2 m ≡ zero_result (strcmp x s1 s2 m))
      × (strequ_e s1 s2 m ≡ zero_result (strcmp_e x s1 s2 m))
      × (strequ_n s1 s2 maxcnt m ≡ zero_result (strcmp_n x s1 s2 maxcnt m))
      × (strequ_en s1 s2 maxcnt m ≡ zero_result (strcmp_en x s1 s2 maxcnt m))
unfolding strequ strequ_e strequ_n strequ_en strcmp strcmp_e strcmp_n strcmp_en
strequ-strcmp x s1 s2 maxcnt m text pos_count =
    let t1 = IsText-drop x s1 m text in
    let t2 = IsText-drop x s2 m text in
    let fits : Fits x (chrcmp x) chrequ = λ c1 c2 h1 h2. (comparisons_agree x c1 c2 h1 h2).0 in
    let fits_e : Fits x (chrcmp_e x) chrequ_e =
      λ c1 c2 h1 h2. (comparisons_agree x c1 c2 h1 h2).1 in
    let whole = equal-compare x (chrcmp x) chrequ (drop s1 m) (drop s2 m) fits t1 t2 in
    let whole_e = equal-compare x (chrcmp_e x) chrequ_e (drop s1 m) (drop s2 m) fits_e t1 t2 in
    let front = equal-compare_n x (chrcmp x) chrequ maxcnt (drop s1 m) (drop s2 m) fits t1 t2 in
    let front_e =
      equal-compare_n x (chrcmp_e x) chrequ_e maxcnt (drop s1 m) (drop s2 m) fits_e t1 t2 in
    (
      ground (arith, whole),
      ground (arith, whole_e),
      ground (arith, front, pos_count),
      ground (arith, front_e, pos_count),
    )

-- The value of a character: a `char` is a signed number of eight bits, a `wchar_t` is unsigned.
abbrev pub char_value : CharType → ℕ → ℤ
char_value narrow c = of_word 8 c
char_value wide c = pos c

-- The first of two characters has the smaller value.
abbrev pub Precedes : CharType → ℕ → ℕ → Type 0
Precedes x c1 c2 = leb_ℤ (char_value x c2) (char_value x c1) ≡ false

-- The result for two characters that differ: -1 or 1, as the first or the second has the smaller
-- value.
abbrev pub Orders : CharType → ℕ → ℕ → ℤ → Type 0
Orders x c1 c2 r = (r ≡ negsuc 0) × Precedes x c1 c2 ⊎ (r ≡ pos 1) × Precedes x c2 c1

-- A result of comparing two strings: 0 for the same contents, or the order of the first two
-- characters that differ, before which neither string ends.
abbrev pub Compares : CharType → List ℕ → List ℕ → ℤ → Type 0
Compares x s1 s2 r =
    (r ≡ pos 0) × (contents s1 ≡ contents s2)
    ⊎ (k : ℕ) × Orders x (char_at s1 k) (char_at s2 k) r
      × ((i : ℕ) → i < k → (char_at s1 i ≡ char_at s2 i) × (char_at s1 i ≢ 0))

chrcmp-Orders :
    (x : CharType) (c1 c2 : ℕ)
    → IsChar x c1
    → IsChar x c2
    → c1 ≢ c2
    → Orders x c1 c2 (chrcmp x c1 c2)
unfolding chrcmp
chrcmp-Orders narrow c1 c2 h1 h2 ne = ground arith
chrcmp-Orders wide c1 c2 h1 h2 ne = ground arith

contents_end : (s : List ℕ) → char_at s 0 ≡ 0 → contents s ≡ []
unfolding contents
contents_end [] e = refl
contents_end (c ∷ s) e = ground (arith, e)

contents_more : (s : List ℕ) → char_at s 0 ≢ 0 → contents s ≡ char_at s 0 ∷ contents (drop 1 s)
unfolding contents
contents_more [] ne = absurd (ne refl)
contents_more (c ∷ s) ne = ground (arith, ne)

char_at-drop : (s : List ℕ) (i : ℕ) → char_at (drop 1 s) i ≡ char_at s (suc i)
char_at-drop [] i = refl
char_at-drop (c ∷ s) i = refl

chrcmp_zero :
    (x : CharType) (c1 c2 : ℕ)
    → IsChar x c1
    → IsChar x c2
    → chrcmp x c1 c2 ≡ (if c1 == c2 then pos 0 else chrcmp x c1 c2)
unfolding chrcmp
chrcmp_zero narrow c1 c2 h1 h2 = ground arith
chrcmp_zero wide c1 c2 h1 h2 = ground arith

chrequ_differs : (c1 c2 : ℕ) → c1 ≢ c2 → chrequ c1 c2 ≡ false
unfolding chrequ
chrequ_differs c1 c2 ne = ground (arith, ne)

differ :
    (x : CharType) (c1 c2 : ℕ) (s1 s2 : List ℕ)
    → IsChar x c1
    → IsChar x c2
    → char_at s2 0 ≡ c2
    → c1 ≢ c2
    → compare_strings (chrcmp x) (c1 ∷ s1) s2 ≡ chrcmp x c1 (char_at s2 0)
unfolding compare_strings
differ x c1 c2 s1 s2 h1 h2 here ne =
    let test = (comparisons_agree x c1 c2 h1 h2).0 in
    ground (arith, test, here, chrequ_differs c1 c2 ne)

agree_suc :
    (k c1 : ℕ) (s1 s2 : List ℕ)
    → c1 ≡ char_at s2 0
    → c1 ≢ 0
    → ((i : ℕ) → i < k → (char_at s1 i ≡ char_at (drop 1 s2) i) × (char_at s1 i ≢ 0))
    → (i : ℕ) → i < suc k
    → (char_at (c1 ∷ s1) i ≡ char_at s2 i) × (char_at (c1 ∷ s1) i ≢ 0)
agree_suc k c1 s1 s2 e nz before zero h = (e, nz)
agree_suc k c1 s1 s2 e nz before (suc i) h =
    let here = before i (omega arith) in (here.0 ∙ char_at-drop s2 i, here.1)

compare-Compares :
    (x : CharType) (s1 s2 : List ℕ)
    → IsText x s1
    → IsText x s2
    → Compares x s1 s2 (compare_strings (chrcmp x) s1 s2)
unfolding compare_strings
compare-Compares x [] s2 t1 t2 = elim (ℕ_discrete (char_at s2 0) 0) [
  | yes e ↦ inl (
    chrcmp_zero x 0 (char_at s2 0) (t1 0) (t2 0) ∙ ground (arith, e),
    contents_end [] refl ∙ sym (contents_end s2 e),
  )
  | no ne ↦ inr (
    0,
    chrcmp-Orders x 0 (char_at s2 0) (t1 0) (t2 0) (λ e. ne (sym e)),
    λ i lt. absurd (omega arith),
  )
]
compare-Compares x (c1 ∷ s1) s2 t1 t2 =
    let c2 : ℕ = char_at s2 0 in
    let zero_case = chrcmp_zero x c1 c2 (t1 0) (t2 0) in
    let test = (comparisons_agree x c1 c2 (t1 0) (t2 0)).0 in
    elim (ℕ_discrete c1 c2) [
      | no ne ↦
          let r = differ x c1 c2 s1 s2 (t1 0) (t2 0) refl ne in
          inr (0, rw r (chrcmp-Orders x c1 c2 (t1 0) (t2 0) ne), λ i lt. absurd (omega arith))
      | yes e ↦ elim (ℕ_discrete c1 0) [
        | yes z ↦ inl (
          ground (arith, z, e, zero_case),
          contents_end (c1 ∷ s1) z ∙ sym (contents_end s2 (sym e ∙ z)),
        )
        | no nz ↦
            let goes : compare_strings (chrcmp x) (c1 ∷ s1) s2
                ≡ compare_strings (chrcmp x) s1 (drop 1 s2) =
              ground (arith, e, nz, zero_case) in
            elim (compare-Compares x s1 (drop 1 s2) (IsText-tail x c1 s1 t1)
              (IsText-drop x 1 s2 t2)) [
                | inl (r, same) ↦ inl (
                  goes ∙ r,
                  contents_more (c1 ∷ s1) nz
                      ∙ ap₂ (λ c t. c ∷ t) e same
                      ∙ sym (contents_more s2 (λ z. nz (e ∙ z))),
                )
                | inr (k, r, before) ↦
                    inr (suc k, rw (goes, ← char_at-drop s2 k) r, agree_suc k c1 s1 s2 e nz before)
              ]
      ]
    ]

-- In a memory of characters of a type, where neither address is NULL, `strcmp` returns 0 for
-- strings of the same contents, and otherwise -1 or 1 as the first of the first two characters
-- that differ has the smaller or the larger value: the code of a `wchar_t`, the signed value of a
-- `char`.
pub strcmp-Compares :
    (x : CharType) (s1 s2 : ℕ) (m : List ℕ)
    → IsText x m
    → 0 < s1
    → 0 < s2
    → Compares x (drop s1 m) (drop s2 m) (strcmp x s1 s2 m)
unfolding strcmp
strcmp-Compares x s1 s2 m text p q =
    let t1 = IsText-drop x s1 m text in
    let t2 = IsText-drop x s2 m text in
    elim (ℕ_discrete s1 s2) [
      | yes e ↦ inl (ground (arith, e), ap (λ s. contents (drop s m)) e)
      | no ne ↦
          let r : compare_at s1 s2 (compare_strings (chrcmp x) (drop s1 m) (drop s2 m))
              ≡ compare_strings (chrcmp x) (drop s1 m) (drop s2 m) =
            ground (arith, p, q, ne) in
          rw r (compare-Compares x (drop s1 m) (drop s2 m) t1 t2)
    ]
