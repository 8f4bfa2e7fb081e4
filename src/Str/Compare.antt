-- ===== src/Str/Compare.antt =====
-- str/strcmp.hpp: comparison of two strings. They stand in one memory of characters, at addresses
-- that the functions compare; the address 0 is NULL.
pub mod Order
use apilib.Base.{ℕ, zero, suc, ◌+◌, ◌-◌, List, [], ◌∷◌, Bool, true, false, not, ◌&&◌, ◌||◌}
use apilib.Base.{◌==◌, if◌then◌else◌, drop}
use apilib.Base.Int.{ℤ, pos, negsuc, between}
use apilib.Str.{CharType, char_at}
use apilib.Str.ChrCmp.{chrcmp, chrcmp_e, chrequ, chrequ_e}

abbrev pub zero_result : ℤ → Bool
zero_result r = between (pos 0) (pos 0) r

-- The loops of `__strcmp_x` and `__strcmp_ex`, which differ in how two characters are compared.
-- The first string that ends is followed by zeros only, so the loop ends there.
unfoldable pub compare_strings : (ℕ → ℕ → ℤ) → List ℕ → List ℕ → ℤ
compare_strings order [] s2 = order 0 (char_at s2 0)
compare_strings order (c1 ∷ s1) s2 =
    let c2 = char_at s2 0 in
    let r = order c1 c2 in
    let rest = compare_strings order s1 (drop 1 s2) in
    if not (zero_result r) then r else if c1 == 0 || c2 == 0 then pos 0 else rest

-- The loops of `__strcmp_nx` and `__strcmp_enx`, with `n` characters left.
unfoldable pub compare_strings_n : (ℕ → ℕ → ℤ) → ℕ → List ℕ → List ℕ → ℤ
compare_strings_n order zero s1 s2 = pos 0
compare_strings_n order (suc n) s1 s2 =
    let c1 = char_at s1 0 in
    let c2 = char_at s2 0 in
    let r = order c1 c2 in
    let rest = compare_strings_n order n (drop 1 s1) (drop 1 s2) in
    if not (zero_result r) then r else if c1 == 0 || c2 == 0 then pos 0 else rest

-- The loops of `__strequ_x` and `__strequ_ex`.
unfoldable pub equal_strings : (ℕ → ℕ → Bool) → List ℕ → List ℕ → Bool
equal_strings same [] s2 = same 0 (char_at s2 0)
equal_strings same (c1 ∷ s1) s2 =
    let c2 = char_at s2 0 in
    let rest = equal_strings same s1 (drop 1 s2) in
    if not (same c1 c2) then false else if c1 == 0 || c2 == 0 then true else rest

-- The loops of `__strequ_nx` and `__strequ_enx`.
unfoldable pub equal_strings_n : (ℕ → ℕ → Bool) → ℕ → List ℕ → List ℕ → Bool
equal_strings_n same zero s1 s2 = true
equal_strings_n same (suc n) s1 s2 =
    let c1 = char_at s1 0 in
    let c2 = char_at s2 0 in
    let rest = equal_strings_n same n (drop 1 s1) (drop 1 s2) in
    if not (same c1 c2) then false else if c1 == 0 || c2 == 0 then true else rest

-- What stands before the loops: the tests of the two addresses.
abbrev pub compare_at : ℕ → ℕ → ℤ → ℤ
compare_at s1 s2 r =
    if s1 == s2 then pos 0 else if s1 == 0 then negsuc 1 else if s2 == 0 then pos 2 else r

abbrev pub equal_at : ℕ → ℕ → Bool → Bool
equal_at s1 s2 b =
    if s1 == s2 then true else if s1 == 0 then false else if s2 == 0 then false else b

unfoldable pub strcmp : CharType → ℕ → ℕ → List ℕ → ℤ
strcmp x s1 s2 m = compare_at s1 s2 (compare_strings (chrcmp x) (drop s1 m) (drop s2 m))

unfoldable pub strcmp_e : CharType → ℕ → ℕ → List ℕ → ℤ
strcmp_e x s1 s2 m = compare_at s1 s2 (compare_strings (chrcmp_e x) (drop s1 m) (drop s2 m))

unfoldable pub strcmp_n : CharType → ℕ → ℕ → ℕ → List ℕ → ℤ
strcmp_n x s1 s2 maxcnt m =
    compare_at s1 s2 (compare_strings_n (chrcmp x) maxcnt (drop s1 m) (drop s2 m))

unfoldable pub strcmp_en : CharType → ℕ → ℕ → ℕ → List ℕ → ℤ
strcmp_en x s1 s2 maxcnt m =
    compare_at s1 s2 (compare_strings_n (chrcmp_e x) maxcnt (drop s1 m) (drop s2 m))

unfoldable pub strequ : ℕ → ℕ → List ℕ → Bool
strequ s1 s2 m = equal_at s1 s2 (equal_strings chrequ (drop s1 m) (drop s2 m))

unfoldable pub strequ_e : ℕ → ℕ → List ℕ → Bool
strequ_e s1 s2 m = equal_at s1 s2 (equal_strings chrequ_e (drop s1 m) (drop s2 m))

unfoldable pub strequ_n : ℕ → ℕ → ℕ → List ℕ → Bool
strequ_n s1 s2 maxcnt m =
    if s1 == s2
    then true
    else if s1 == 0 || (s2 == 0 || maxcnt == 0)
    then false
    else equal_strings_n chrequ maxcnt (drop s1 m) (drop s2 m)

unfoldable pub strequ_en : ℕ → ℕ → ℕ → List ℕ → Bool
strequ_en s1 s2 maxcnt m =
    if s1 == s2
    then true
    else if s1 == 0 || (s2 == 0 || maxcnt == 0)
    then false
    else equal_strings_n chrequ_e maxcnt (drop s1 m) (drop s2 m)
