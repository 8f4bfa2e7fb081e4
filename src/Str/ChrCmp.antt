-- ===== src/Str/ChrCmp.antt =====
-- str/chrcmp.hpp: comparison of two characters, with and without regard to case.
use apilib.Base.{ℕ, zero, suc, ◌-◌, ◌<◌, ◌≡◌, refl, Bool, arith}
use apilib.Base.{ltb, ◌==◌, if◌then◌else◌}
use apilib.Base.Int.{ℤ, pos, negsuc, between}
use apilib.Str.{CharType, narrow, wide, rank}
use apilib.Str.Chr.{in_range, toupper}

unfoldable pub chrcmp : CharType → ℕ → ℕ → ℤ
chrcmp x c1 c2 =
    if ltb (rank x c2) (rank x c1)
    then pos 1
    else if ltb (rank x c1) (rank x c2)
    then negsuc 0
    else pos 0

-- Letters are compared as capitals.
unfoldable pub chrcmp_e : CharType → ℕ → ℕ → ℤ
chrcmp_e x c1 c2 =
    let u1 : ℕ = if in_range b'a' b'z' c1 then c1 - (b'a' - b'A') else c1 in
    let u2 : ℕ = if in_range b'a' b'z' c2 then c2 - (b'a' - b'A') else c2 in
    if ltb (rank x u2) (rank x u1)
    then pos 1
    else if ltb (rank x u1) (rank x u2)
    then negsuc 0
    else pos 0

unfoldable pub chrequ : ℕ → ℕ → Bool
chrequ c1 c2 = c1 == c2

unfoldable pub chrequ_e : ℕ → ℕ → Bool
chrequ_e c1 c2 =
    let u1 : ℕ = if in_range b'a' b'z' c1 then c1 - (b'a' - b'A') else c1 in
    let u2 : ℕ = if in_range b'a' b'z' c2 then c2 - (b'a' - b'A') else c2 in u1 == u2

-- The codes of a character type.
abbrev pub IsChar : CharType → ℕ → Type 0
IsChar narrow c = c < 256
IsChar wide c = c < 65536

-- The opposite of a result of a comparison.
abbrev pub opposite : ℤ → ℤ
opposite (pos zero) = pos 0
opposite (pos (suc n)) = negsuc n
opposite (negsuc n) = pos (suc n)

-- On the codes of a type, both comparisons are 0 exactly where their equality test is true, and
-- take the opposite value when their arguments change places; the comparison without regard to
-- case is the other one of the capitals.
pub comparisons_agree :
    (x : CharType) (c1 c2 : ℕ)
    → IsChar x c1
    → IsChar x c2
    → (between (pos 0) (pos 0) (chrcmp x c1 c2) ≡ chrequ c1 c2)
      × (between (pos 0) (pos 0) (chrcmp_e x c1 c2) ≡ chrequ_e c1 c2)
      × (chrcmp x c2 c1 ≡ opposite (chrcmp x c1 c2))
      × (chrcmp_e x c1 c2 ≡ chrcmp x (toupper c1) (toupper c2))
      × (chrequ_e c1 c2 ≡ chrequ (toupper c1) (toupper c2))
unfolding chrcmp chrcmp_e chrequ chrequ_e toupper
comparisons_agree narrow c1 c2 h1 h2 = (ground arith, ground arith, ground arith, refl, refl)
comparisons_agree wide c1 c2 h1 h2 = (ground arith, ground arith, ground arith, refl, refl)
