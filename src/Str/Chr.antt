-- ===== src/Str/Chr.antt =====
-- str/chr.hpp: the classes of characters and the change of case.
use apilib.Base.{ℕ, ◌+◌, ◌-◌, ◌<◌, ◌≡◌, Bool, not, ◌&&◌, ◌||◌, arith}
use apilib.Base.{leb, ◌==◌, if◌then◌else◌}
use apilib.Str.{CharType, narrow, wide, rank}

-- `lo <= c && c <= hi`. The bounds lie below 128, so the sign of the type has no part in it.
abbrev pub in_range : ℕ → ℕ → ℕ → Bool
in_range lo hi c = leb lo c && leb c hi

unfoldable pub isalnum : ℕ → ℕ
isalnum c = if in_range b'A' b'Z' c || (in_range b'a' b'z' c || in_range b'0' b'9' c) then 1 else 0

unfoldable pub isalpha : ℕ → ℕ
isalpha c = if in_range b'A' b'Z' c || in_range b'a' b'z' c then 1 else 0

unfoldable pub isblank : ℕ → ℕ
isblank c = if c == 32 || c == 9 then 1 else 0

unfoldable pub isbreak : ℕ → ℕ
isbreak c = if c == 13 || c == 10 then 1 else 0

unfoldable pub iscntrl : ℕ → ℕ
iscntrl c = if in_range 0 31 c || c == 127 then 1 else 0

unfoldable pub isdigit : ℕ → ℕ
isdigit c = if in_range b'0' b'9' c then 1 else 0

-- The one bound compares in the order of the type.
unfoldable pub isgraph : CharType → ℕ → ℕ
isgraph x c = if leb (rank x 33) (rank x c) && not (c == 127) then 1 else 0

unfoldable pub islower : ℕ → ℕ
islower c = if in_range b'a' b'z' c then 1 else 0

unfoldable pub isprint : CharType → ℕ → ℕ
isprint x c = if leb (rank x 32) (rank x c) && not (c == 127) then 1 else 0

unfoldable pub ispunct : ℕ → ℕ
ispunct c =
    if in_range 33 47 c || (in_range 58 64 c || (in_range 91 96 c || in_range 123 126 c))
    then 1
    else 0

unfoldable pub isspace : ℕ → ℕ
isspace c = if c == 32 || (c == 9 || (c == 10 || (c == 11 || (c == 12 || c == 13)))) then 1 else 0

unfoldable pub isupper : ℕ → ℕ
isupper c = if in_range b'A' b'Z' c then 1 else 0

unfoldable pub isxdigit : ℕ → ℕ
isxdigit c = if in_range b'0' b'9' c || (in_range b'A' b'F' c || in_range b'a' b'f' c) then 1 else 0

unfoldable pub tolower : ℕ → ℕ
tolower c = if in_range b'A' b'Z' c then c + (b'a' - b'A') else c

unfoldable pub toupper : ℕ → ℕ
toupper c = if in_range b'a' b'z' c then c - (b'a' - b'A') else c

-- On the ASCII codes, whatever the type of the characters, a printable character is a space or a
-- graphic one, a control character is one that is not printable, and a graphic character is
-- exactly one of: upper case letter, lower case letter, digit, punctuation.
pub classes_partition :
    (x : CharType) (c : ℕ)
    → c < 128
    → (iscntrl c + isprint x c ≡ 1)
      × (isprint x c ≡ (if c == 32 then 1 else isgraph x c))
      × (isgraph x c ≡ isupper c + (islower c + (isdigit c + ispunct c)))
      × (isalnum c ≡ isalpha c + isdigit c)
      × (isalpha c ≡ isupper c + islower c)
unfolding iscntrl isprint isgraph isupper islower isdigit ispunct isalnum isalpha
classes_partition narrow c h =
    (ground arith, ground arith, ground arith, ground arith, ground arith)
classes_partition wide c h = (ground arith, ground arith, ground arith, ground arith, ground arith)

-- `tolower` and `toupper` change letters only, undo each other on the letters of the other case,
-- and keep every class but the case.
pub case_change :
    (c : ℕ)
    → (toupper (tolower c) ≡ toupper c)
      × (tolower (toupper c) ≡ tolower c)
      × (isupper (tolower c) ≡ 0)
      × (islower (toupper c) ≡ 0)
      × (isalpha (tolower c) ≡ isalpha c)
      × (isalpha (toupper c) ≡ isalpha c)
      × (isxdigit (toupper c) ≡ isxdigit c)
unfolding tolower toupper isupper islower isalpha isxdigit
case_change c = (
  ground arith,
  ground arith,
  ground arith,
  ground arith,
  ground arith,
  ground arith,
  ground arith,
)
