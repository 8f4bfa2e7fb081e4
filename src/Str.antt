-- ===== src/Str.antt =====
-- str/: characters, numbers in text and zero terminated strings. A character is its code without
-- the sign; a string that is only read is the list of the characters from its pointer on, and
-- what lies beyond the end of the list reads as the terminating zero.
pub mod Chr
pub mod ChrCmp
pub mod ChrNum
pub mod Read
pub mod Print
pub mod RoundTrip
pub mod Numbers
pub mod Len
pub mod Compare
pub mod Copy
pub mod Hex
pub mod Search
pub mod Alloc
pub mod Encode
pub mod Trim
mod Tests
use apilib.Base.{ℕ, ◌+◌, ◌%◌, List, get_or, drop}

-- The two character types: `char`, which is signed, and `wchar_t`, which is not.
pub data CharType : Type 0 where
  narrow wide : CharType

-- The order of the characters of a type: the code, shifted where the type has negative values.
abbrev pub rank : CharType → ℕ → ℕ
rank narrow c = (c + 128) % 256
rank wide c = c

-- `string[i]`
abbrev pub char_at : List ℕ → ℕ → ℕ
char_at s i = get_or s i 0
