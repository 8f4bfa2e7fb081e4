-- ===== src/Str/Encode.antt =====
-- str/strenc.hpp and str/strenc.cpp: conversion of ASCII text between `char` and `wchar_t` of 16
-- bits, and the marks at the beginning of a text. The two strings are of different types and stand
-- in different memories; the result `none` is `(size_t)-1`, which is above every `maxlen`.
use apilib.Base.{ℕ, zero, suc, ◌+◌, ◌*◌, ◌%◌, ◌≡◌, arith, List, Bool, false}
use apilib.Base.{◌&&◌, ◌||◌, ◌==◌, ltb, leb, if◌then◌else◌, set, Option, none, some}
use apilib.Str.{CharType, narrow, wide, char_at}
use apilib.Str.Len.{strlen}

-- `chr > 0x7F`, where a `char` of code 128 and above is negative
unfoldable pub beyond_ascii : CharType → ℕ → Bool
beyond_ascii narrow chr = if ltb chr 128 then ltb 127 chr else false
beyond_ascii wide chr = ltb 127 chr

-- `dst[i] = chr`: a negative `char` is widened with its sign, a `wchar_t` is cut.
unfoldable pub converted : CharType → ℕ → ℕ
converted narrow chr = if ltb chr 128 then chr else 65280 + chr
converted wide chr = chr % 256

-- `for(size_t i = 0; i < length; i++)`, with `n` characters left
unfoldable pub convert_up : CharType → List ℕ → ℕ → ℕ → ℕ → List ℕ → Option ℕ × List ℕ
convert_up x src dst i zero m = (some i, m)
convert_up x src dst i (suc n) m =
    let chr = char_at src i in
    let rest = convert_up x src dst (suc i) n (set m (dst + i) (converted x chr)) in
    if beyond_ascii x chr then (none, m) else rest

-- The zero behind the result, or at the beginning where it has no room.
unfoldable pub end_text : ℕ → ℕ → Option ℕ × List ℕ → Option ℕ × List ℕ
end_text dst maxlen (none, m) = (none, if dst == 0 || maxlen == 0 then m else set m dst 0)
end_text dst maxlen (some result, m) = (
  some result,
  if dst == 0 || maxlen == 0
      then m
      else if ltb result maxlen
      then set m (dst + result) 0
      else set m dst 0,
)

-- `__xcstoxcs_lne`: the number of characters, or `none` for a character that is not ASCII.
unfoldable pub xcstoxcs_lne : CharType → ℕ → ℕ → Option (List ℕ) → ℕ → List ℕ → Option ℕ × List ℕ
xcstoxcs_lne x dst maxlen none length m = end_text dst maxlen (some 0, m)
xcstoxcs_lne x dst maxlen (some src) length m =
    let copied = convert_up x src dst 0 length m in
    end_text dst maxlen (
      if dst == 0 then (some length, m) else if ltb length maxlen then copied else (some length, m))

unfoldable pub xcstoxcs_le : CharType → ℕ → ℕ → Option (List ℕ) → List ℕ → Option ℕ × List ℕ
xcstoxcs_le x dst maxlen none m = end_text dst maxlen (some 0, m)
xcstoxcs_le x dst maxlen (some src) m =
    let length = strlen src in
    let copied = convert_up x src dst 0 length m in
    end_text dst maxlen (
      if dst == 0 then (some length, m) else if ltb length maxlen then copied else (some length, m))

unfoldable pub acstowcs_le : ℕ → ℕ → Option (List ℕ) → List ℕ → Option ℕ × List ℕ
acstowcs_le dst maxlen src m = xcstoxcs_le narrow dst maxlen src m

unfoldable pub acstowcs_lne : ℕ → ℕ → Option (List ℕ) → ℕ → List ℕ → Option ℕ × List ℕ
acstowcs_lne dst maxlen src length m = xcstoxcs_lne narrow dst maxlen src length m

unfoldable pub wcstoacs_le : ℕ → ℕ → Option (List ℕ) → List ℕ → Option ℕ × List ℕ
wcstoacs_le dst maxlen src m = xcstoxcs_le wide dst maxlen src m

unfoldable pub wcstoacs_lne : ℕ → ℕ → Option (List ℕ) → ℕ → List ℕ → Option ℕ × List ℕ
wcstoacs_lne dst maxlen src length m = xcstoxcs_lne wide dst maxlen src length m

-- The marks, of bytes that are read as little endian numbers.
unfoldable pub is_utf8_bom : Option (List ℕ) → ℕ → ℕ
is_utf8_bom none size = 0
is_utf8_bom (some mark) size =
    if leb 3 size && (char_at mark 0 == 239 && (char_at mark 1 == 187 && char_at mark 2 == 191))
    then 1
    else 0

unfoldable pub is_utf16_bom : Option (List ℕ) → ℕ → ℕ
is_utf16_bom none size = 0
is_utf16_bom (some mark) size =
    if leb 2 size && (char_at mark 0 + 256 * char_at mark 1 == 65279) then 1 else 0

unfoldable pub is_utf32_bom : Option (List ℕ) → ℕ → ℕ
is_utf32_bom none size = 0
is_utf32_bom (some mark) size =
    if leb 4 size
      && (char_at mark 0 + 256 * (char_at mark 1 + 256 * (char_at mark 2 + 256 * char_at mark 3))
          == 4294836224)
    then 1
    else 0

-- The test of a `char` refuses nothing, so that text which is not ASCII is converted too.
pub convert_up_accepts :
    (src : List ℕ) (dst i n : ℕ) (m : List ℕ) → (convert_up narrow src dst i n m).0 ≡ some (i + n)
unfolding convert_up beyond_ascii
convert_up_accepts src dst i zero m = ground arith
convert_up_accepts src dst i (suc n) m =
    let rest =
      convert_up_accepts src dst (suc i) n (set m (dst + i) (converted narrow (char_at src i))) in
    ground (arith, rest)
