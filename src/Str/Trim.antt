-- ===== src/Str/Trim.antt =====
-- str/strtrim.hpp: trimming of a string in place and escaping of quotes, in a memory of characters;
-- the address 0 is NULL.
pub mod Bounds
pub mod Move
pub mod Result
use apilib.Base.{ℕ, zero, suc, ◌+◌, ◌-◌, List, [], ◌∷◌, Bool, true, false, not, ◌&&◌, ◌||◌}
use apilib.Base.{◌==◌, ltb, if◌then◌else◌, drop, set}
use apilib.Str.{char_at}
use apilib.Str.Len.{strlen, strlen_n}

-- The characters that are trimmed.
unfoldable pub trims : ℕ → Bool
trims chr = chr == 13 || (chr == 10 || (chr == 32 || chr == 9))

-- `while(length != 0)`: the length without the blanks at the end
unfoldable pub trim_end : List ℕ → ℕ → ℕ → ℕ
trim_end m string zero = 0
trim_end m string (suc last) =
    let rest = trim_end m string last in
    if not (trims (char_at m (string + last))) then suc last else rest

-- `while(offset < length)`, with `n` characters left: the place of the first one that is no blank
unfoldable pub trim_start : List ℕ → ℕ → ℕ → ℕ → ℕ
trim_start m string offset zero = offset
trim_start m string offset (suc n) =
    let rest = trim_start m string (suc offset) n in
    if not (trims (char_at m (string + offset))) then offset else rest

-- `string[i] = string[i + offset]`, with `n` characters left
unfoldable pub move_down : ℕ → ℕ → ℕ → ℕ → List ℕ → List ℕ
move_down string offset i zero m = m
move_down string offset i (suc n) m =
    move_down string offset (suc i) n (set m (string + i) (char_at m (string + (i + offset))))

-- What both functions do with a string of some length.
unfoldable pub trim : ℕ → ℕ → List ℕ → ℕ × List ℕ
trim string length m =
    let end = trim_end m string length in
    let offset = trim_start m string 0 end in
    let kept = end - offset in
    let moved = if not (offset == 0) then move_down string offset 0 kept m else m in
    if not (length == 0) then (kept, set moved (string + kept) 0) else (length, m)

unfoldable pub strtrim : ℕ → List ℕ → ℕ × List ℕ
strtrim string m = if string == 0 then (0, m) else trim string (strlen (drop string m)) m

unfoldable pub strtrim_n : ℕ → ℕ → List ℕ → ℕ × List ℕ
strtrim_n string maxcnt m =
    if string == 0 then (0, m) else trim string (strlen_n (drop string m) maxcnt) m

-- The characters that get a backslash.
unfoldable pub escapes : ℕ → Bool
escapes chr = chr == b'"' || (chr == 39 || chr == 92)

-- `while(dst != end) *dst-- = *src--`, with `n` characters left; `src` is `dst - 1`
unfoldable pub move_up : ℕ → ℕ → List ℕ → List ℕ
move_up dst zero m = m
move_up dst (suc n) m = move_up (dst - 1) n (set m dst (char_at m (dst - 1)))

-- The loop of `__addslashes_x`, with `n` characters left before `length`.
unfoldable pub slashes_up : ℕ → ℕ → ℕ → ℕ → List ℕ → ℕ × List ℕ
slashes_up string length offset zero m = (length, m)
slashes_up string length offset (suc n) m =
    let opened =
      set (move_up (string + (length + 1)) (length + 1 - offset) m) (string + offset) 92 in
    let escaped = slashes_up string (suc length) (suc (suc offset)) n opened in
    let plain = slashes_up string length (suc offset) n m in
    elim (escapes (char_at m (string + offset))) [ true ↦ escaped | false ↦ plain ]

unfoldable pub addslashes : ℕ → List ℕ → ℕ × List ℕ
addslashes string m =
    let length = strlen (drop string m) in
    if string == 0 then (0, m) else slashes_up string length 0 length m

-- The loop of `__addslashes_lx`: the number of characters needed, and the memory.
unfoldable pub slashes_up_l : ℕ → ℕ → ℕ → ℕ → ℕ → ℕ → List ℕ → ℕ × List ℕ
slashes_up_l string zindex length needed offset zero m = (needed, m)
slashes_up_l string zindex length needed offset (suc n) m =
    let opened =
      set (move_up (string + (length + 1)) (length + 1 - offset) m) (string + offset) 92 in
    let escaped =
      slashes_up_l string zindex (suc length) (suc needed) (suc (suc offset)) n opened in
    let full = slashes_up_l string zindex length (suc needed) (suc offset) n m in
    let plain = slashes_up_l string zindex length needed (suc offset) n m in
    elim (escapes (char_at m (string + offset))) [
      | true ↦ elim (ltb length zindex) [ true ↦ escaped | false ↦ full ]
      | false ↦ plain
    ]

unfoldable pub addslashes_l : ℕ → ℕ → List ℕ → ℕ × List ℕ
addslashes_l string maxlen m =
    let length = strlen_n (drop string m) maxlen in
    if string == 0 || maxlen == 0
    then (0, m)
    else slashes_up_l string (maxlen - 1) length length 0 length m
