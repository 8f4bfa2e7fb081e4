-- ===== src/Str/Copy.antt =====
-- str/strcpy.hpp and str/strcat.hpp: copying and joining of strings, in one memory of characters,
-- so that the strings may overlap; the address 0 is NULL. A loop that its rounds do not suffice
-- for returns `none`.
pub mod Loop
pub mod Bounded
pub mod Result
pub mod Join
use apilib.Base.{ℕ, zero, suc, ◌+◌, ◌-◌, List, [], ◌∷◌, Bool, true, false, not, ◌&&◌, ◌||◌}
use apilib.Base.{◌==◌, ltb, leb, if◌then◌else◌, drop, set, length, Option, none, some}
use apilib.Str.{char_at}
use apilib.Str.Len.{strlen, strlen_n}

-- The loop of the four functions: `ends` is the test before a character is read and `close` what is
-- done then, `put` is what is done with a character.
unfoldable pub copy_loop :
    ℕ
    → (ℕ → Bool)
    → (ℕ → List ℕ → List ℕ)
    → (ℕ → ℕ → List ℕ → List ℕ)
    → ℕ
    → ℕ
    → List ℕ
    → Option (ℕ × List ℕ)
copy_loop zero ends close put src length m = none
copy_loop (suc rounds) ends close put src length m =
    let chr = char_at m (src + length) in
    let m' = put length chr m in
    let rest = copy_loop rounds ends close put src (suc length) m' in
    if ends length
    then some (length, close length m)
    else if chr == 0
    then some (length, m')
    else rest

-- `dst[length] = chr`
abbrev pub put_at : ℕ → ℕ → ℕ → List ℕ → List ℕ
put_at dst length chr m = set m (dst + length) chr

-- `if(length < maxlen) dst[length] = (length != zindex) ? chr : 0`
abbrev pub put_below : ℕ → ℕ → ℕ → ℕ → List ℕ → List ℕ
put_below maxlen dst length chr m =
    if ltb length maxlen
    then set m (dst + length) (if not (length == maxlen - 1) then chr else 0)
    else m

-- `if(length < maxlen) dst[length] = 0`
abbrev pub close_below : ℕ → ℕ → ℕ → List ℕ → List ℕ
close_below maxlen dst length m = if ltb length maxlen then set m (dst + length) 0 else m

unfoldable pub strcpy : ℕ → ℕ → List ℕ → Option (ℕ × List ℕ)
strcpy dst src m =
    if dst == 0 || src == 0
    then some (0, m)
    else copy_loop (suc (length m)) (λ i. false) (λ i t. t) (put_at dst) src 0 m

unfoldable pub strcpy_n : ℕ → ℕ → ℕ → List ℕ → Option (ℕ × List ℕ)
strcpy_n dst src maxcnt m =
    if dst == 0 || src == 0
    then some (0, m)
    else copy_loop (suc (length m)) (λ i. leb maxcnt i) (λ i t. set t (dst + i) 0) (put_at dst) src
        0 m

unfoldable pub strcpy_l : ℕ → ℕ → ℕ → List ℕ → Option (ℕ × List ℕ)
strcpy_l dst src maxlen m =
    if dst == 0 || src == 0
    then some (0, m)
    else copy_loop (suc (length m)) (λ i. false) (λ i t. t) (put_below maxlen dst) src 0 m

unfoldable pub strcpy_ln : ℕ → ℕ → ℕ → ℕ → List ℕ → Option (ℕ × List ℕ)
strcpy_ln dst src maxlen maxcnt m =
    if dst == 0 || src == 0
    then some (0, m)
    else copy_loop (suc (length m)) (λ i. leb maxcnt i) (close_below maxlen dst)
        (put_below maxlen dst) src 0 m

-- `length + copied`
abbrev pub add_length : ℕ → Option (ℕ × List ℕ) → Option (ℕ × List ℕ)
add_length length none = none
add_length length (some (copied, m)) = some (length + copied, m)

unfoldable pub strcat : ℕ → ℕ → List ℕ → Option (ℕ × List ℕ)
strcat dst src m =
    let length = strlen (drop dst m) in
    if dst == 0 || src == 0 then some (0, m) else add_length length (strcpy (dst + length) src m)

unfoldable pub strcat_n : ℕ → ℕ → ℕ → List ℕ → Option (ℕ × List ℕ)
strcat_n dst src maxcnt m =
    let length = strlen (drop dst m) in
    if dst == 0 || src == 0
    then some (0, m)
    else add_length length (strcpy_n (dst + length) src maxcnt m)

unfoldable pub strcat_l : ℕ → ℕ → ℕ → List ℕ → Option (ℕ × List ℕ)
strcat_l dst src maxlen m =
    let length = strlen_n (drop dst m) maxlen in
    if dst == 0 || src == 0
    then some (0, m)
    else add_length length (strcpy_l (dst + length) src (maxlen - length) m)

unfoldable pub strcat_ln : ℕ → ℕ → ℕ → ℕ → List ℕ → Option (ℕ × List ℕ)
strcat_ln dst src maxlen maxcnt m =
    let length = strlen_n (drop dst m) maxlen in
    if dst == 0 || src == 0
    then some (0, m)
    else add_length length (strcpy_ln (dst + length) src (maxlen - length) maxcnt m)
