-- ===== src/Str/Search.antt =====
-- str/strchr.hpp, str/strspn.hpp and str/strstr.hpp: search in a string, in a memory of characters.
-- A result is an address; the address 0 is NULL.
pub mod Places
pub mod Text
pub mod Span
pub mod Result
use apilib.Base.{ℕ, zero, suc, ◌+◌, ◌-◌, List, [], ◌∷◌, Bool, not, ◌||◌}
use apilib.Base.{◌==◌, ltb, if◌then◌else◌, drop}
use apilib.Str.{char_at}
use apilib.Str.Len.{strlen, strlen_n}
use apilib.Str.Compare.{strequ_n, strequ_en}

-- The loop of `__strchr_x`; the end of the list is a zero.
unfoldable pub char_up : ℕ → ℕ → List ℕ → ℕ
char_up chr ptr [] = if 0 == chr then ptr else 0
char_up chr ptr (tmp ∷ string) =
    let rest = char_up chr (suc ptr) string in
    if tmp == chr then ptr else if tmp == 0 then 0 else rest

unfoldable pub strchr : ℕ → ℕ → List ℕ → ℕ
strchr string chr m = if string == 0 then 0 else char_up chr string (drop string m)

-- The loop of `__strchr_nx`, with `n` characters left before `maxlen`.
unfoldable pub char_up_n : ℕ → ℕ → ℕ → List ℕ → ℕ
char_up_n chr zero ptr m = 0
char_up_n chr (suc n) ptr m =
    let tmp = char_at m ptr in
    let rest = char_up_n chr n (suc ptr) m in
    if tmp == chr then ptr else if tmp == 0 then 0 else rest

unfoldable pub strchr_n : ℕ → ℕ → ℕ → List ℕ → ℕ
strchr_n string maxlen chr m =
    if string == 0 || maxlen == 0 then 0 else char_up_n chr maxlen string m

-- The loop of `__strrchr_x` and `__strrchr_nx`, from `length` down.
unfoldable pub char_down : ℕ → ℕ → ℕ → List ℕ → ℕ
char_down chr string zero m = if char_at m string == chr then string else 0
char_down chr string (suc length) m =
    let rest = char_down chr string length m in
    if char_at m (string + suc length) == chr then string + suc length else rest

unfoldable pub strrchr : ℕ → ℕ → List ℕ → ℕ
strrchr string chr m = if string == 0 then 0 else char_down chr string (strlen (drop string m)) m

unfoldable pub strrchr_n : ℕ → ℕ → ℕ → List ℕ → ℕ
strrchr_n string maxlen chr m =
    if string == 0 || maxlen == 0
    then 0
    else char_down chr string (strlen_n (drop string m) maxlen) m

-- `__strchr_x<X>(accept, chr) == NULL`
unfoldable pub outside : ℕ → List ℕ → ℕ → Bool
outside accept m chr = strchr accept chr m == 0

-- `__strchr_x<X>(reject, chr) != NULL`
unfoldable pub inside : ℕ → List ℕ → ℕ → Bool
inside reject m chr = not (strchr reject chr m == 0)

-- The loops of `__strspn_x` and `__strcspn_x`, which differ in the test that stops them.
unfoldable pub span_up : (ℕ → Bool) → List ℕ → ℕ
span_up stop [] = 0
span_up stop (chr ∷ string) =
    let rest = span_up stop string in if chr == 0 || stop chr then 0 else suc rest

-- The loops of `__strspn_nx` and `__strcspn_nx`, with `n` characters left before `maxcnt`.
unfoldable pub span_up_n : (ℕ → Bool) → ℕ → List ℕ → ℕ
span_up_n stop zero string = 0
span_up_n stop (suc n) string =
    let chr = char_at string 0 in
    let rest = span_up_n stop n (drop 1 string) in if chr == 0 || stop chr then 0 else suc rest

-- The loops of the four functions that start at the end, with `offset` characters left.
unfoldable pub span_down : (ℕ → Bool) → ℕ → ℕ → List ℕ → ℕ
span_down stop string zero m = 0
span_down stop string (suc offset) m =
    let rest = span_down stop string offset m in
    if stop (char_at m (string + offset)) then 0 else suc rest

unfoldable pub strspn : ℕ → ℕ → List ℕ → ℕ
strspn string accept m =
    if string == 0 || accept == 0 then 0 else span_up (outside accept m) (drop string m)

unfoldable pub strspn_n : ℕ → ℕ → ℕ → List ℕ → ℕ
strspn_n string accept maxcnt m =
    if string == 0 || accept == 0 then 0 else span_up_n (outside accept m) maxcnt (drop string m)

unfoldable pub strcspn : ℕ → ℕ → List ℕ → ℕ
strcspn string reject m =
    if string == 0 || reject == 0 then 0 else span_up (inside reject m) (drop string m)

unfoldable pub strcspn_n : ℕ → ℕ → ℕ → List ℕ → ℕ
strcspn_n string reject maxcnt m =
    if string == 0 || reject == 0 then 0 else span_up_n (inside reject m) maxcnt (drop string m)

unfoldable pub strrspn : ℕ → ℕ → List ℕ → ℕ
strrspn string accept m =
    if string == 0 || accept == 0
    then 0
    else span_down (outside accept m) string (strlen (drop string m)) m

unfoldable pub strrspn_n : ℕ → ℕ → ℕ → List ℕ → ℕ
strrspn_n string accept maxcnt m =
    if string == 0 || (accept == 0 || maxcnt == 0)
    then 0
    else span_down (outside accept m) string (strlen_n (drop string m) (maxcnt + 1)) m

unfoldable pub strrcspn : ℕ → ℕ → List ℕ → ℕ
strrcspn string reject m =
    if string == 0 || reject == 0
    then 0
    else span_down (inside reject m) string (strlen (drop string m)) m

unfoldable pub strrcspn_n : ℕ → ℕ → ℕ → List ℕ → ℕ
strrcspn_n string reject maxcnt m =
    if string == 0 || (reject == 0 || maxcnt == 0)
    then 0
    else span_down (inside reject m) string (strlen_n (drop string m) (maxcnt + 1)) m

-- `for(size_t i = 0; i <= (length1 - length2); i += 1)`, with `n` places left
unfoldable pub place_up : (ℕ → Bool) → ℕ → ℕ → ℕ
place_up test zero ptr = 0
place_up test (suc n) ptr = let rest = place_up test n (suc ptr) in if test ptr then ptr else rest

-- `do ... while(offset-- != 0)`
unfoldable pub place_down : (ℕ → Bool) → ℕ → ℕ → ℕ
place_down test string1 zero = if test string1 then string1 else 0
place_down test string1 (suc offset) =
    let rest = place_down test string1 offset in
    if test (string1 + suc offset) then string1 + suc offset else rest

-- The part that the searches for given lengths share with the others.
unfoldable pub strstr_n : ℕ → ℕ → ℕ → ℕ → List ℕ → ℕ
strstr_n string1 string2 length1 length2 m =
    if string1 == 0 || (string2 == 0 || ltb length1 length2)
    then 0
    else place_up (λ p. strequ_n p string2 length2 m) (suc (length1 - length2)) string1

unfoldable pub strstr_en : ℕ → ℕ → ℕ → ℕ → List ℕ → ℕ
strstr_en string1 string2 length1 length2 m =
    if string1 == 0 || (string2 == 0 || ltb length1 length2)
    then 0
    else place_up (λ p. strequ_en p string2 length2 m) (suc (length1 - length2)) string1

unfoldable pub strrstr_n : ℕ → ℕ → ℕ → ℕ → List ℕ → ℕ
strrstr_n string1 string2 length1 length2 m =
    if string1 == 0 || (string2 == 0 || ltb length1 length2)
    then 0
    else place_down (λ p. strequ_n p string2 length2 m) string1 (length1 - length2)

unfoldable pub strrstr_en : ℕ → ℕ → ℕ → ℕ → List ℕ → ℕ
strrstr_en string1 string2 length1 length2 m =
    if string1 == 0 || (string2 == 0 || ltb length1 length2)
    then 0
    else place_down (λ p. strequ_en p string2 length2 m) string1 (length1 - length2)

unfoldable pub strstr : ℕ → ℕ → List ℕ → ℕ
strstr string1 string2 m =
    strstr_n string1 string2 (strlen (drop string1 m)) (strlen (drop string2 m)) m

unfoldable pub strstr_e : ℕ → ℕ → List ℕ → ℕ
strstr_e string1 string2 m =
    strstr_en string1 string2 (strlen (drop string1 m)) (strlen (drop string2 m)) m

unfoldable pub strrstr : ℕ → ℕ → List ℕ → ℕ
strrstr string1 string2 m =
    strrstr_n string1 string2 (strlen (drop string1 m)) (strlen (drop string2 m)) m

unfoldable pub strrstr_e : ℕ → ℕ → List ℕ → ℕ
strrstr_e string1 string2 m =
    strrstr_en string1 string2 (strlen (drop string1 m)) (strlen (drop string2 m)) m
