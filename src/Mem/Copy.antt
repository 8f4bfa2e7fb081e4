-- ===== src/Mem/Copy.antt =====
-- mem/memcpy.cpp and mem/memset.cpp: copying, exchanging and filling.
use apilib.Base.{
  ℕ, zero, suc, ◌+◌, ◌-◌, ◌≤◌, ◌<◌, ◌≡◌, ◌⊎◌, Bool, true, false, ◌&&◌, ◌||◌, set, length,
}
use apilib.Base.{
  ltb, leb, ◌==◌, if◌then◌else◌, arith, length-set, get_or-set_same, get_or-set_other,
}
use apilib.Mem.{Memory, read}

-- `for(; i < size; i++)dst[i] = src[i];`, with `n` bytes left.
unfoldable pub copy_up : ℕ → ℕ → ℕ → ℕ → Memory → Memory
copy_up zero dst src i m = m
copy_up (suc n) dst src i m = copy_up n dst src (suc i) (set m (dst + i) (read m (src + i)))

-- `while(i > 0){ i -= 1; dst[i] = src[i]; }`
unfoldable pub copy_down : ℕ → ℕ → ℕ → Memory → Memory
copy_down dst src zero m = m
copy_down dst src (suc i) m = copy_down dst src i (set m (dst + i) (read m (src + i)))

unfoldable pub memcpy : ℕ → ℕ → ℕ → Memory → Bool × Memory
memcpy dst src size m =
    if dst == 0 || src == 0
    then (false, m)
    else if dst == src
    then (true, m)
    else (true, copy_up size dst src 0 m)

unfoldable pub memcpy_s : ℕ → ℕ → ℕ → ℕ → Memory → Bool × Memory
memcpy_s dst dst_size src src_size m =
    if dst == 0 || (src == 0 || ltb dst_size src_size)
    then (false, m)
    else if dst == src
    then (true, m)
    else (true, copy_up src_size dst src 0 m)

-- The second test is `dst < src`, as the first.
unfoldable pub memmove : ℕ → ℕ → ℕ → Memory → Bool × Memory
memmove dst src size m =
    if dst == 0 || src == 0
    then (false, m)
    else if ltb dst src
    then (true, copy_up size dst src 0 m)
    else if ltb dst src
    then (true, copy_down dst src size m)
    else (true, m)

unfoldable pub memmove_s : ℕ → ℕ → ℕ → ℕ → Memory → Bool × Memory
memmove_s dst dst_size src src_size m =
    if dst == 0 || (src == 0 || ltb dst_size src_size)
    then (false, m)
    else if ltb dst src
    then (true, copy_up src_size dst src 0 m)
    else if ltb dst src
    then (true, copy_down dst src src_size m)
    else (true, m)

unfoldable pub swap_up : ℕ → ℕ → ℕ → ℕ → Memory → Memory
swap_up zero mem1 mem2 i m = m
swap_up (suc n) mem1 mem2 i m =
    let value = read m (mem1 + i) in
    swap_up n mem1 mem2 (suc i) (set (set m (mem1 + i) (read m (mem2 + i))) (mem2 + i) value)

unfoldable pub memswap : ℕ → ℕ → ℕ → Memory → Bool × Memory
memswap mem1 mem2 size m =
    if mem1 == 0 || mem2 == 0
    then (false, m)
    else if mem1 == mem2
    then (true, m)
    else (true, swap_up size mem1 mem2 0 m)

-- `for(; i < size; i++)dst[i] = val;`, with `n` bytes left.
unfoldable pub fill_up : ℕ → ℕ → ℕ → ℕ → Memory → Memory
fill_up zero dst val i m = m
fill_up (suc n) dst val i m = fill_up n dst val (suc i) (set m (dst + i) val)

unfoldable pub memset : ℕ → ℕ → ℕ → Memory → Bool × Memory
memset dst val size m = if dst == 0 then (false, m) else (true, fill_up size dst val 0 m)

unfoldable pub memzero : ℕ → ℕ → Memory → Bool × Memory
memzero dst size m = if dst == 0 then (false, m) else (true, fill_up size dst 0 0 m)

-- What memory holds after `size` bytes went from `src` to `dst`, all at once.
abbrev pub moved : ℕ → ℕ → ℕ → Memory → ℕ → ℕ
moved dst src size m a =
    if leb dst a && ltb a (dst + size) then read m (src + (a - dst)) else read m a

-- The loop reads no byte that it wrote before.
copy_up_reads :
    (n dst src i a : ℕ) (m : Memory)
    → (dst < src) ⊎ (src + (i + n) ≤ dst)
    → dst + (i + n) ≤ length m
    → read (copy_up n dst src i m) a
      ≡ (if leb (dst + i) a && ltb a (dst + (i + n)) then read m (src + (a - dst)) else read m a)
unfolding copy_up
copy_up_reads zero dst src i a m apart fits = ground arith
copy_up_reads (suc n) dst src i a m apart fits = ground (
  arith,
  copy_up_reads n dst src (suc i) a (set m (dst + i) (read m (src + i))),
  length-set m (dst + i) (read m (src + i)),
  get_or-set_same m (dst + i) (read m (src + i)) 0,
  get_or-set_other m (dst + i) a (read m (src + i)) 0,
  get_or-set_other m (dst + i) (src + (a - dst)) (read m (src + i)) 0,
)

fill_up_reads :
    (n dst val i a : ℕ) (m : Memory)
    → dst + (i + n) ≤ length m
    → read (fill_up n dst val i m) a
      ≡ (if leb (dst + i) a && ltb a (dst + (i + n)) then val else read m a)
unfolding fill_up
fill_up_reads zero dst val i a m fits = ground arith
fill_up_reads (suc n) dst val i a m fits = ground (
  arith,
  fill_up_reads n dst val (suc i) a (set m (dst + i) val),
  length-set m (dst + i) val,
  get_or-set_same m (dst + i) val 0,
  get_or-set_other m (dst + i) a val 0,
)

-- Where neither address is NULL and the bytes fit, `memcpy` returns true and does what copying
-- all at once would, at every address of memory, if the target does not begin inside the source:
-- it may begin before it and overlap it.
pub memcpy_moves :
    (dst src size a : ℕ) (m : Memory)
    → 0 < dst
    → 0 < src
    → (dst ≤ src) ⊎ (src + size ≤ dst)
    → dst + size ≤ length m
    → ((memcpy dst src size m).0 ≡ true)
      × (read (memcpy dst src size m).1 a ≡ moved dst src size m a)
unfolding memcpy
memcpy_moves dst src size a m d s apart fits = ground (arith, copy_up_reads size dst src 0 a m)

-- Where neither address is NULL, the bytes fit and the target is not behind the source, `memmove`
-- returns true and does what copying all at once would, at every address, however the two overlap.
pub memmove_moves :
    (dst src size a : ℕ) (m : Memory)
    → 0 < dst
    → 0 < src
    → dst ≤ src
    → dst + size ≤ length m
    → ((memmove dst src size m).0 ≡ true)
      × (read (memmove dst src size m).1 a ≡ moved dst src size m a)
unfolding memmove
memmove_moves dst src size a m d s before fits = ground (arith, copy_up_reads size dst src 0 a m)

-- The procedures with two sizes refuse a source that is larger than the target, and are those
-- with one size otherwise.
pub bounded_copies :
    (dst dst_size src src_size : ℕ) (m : Memory)
    → (memcpy_s dst dst_size src src_size m
        ≡ (if ltb dst_size src_size then (false, m) else memcpy dst src src_size m))
      × (memmove_s dst dst_size src src_size m
          ≡ (if ltb dst_size src_size then (false, m) else memmove dst src src_size m))
unfolding memcpy memcpy_s memmove memmove_s
bounded_copies dst dst_size src src_size m = (ground arith, ground arith)

-- Where the address is not NULL and the bytes fit, `memset` returns true, sets just the bytes of
-- its range, and `memzero` is `memset` with zero.
pub memset_fills :
    (dst val size a : ℕ) (m : Memory)
    → 0 < dst
    → dst + size ≤ length m
    → ((memset dst val size m).0 ≡ true)
      × (read (memset dst val size m).1 a
          ≡ (if leb dst a && ltb a (dst + size) then val else read m a))
      × (memzero dst size m ≡ memset dst 0 size m)
unfolding memset memzero
memset_fills dst val size a m d fits = ground (arith, fill_up_reads size dst val 0 a m)
