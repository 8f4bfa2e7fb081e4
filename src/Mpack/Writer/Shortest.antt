-- ===== src/Mpack/Writer/Shortest.antt =====
-- How short a header can be, and for which objects the writer's is as short as can be.
use apilib.Base.{ℕ, ◌-◌, ◌^◌, ◌≤◌, ◌<◌, ◌≡◌, refl, Bool, true, false, ◌||◌, not, List, length}
use apilib.Base.{leb, ◌==◌, if◌then◌else◌, arith}
use apilib.Base.Int.{ℤ, pos, negsuc, leb_ℤ, between, of_word}
use apilib.Base.{some}
use apilib.Base.Memory.{Host}
use apilib.Mpack.Code.{ok}
use apilib.Mpack.Swap.{IsNative}
use apilib.Mpack.Writer.{Context, build_buffer}
use apilib.Mpack.Writer.Encode.{build_loads}
use apilib.Mpack.Writer.Header.{build, loaded}
use apilib.Mpack.Writer.Standard.{loaded-fields}
use apilib.Mpack.Limits.{int08_min, int08_max}
use apilib.Mpack.Wire.{Item, Encodes}
use apilib.Mpack.Writer.Header.{Build, InRange, item, header, int_header, uint_header, str_header}
use apilib.Mpack.Writer.Header.{bin_header, array_header, map_header, ext_header}

-- A bound from below on the headers of an object.
least : Item → ℕ
least (Item.int (pos n)) =
    if leb n 127
    then 1
    else if leb n 255
    then 2
    else if leb n 65535
    then 3
    else if leb n 4294967295
    then 5
    else 9
least (Item.int (negsuc n)) =
    if leb n 31
    then 1
    else if leb n 127
    then 2
    else if leb n 32767
    then 3
    else if leb n 2147483647
    then 5
    else 9
least Item.nil = 1
least (Item.bool b) = 1
least (Item.float x) = 5
least (Item.double x) = 9
least (Item.str n) = if leb n 31 then 1 else if leb n 255 then 2 else if leb n 65535 then 3 else 5
least (Item.bin n) = if leb n 255 then 2 else if leb n 65535 then 3 else 5
least (Item.array n) = if leb n 15 then 1 else if leb n 65535 then 3 else 5
least (Item.map n) = if leb n 15 then 1 else if leb n 65535 then 3 else 5
least (Item.ext n t) =
    if n == 1 || (n == 2 || (n == 4 || (n == 8 || n == 16)))
    then 2
    else if leb n 255
    then 3
    else if leb n 65535
    then 4
    else 6

signed8-least : (x : ℕ) → x < 2 ^ 8 → least (Item.int (of_word 8 x)) ≤ 2
unfolding least
signed8-least x h = ground arith

signed16-least : (x : ℕ) → x < 2 ^ 16 → least (Item.int (of_word 16 x)) ≤ 3
unfolding least
signed16-least x h = ground arith

signed32-least : (x : ℕ) → x < 2 ^ 32 → least (Item.int (of_word 32 x)) ≤ 5
unfolding least
signed32-least x h = ground arith

signed64-least : (x : ℕ) → x < 2 ^ 64 → least (Item.int (of_word 64 x)) ≤ 9
unfolding least
signed64-least x h = ground arith

least-le : {bs : List ℕ} {it : Item} → Encodes bs it → least it ≤ length bs
unfolding least
least-le (Encodes.fixint_positive n h) = ground arith
least-le (Encodes.fixint_negative n h) = ground arith
least-le (Encodes.nil_byte) = omega arith
least-le (Encodes.false_byte) = omega arith
least-le (Encodes.true_byte) = omega arith
least-le (Encodes.float32 x h) = ground arith
least-le (Encodes.float64 x h) = ground arith
least-le (Encodes.uint8 x h) = ground arith
least-le (Encodes.uint16 x h) = ground arith
least-le (Encodes.uint32 x h) = ground arith
least-le (Encodes.uint64 x h) = ground arith
least-le (Encodes.int8 x h) = signed8-least x h
least-le (Encodes.int16 x h) = signed16-least x h
least-le (Encodes.int32 x h) = signed32-least x h
least-le (Encodes.int64 x h) = signed64-least x h
least-le (Encodes.fixstr n h) = ground arith
least-le (Encodes.str8 n h) = ground arith
least-le (Encodes.str16 n h) = ground arith
least-le (Encodes.str32 n h) = ground arith
least-le (Encodes.bin8 n h) = ground arith
least-le (Encodes.bin16 n h) = ground arith
least-le (Encodes.bin32 n h) = ground arith
least-le (Encodes.fixext1 t h) = ground arith
least-le (Encodes.fixext2 t h) = ground arith
least-le (Encodes.fixext4 t h) = ground arith
least-le (Encodes.fixext8 t h) = ground arith
least-le (Encodes.fixext16 t h) = ground arith
least-le (Encodes.ext8 n t h k) = ground arith
least-le (Encodes.ext16 n t h k) = ground arith
least-le (Encodes.ext32 n t h k) = ground arith
least-le (Encodes.fixarray n h) = ground arith
least-le (Encodes.array16 n h) = ground arith
least-le (Encodes.array32 n h) = ground arith
least-le (Encodes.fixmap n h) = ground arith
least-le (Encodes.map16 n h) = ground arith
least-le (Encodes.map32 n h) = ground arith

-- Not among these are the signed numbers above 127, for which the unsigned forms may be shorter,
-- and the strings of sixteen to thirty-one bytes, for which the writer leaves the short form
-- unused.
abbrev pub economical : Build → Bool
economical (Build.int08 z) = true
economical (Build.int16 z) = leb_ℤ z (pos 127)
economical (Build.int32 z) = leb_ℤ z (pos 127)
economical (Build.int64 z) = leb_ℤ z (pos 127)
economical (Build.str n) = leb n 15 || not (leb n 31)
economical _ = true

int-least : (z : ℤ) → leb_ℤ z (pos 127) ≡ true → length (int_header z) ≤ least (Item.int z)
unfolding int_header least
int-least (pos n) h = ground arith
int-least (negsuc n) h = ground arith

uint-least : (x : ℕ) → length (uint_header x) ≤ least (Item.int (pos x))
unfolding uint_header least
uint-least x = ground arith

header-least : (b : Build) → InRange b → economical b ≡ true → length (header b) ≤ least (item b)
unfolding header
header-least (Build.int08 z) r h = int-least z (small z r)
  where
    small : (z : ℤ) → between int08_min int08_max z ≡ true → leb_ℤ z (pos 127) ≡ true
    small (pos n) e = ground arith
    small (negsuc n) e = refl
header-least (Build.int16 z) r h = int-least z h
header-least (Build.int32 z) r h = int-least z h
header-least (Build.int64 z) r h = int-least z h
header-least (Build.uint08 x) r h = uint-least x
header-least (Build.uint16 x) r h = uint-least x
header-least (Build.uint32 x) r h = uint-least x
header-least (Build.uint64 x) r h = uint-least x
header-least Build.nil r h = unfold least in omega arith
header-least (Build.bool true) r h = unfold least in omega arith
header-least (Build.bool false) r h = unfold least in omega arith
header-least (Build.float32 x) r h = unfold least in omega arith
header-least (Build.float64 x) r h = unfold least in omega arith
header-least (Build.str n) r h = unfold least str_header in ground arith
header-least (Build.bin n) r h = unfold least bin_header in ground arith
header-least (Build.array n) r h = unfold least array_header in ground arith
header-least (Build.map n) r h = unfold least map_header in ground arith
header-least (Build.ext n t) r h = unfold least ext_header in ground arith

module _ {W : Type 0} where
  -- Except for signed numbers above 127 and for strings of sixteen to thirty-one bytes, the writer
  -- wastes no byte: in a context that is between two objects and whose byte order is the machine's,
  -- each `mpack_build_*`, for any value of its parameter's C type, returns `ok` with a header of no
  -- more bytes to write than any header of the MessagePack format for the same object has.
  pub build_shortest :
      (host : Host) (b : Build) (m : Context W) {bs : List ℕ}
      → m.status ≡ build_buffer
      → IsNative m.endian host
      → InRange b
      → economical b ≡ true
      → Encodes bs (item b)
      → (m' : Context W) × (build host b (some m) ≡ (ok, some m'))
        × (m'.buffer_amount - m'.buffer_offset ≤ length bs)
  build_shortest host b m s e r h other =
      let (status, offset, amount, bytes) = loaded-fields b m in
      (
        loaded b m,
        build_loads host b m s e r,
        rw (offset, amount) (omega (arith, header-least b r h, least-le other)),
      )
