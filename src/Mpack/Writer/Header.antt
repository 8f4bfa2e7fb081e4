-- ===== src/Mpack/Writer/Header.antt =====
-- The calls of `mpack_build_*` as data, and the header that each is to leave in the buffer.
use apilib.Base.{ℕ, ◌+◌, ◌^◌, ◌<◌, ◌≡◌, Bool, true, false, Option, List, ◌∷◌, [], ◌++◌}
use apilib.Base.{length, overwrite, leb, ◌==◌, if◌then◌else◌}
use apilib.Base.Int.{ℤ, pos, negsuc, between, to_word}
use apilib.Base.Memory.{Host, big_bytes}
use apilib.Mpack.Code.{Code}
use apilib.Mpack.Wire.{Item}
use apilib.Mpack.Limits.{
  int08_min, int08_max, int16_min, int16_max, int32_min, int32_max, int64_min, int64_max,
}
use apilib.Mpack.Writer.{Context, write_buffer}
use apilib.Mpack.Writer.Int.{build_int_from_int08, build_int_from_int16, build_int_from_int32}
use apilib.Mpack.Writer.Int.{build_int_from_int64, build_int_from_uint08, build_int_from_uint16}
use apilib.Mpack.Writer.Int.{build_int_from_uint32, build_int_from_uint64}
use apilib.Mpack.Writer.Object.{build_nil, build_bool, build_float_as_float32}
use apilib.Mpack.Writer.Object.{build_float_as_float64, build_str_info, build_bin_info}
use apilib.Mpack.Writer.Object.{build_ext_info, build_array, build_map}

pub data Build : Type 0 where
  int08 int16 int32 int64 : ℤ → Build
  uint08 uint16 uint32 uint64 : ℕ → Build
  nil : Build
  bool : Bool → Build
  float32 float64 : ℕ → Build
  str bin array map : ℕ → Build
  ext : ℕ → ℕ → Build

module _ {W : Type 0} where
  unfoldable pub build : Host → Build → Option (Context W) → Code × Option (Context W)
  build host (int08 z) p = build_int_from_int08 p z
  build host (int16 z) p = build_int_from_int16 host p z
  build host (int32 z) p = build_int_from_int32 host p z
  build host (int64 z) p = build_int_from_int64 host p z
  build host (uint08 x) p = build_int_from_uint08 p x
  build host (uint16 x) p = build_int_from_uint16 host p x
  build host (uint32 x) p = build_int_from_uint32 host p x
  build host (uint64 x) p = build_int_from_uint64 host p x
  build host nil p = build_nil p
  build host (bool b) p = build_bool p b
  build host (float32 x) p = build_float_as_float32 host p x
  build host (float64 x) p = build_float_as_float64 host p x
  build host (str n) p = build_str_info host p n
  build host (bin n) p = build_bin_info host p n
  build host (array n) p = build_array host p n
  build host (map n) p = build_map host p n
  build host (ext n t) p = build_ext_info host p n t

-- The argument is a value of the C type of the parameter.
abbrev pub InRange : Build → Type 0
InRange (int08 z) = between int08_min int08_max z ≡ true
InRange (int16 z) = between int16_min int16_max z ≡ true
InRange (int32 z) = between int32_min int32_max z ≡ true
InRange (int64 z) = between int64_min int64_max z ≡ true
InRange (uint08 x) = x < 2 ^ 8
InRange (uint16 x) = x < 2 ^ 16
InRange (uint32 x) = x < 2 ^ 32
InRange (uint64 x) = x < 2 ^ 64
InRange nil = Unit
InRange (bool b) = Unit
InRange (float32 x) = x < 2 ^ 32
InRange (float64 x) = x < 2 ^ 64
InRange (str n) = n < 2 ^ 32
InRange (bin n) = n < 2 ^ 32
InRange (array n) = n < 2 ^ 32
InRange (map n) = n < 2 ^ 32
InRange (ext n t) = (n < 2 ^ 32) × (t < 256)

-- The object that the call asks for.
abbrev pub item : Build → Item
item (int08 z) = Item.int z
item (int16 z) = Item.int z
item (int32 z) = Item.int z
item (int64 z) = Item.int z
item (uint08 x) = Item.int (pos x)
item (uint16 x) = Item.int (pos x)
item (uint32 x) = Item.int (pos x)
item (uint64 x) = Item.int (pos x)
item nil = Item.nil
item (bool b) = Item.bool b
item (float32 x) = Item.float x
item (float64 x) = Item.double x
item (str n) = Item.str n
item (bin n) = Item.bin n
item (array n) = Item.array n
item (map n) = Item.map n
item (ext n t) = Item.ext n t

-- The shortest header of a signed number among those for signed numbers.
unfoldable pub int_header : ℤ → List ℕ
int_header z =
    if between (negsuc 31) (pos 127) z
    then to_word 8 z ∷ []
    else if between int08_min int08_max z
    then 0xd0 ∷ big_bytes 1 (to_word 8 z)
    else if between int16_min int16_max z
    then 0xd1 ∷ big_bytes 2 (to_word 16 z)
    else if between int32_min int32_max z
    then 0xd2 ∷ big_bytes 4 (to_word 32 z)
    else 0xd3 ∷ big_bytes 8 (to_word 64 z)

-- The shortest header of an unsigned number.
unfoldable pub uint_header : ℕ → List ℕ
uint_header x =
    if leb x 127
    then x ∷ []
    else if leb x 255
    then 0xcc ∷ big_bytes 1 x
    else if leb x 65535
    then 0xcd ∷ big_bytes 2 x
    else if leb x 4294967295
    then 0xce ∷ big_bytes 4 x
    else 0xcf ∷ big_bytes 8 x

-- The header of a string: the short form is used up to fifteen bytes only.
unfoldable pub str_header : ℕ → List ℕ
str_header n =
    if leb n 15
    then (0xa0 + n) ∷ []
    else if leb n 255
    then 0xd9 ∷ big_bytes 1 n
    else if leb n 65535
    then 0xda ∷ big_bytes 2 n
    else 0xdb ∷ big_bytes 4 n

unfoldable pub bin_header : ℕ → List ℕ
bin_header n =
    if leb n 255
    then 0xc4 ∷ big_bytes 1 n
    else if leb n 65535
    then 0xc5 ∷ big_bytes 2 n
    else 0xc6 ∷ big_bytes 4 n

unfoldable pub array_header : ℕ → List ℕ
array_header n =
    if leb n 15
    then (0x90 + n) ∷ []
    else if leb n 65535
    then 0xdc ∷ big_bytes 2 n
    else 0xdd ∷ big_bytes 4 n

unfoldable pub map_header : ℕ → List ℕ
map_header n =
    if leb n 15
    then (0x80 + n) ∷ []
    else if leb n 65535
    then 0xde ∷ big_bytes 2 n
    else 0xdf ∷ big_bytes 4 n

unfoldable pub ext_header : ℕ → ℕ → List ℕ
ext_header n t =
    if n == 1
    then 0xd4 ∷ t ∷ []
    else if n == 2
    then 0xd5 ∷ t ∷ []
    else if n == 4
    then 0xd6 ∷ t ∷ []
    else if n == 8
    then 0xd7 ∷ t ∷ []
    else if n == 16
    then 0xd8 ∷ t ∷ []
    else if leb n 255
    then 0xc7 ∷ big_bytes 1 n ++ t ∷ []
    else if leb n 65535
    then 0xc8 ∷ big_bytes 2 n ++ t ∷ []
    else 0xc9 ∷ big_bytes 4 n ++ t ∷ []

unfoldable pub header : Build → List ℕ
header (int08 z) = int_header z
header (int16 z) = int_header z
header (int32 z) = int_header z
header (int64 z) = int_header z
header (uint08 x) = uint_header x
header (uint16 x) = uint_header x
header (uint32 x) = uint_header x
header (uint64 x) = uint_header x
header nil = 0xc0 ∷ []
header (bool true) = 0xc3 ∷ []
header (bool false) = 0xc2 ∷ []
header (float32 x) = 0xca ∷ big_bytes 4 x
header (float64 x) = 0xcb ∷ big_bytes 8 x
header (str n) = str_header n
header (bin n) = bin_header n
header (array n) = array_header n
header (map n) = map_header n
header (ext n t) = ext_header n t

-- A context after a successful build: the header in the buffer, nothing of it sent, and for a
-- string, binary data or an extension the number of bytes that are to follow.
module _ {W : Type 0} where
  abbrev pub loaded_header : List ℕ → Context W → Context W
  loaded_header bytes m = record m {
    status = write_buffer;
    buffer_data = overwrite bytes m.buffer_data;
    buffer_offset = 0;
    buffer_amount = length bytes;
  }

  abbrev pub loaded_sized : List ℕ → ℕ → Context W → Context W
  loaded_sized bytes size m = record m {
    status = write_buffer;
    buffer_data = overwrite bytes m.buffer_data;
    buffer_offset = 0;
    buffer_amount = length bytes;
    binary_offset = 0;
    binary_amount = size;
  }

  abbrev pub loaded : Build → Context W → Context W
  loaded (str n) m = loaded_sized (header (str n)) n m
  loaded (bin n) m = loaded_sized (header (bin n)) n m
  loaded (ext n t) m = loaded_sized (header (ext n t)) n m
  loaded b m = loaded_header (header b) m
