-- ===== src/Mpack/Format.antt =====
-- `mpack_format_t` of mpack/mpack.h: the first byte of an object.
use apilib.Base.{ℕ}

abbrev pub fixint_positive : ℕ
fixint_positive = 0x00

abbrev pub fixmap : ℕ
fixmap = 0x80

abbrev pub fixarray : ℕ
fixarray = 0x90

abbrev pub fixstr : ℕ
fixstr = 0xa0

abbrev pub nil : ℕ
nil = 0xc0

abbrev pub reserved : ℕ
reserved = 0xc1

abbrev pub bool_false : ℕ
bool_false = 0xc2

abbrev pub bool_true : ℕ
bool_true = 0xc3

abbrev pub bin8 : ℕ
bin8 = 0xc4

abbrev pub bin16 : ℕ
bin16 = 0xc5

abbrev pub bin32 : ℕ
bin32 = 0xc6

abbrev pub ext8 : ℕ
ext8 = 0xc7

abbrev pub ext16 : ℕ
ext16 = 0xc8

abbrev pub ext32 : ℕ
ext32 = 0xc9

abbrev pub float32 : ℕ
float32 = 0xca

abbrev pub float64 : ℕ
float64 = 0xcb

abbrev pub uint8 : ℕ
uint8 = 0xcc

abbrev pub uint16 : ℕ
uint16 = 0xcd

abbrev pub uint32 : ℕ
uint32 = 0xce

abbrev pub uint64 : ℕ
uint64 = 0xcf

abbrev pub int8 : ℕ
int8 = 0xd0

abbrev pub int16 : ℕ
int16 = 0xd1

abbrev pub int32 : ℕ
int32 = 0xd2

abbrev pub int64 : ℕ
int64 = 0xd3

abbrev pub fixext1 : ℕ
fixext1 = 0xd4

abbrev pub fixext2 : ℕ
fixext2 = 0xd5

abbrev pub fixext4 : ℕ
fixext4 = 0xd6

abbrev pub fixext8 : ℕ
fixext8 = 0xd7

abbrev pub fixext16 : ℕ
fixext16 = 0xd8

abbrev pub str8 : ℕ
str8 = 0xd9

abbrev pub str16 : ℕ
str16 = 0xda

abbrev pub str32 : ℕ
str32 = 0xdb

abbrev pub array16 : ℕ
array16 = 0xdc

abbrev pub array32 : ℕ
array32 = 0xdd

abbrev pub map16 : ℕ
map16 = 0xde

abbrev pub map32 : ℕ
map32 = 0xdf

abbrev pub fixint_negative : ℕ
fixint_negative = 0xe0
