-- ===== src/Mpack/Reader.antt =====
-- mpack/mpackread.h: the context of a reader, and the union that holds the object read last. `R`
-- stands for the callback's parameter and all that it can reach.
pub mod Format
pub mod Number
pub mod Receive
pub mod GetInt
pub mod GetObject
pub mod Union
pub mod Source
pub mod Steps
pub mod Meaning
pub mod Digits
pub mod Masks
pub mod Decode
pub mod Values
pub mod Partial
pub mod Formats
use apilib.Base.{ℕ, Bool, true, false, Option, List, ◌∷◌, [], take, get_or, overwrite, overwrite_at}
use apilib.Base.Int.{ℤ, to_word, of_word}
use apilib.Base.Memory.{Host, memory, load}
use apilib.Mpack.Code.{Endian, ObjectType}

-- `mpack_read_status_t`
pub data Status : Type 0 where
  receive_format process_format receive_number process_number xchange_object : Status

abbrev pub is_receive_format : Status → Bool
is_receive_format receive_format = true
is_receive_format _ = false

abbrev pub is_process_format : Status → Bool
is_process_format process_format = true
is_process_format _ = false

abbrev pub is_receive_number : Status → Bool
is_receive_number receive_number = true
is_receive_number _ = false

abbrev pub is_process_number : Status → Bool
is_process_number process_number = true
is_process_number _ = false

abbrev pub is_xchange : Status → Bool
is_xchange xchange_object = true
is_xchange _ = false

-- `mpack_fn_read`: given the size wanted, the number of bytes that it reports, and the bytes that
-- it stored.
abbrev pub ReadFn : Type 0 → Type 0
ReadFn R = R → ℕ → ℕ × List ℕ × R

-- The member `object`: its tag, and the eight bytes of its union.
pub record Object : Type 0 where
  pub type : ObjectType
  pub store : List ℕ

-- `mpack_read_t`. A callback of `none` is the NULL pointer.
pub record Context (R : Type 0) : Type 0 where
  pub endian : Endian
  pub status : Status
  pub format : ℕ
  pub number_data : List ℕ
  pub number_need : ℕ
  pub number_read : ℕ
  pub binary_need : ℕ
  pub binary_read : ℕ
  pub object : Object
  pub fn_read : Option (ReadFn R)

-- Reads and writes of the union's members. All begin at its first byte, but for `ext_type`, which
-- stands behind the four bytes of `ext_size`.
module _ (host : Host) where
  abbrev pub i64 : Object → ℤ
  i64 o = of_word 64 (load host (take 8 o.store))

  abbrev pub u64 : Object → ℕ
  u64 o = load host (take 8 o.store)

  -- `str_size`, `bin_size`, `ext_size`, `arr_count` and `map_count`
  abbrev pub u32 : Object → ℕ
  u32 o = load host (take 4 o.store)

  abbrev pub set_i64 : ℤ → Object → Object
  set_i64 z o = record o { store = overwrite (memory host 8 (to_word 64 z)) o.store }

  abbrev pub set_u64 : ℕ → Object → Object
  set_u64 x o = record o { store = overwrite (memory host 8 x) o.store }

  abbrev pub set_u32 : ℕ → Object → Object
  set_u32 x o = record o { store = overwrite (memory host 4 x) o.store }

-- `bln`
abbrev pub byte : Object → ℕ
byte o = get_or o.store 0 0

abbrev pub set_byte : ℕ → Object → Object
set_byte x o = record o { store = overwrite (x ∷ []) o.store }

abbrev pub ext_type : Object → ℕ
ext_type o = get_or o.store 4 0

abbrev pub set_ext_type : ℕ → Object → Object
set_ext_type x o = record o { store = overwrite_at 4 (x ∷ []) o.store }

-- `flt` and `dbl`: the bytes are copied as they stand.
abbrev pub set_bytes : List ℕ → Object → Object
set_bytes bs o = record o { store = overwrite bs o.store }
