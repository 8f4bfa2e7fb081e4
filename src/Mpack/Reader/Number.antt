-- ===== src/Mpack/Reader/Number.antt =====
-- `mpack_process_number` of mpack/mpackread.cpp: the digits that were received are brought into the
-- machine's order and put into the object. The procedure is one chain of tests; it is cut into
-- three functions.
use apilib.Base.{ℕ, Bool, true, Option, none, some, List, take, get_or, ◌==◌, if◌then◌else◌}
use apilib.Base.Int.{of_word}
use apilib.Base.Memory.{Host, load}
use apilib.Mpack.Code.{Code, ok, error_internal, error_invalid_argument, error_invalid_format}
use apilib.Mpack.Code.{little}
use apilib.Mpack.Format
use apilib.Mpack.Reader.{Context, Object, xchange_object}
use apilib.Mpack.Reader.{set_i64, set_u64, set_u32, set_ext_type, set_bytes}
use apilib.Mpack.Swap.{Swap, swap16, swap32, swap64}

module _ {R : Type 0} where
  -- The object takes its value from the bytes of `number_data`.
  abbrev pub fill : (List ℕ → Object → Object) → Context R → Code × Option (Context R)
  fill f m = (ok, some (record m { object = f m.number_data m.object; status = xchange_object }))

  -- The bytes after the exchange, if it succeeded.
  abbrev pub fill_reversed :
      Bool × Option (List ℕ) → (List ℕ → Object → Object) → Context R → Code × Option (Context R)
  fill_reversed (true, some digits) f m = (
    ok,
    some (record m { number_data = digits; object = f digits m.object; status = xchange_object }),
  )
  fill_reversed (_, _) f m = (error_internal, some m)

  -- The same after `if(endian == little && swap(number_data) == false)return internal;`
  abbrev pub fill_swapped :
      Swap → (List ℕ → Object → Object) → Context R → Code × Option (Context R)
  fill_swapped swap f m = elim m.endian [
    | little ↦ fill_reversed (swap (some m.number_data)) f m
    | _ ↦ fill f m
  ]

  -- The tests from `mpack_format_fixext1` on.
  unfoldable pub process_number_tail : Host → Context R → Code × Option (Context R)
  process_number_tail host m =
      if m.format == Format.fixext1
      then fill (λ d. set_ext_type (get_or d 0 0)) m
      else if m.format == Format.fixext2
      then fill (λ d. set_ext_type (get_or d 0 0)) m
      else if m.format == Format.fixext4
      then fill (λ d. set_ext_type (get_or d 0 0)) m
      else if m.format == Format.fixext8
      then fill (λ d. set_ext_type (get_or d 0 0)) m
      else if m.format == Format.fixext16
      then fill (λ d. set_ext_type (get_or d 0 0)) m
      else if m.format == Format.str8
      then fill (λ d. set_u32 host (load host (take 1 d))) m
      else if m.format == Format.str16
      then fill_swapped swap16 (λ d. set_u32 host (load host (take 2 d))) m
      else if m.format == Format.str32
      then fill_swapped swap32 (λ d. set_u32 host (load host (take 4 d))) m
      else if m.format == Format.array16
      then fill_swapped swap16 (λ d. set_u32 host (load host (take 2 d))) m
      else if m.format == Format.array32
      then fill_swapped swap32 (λ d. set_u32 host (load host (take 4 d))) m
      else if m.format == Format.map16
      then fill_swapped swap16 (λ d. set_u32 host (load host (take 2 d))) m
      else if m.format == Format.map32
      then fill_swapped swap32 (λ d. set_u32 host (load host (take 4 d))) m
      else (error_invalid_format, some m)

  -- The tests from `mpack_format_int8` to `mpack_format_uint64`.
  unfoldable pub process_number_int : Host → Context R → Code × Option (Context R)
  process_number_int host m =
      if m.format == Format.int8
      then fill (λ d. set_i64 host (of_word 8 (load host (take 1 d)))) m
      else if m.format == Format.int16
      then fill_swapped swap16 (λ d. set_i64 host (of_word 16 (load host (take 2 d)))) m
      else if m.format == Format.int32
      then fill_swapped swap32 (λ d. set_i64 host (of_word 32 (load host (take 4 d)))) m
      else if m.format == Format.int64
      then fill_swapped swap64 (λ d. set_i64 host (of_word 64 (load host (take 8 d)))) m
      else if m.format == Format.uint8
      then fill (λ d. set_u64 host (load host (take 1 d))) m
      else if m.format == Format.uint16
      then fill_swapped swap16 (λ d. set_u64 host (load host (take 2 d))) m
      else if m.format == Format.uint32
      then fill_swapped swap32 (λ d. set_u64 host (load host (take 4 d))) m
      else if m.format == Format.uint64
      then fill_swapped swap64 (λ d. set_u64 host (load host (take 8 d))) m
      else process_number_tail host m

  -- The tests up to `mpack_format_float64`, and the others.
  unfoldable pub process_number_some : Host → Context R → Code × Option (Context R)
  process_number_some host m =
      if m.format == Format.bin8
      then fill (λ d. set_u32 host (load host (take 1 d))) m
      else if m.format == Format.bin16
      then fill_swapped swap16 (λ d. set_u32 host (load host (take 2 d))) m
      else if m.format == Format.bin32
      then fill_swapped swap32 (λ d. set_u32 host (load host (take 4 d))) m
      else if m.format == Format.ext8
      then fill (λ d o. set_ext_type (get_or d 1 0) (set_u32 host (load host (take 1 d)) o)) m
      else if m.format == Format.ext16
      then fill_swapped swap16
          (λ d o. set_ext_type (get_or d 2 0) (set_u32 host (load host (take 2 d)) o)) m
      else if m.format == Format.ext32
      then fill_swapped swap32
          (λ d o. set_ext_type (get_or d 4 0) (set_u32 host (load host (take 4 d)) o)) m
      else if m.format == Format.float32
      then fill_swapped swap32 (λ d. set_bytes (take 4 d)) m
      else if m.format == Format.float64
      then fill_swapped swap64 (λ d. set_bytes (take 8 d)) m
      else process_number_int host m

  -- `mpack_process_number`
  unfoldable pub process_number_step : Host → Option (Context R) → Code × Option (Context R)
  process_number_step host none = (error_invalid_argument, none)
  process_number_step host (some m) = process_number_some host m
