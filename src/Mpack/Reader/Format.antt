-- ===== src/Mpack/Reader/Format.antt =====
-- `mpack_process_format` of mpack/mpackread.cpp: what the first byte of an object says. The
-- procedure is one chain of tests; it is cut into three functions.
use apilib.Base.{ℕ, Option, none, some, ◌==◌, if◌then◌else◌, bit_and}
use apilib.Base.Int.{of_word}
use apilib.Base.Memory.{Host}
use apilib.Mpack.Code.{Code, ok, error_invalid_argument, error_invalid_format, ObjectType}
use apilib.Mpack.Code.{int, uint, nil, bool, float, double, str, bin, ext, array, map}
use apilib.Mpack.Format
use apilib.Mpack.Reader.{
  Context, Object, xchange_object, receive_number, set_i64, set_u32, set_byte,
}

module _ {R : Type 0} where
  -- The object is complete: its type, and its value in the union.
  abbrev pub complete : ObjectType → (Object → Object) → Context R → Code × Option (Context R)
  complete type fill m =
      let o = fill m.object in
      (ok, some (record m { object = record o { type = type }; status = xchange_object }))

  -- `number_need` bytes have to follow.
  abbrev pub await_number : ObjectType → ℕ → Context R → Code × Option (Context R)
  await_number type need m =
      let o = m.object in
      (
        ok,
        some (record m {
          object = record o { type = type };
          number_need = need;
          number_read = 0;
          status = receive_number;
        }),
      )

  -- The same for an extension of a fixed size.
  abbrev pub await_fixext : ℕ → Context R → Code × Option (Context R)
  await_fixext size m =
      let o = m.object in
      (
        ok,
        some (record m {
          object = record o { type = ext };
          number_need = 1;
          number_read = 0;
          binary_need = size;
          binary_read = 0;
          status = receive_number;
        }),
      )

  -- The tests from `mpack_format_fixext1` on.
  unfoldable pub process_format_tail : Context R → Code × Option (Context R)
  process_format_tail m =
      if m.format == Format.fixext1
      then await_fixext 1 m
      else if m.format == Format.fixext2
      then await_fixext 2 m
      else if m.format == Format.fixext4
      then await_fixext 4 m
      else if m.format == Format.fixext8
      then await_fixext 8 m
      else if m.format == Format.fixext16
      then await_fixext 16 m
      else if m.format == Format.str8
      then await_number str 1 m
      else if m.format == Format.str16
      then await_number str 2 m
      else if m.format == Format.str32
      then await_number str 4 m
      else if m.format == Format.array16
      then await_number array 2 m
      else if m.format == Format.array32
      then await_number array 4 m
      else if m.format == Format.map16
      then await_number map 2 m
      else if m.format == Format.map32
      then await_number map 4 m
      else (error_invalid_format, some m)

  -- The tests from `mpack_format_bin8` to `mpack_format_uint64`.
  unfoldable pub process_format_sized : Context R → Code × Option (Context R)
  process_format_sized m =
      if m.format == Format.bin8
      then await_number bin 1 m
      else if m.format == Format.bin16
      then await_number bin 2 m
      else if m.format == Format.bin32
      then await_number bin 4 m
      else if m.format == Format.ext8
      then await_number ext 2 m
      else if m.format == Format.ext16
      then await_number ext 3 m
      else if m.format == Format.ext32
      then await_number ext 5 m
      else if m.format == Format.float32
      then await_number float 4 m
      else if m.format == Format.float64
      then await_number double 8 m
      else if m.format == Format.int8
      then await_number int 1 m
      else if m.format == Format.int16
      then await_number int 2 m
      else if m.format == Format.int32
      then await_number int 4 m
      else if m.format == Format.int64
      then await_number int 8 m
      else if m.format == Format.uint8
      then await_number uint 1 m
      else if m.format == Format.uint16
      then await_number uint 2 m
      else if m.format == Format.uint32
      then await_number uint 4 m
      else if m.format == Format.uint64
      then await_number uint 8 m
      else process_format_tail m

  -- The tests up to `mpack_format_true`, and the others.
  unfoldable pub process_format_some : Host → Context R → Code × Option (Context R)
  process_format_some host m =
      if bit_and m.format 0x80 == Format.fixint_positive
      then complete int (set_i64 host (of_word 8 m.format)) m
      else if bit_and m.format 0xe0 == Format.fixint_negative
      then complete int (set_i64 host (of_word 8 m.format)) m
      else if bit_and m.format 0xf0 == Format.fixarray
      then complete array (set_u32 host (bit_and m.format 0x0f)) m
      else if bit_and m.format 0xf0 == Format.fixmap
      then complete map (set_u32 host (bit_and m.format 0x0f)) m
      else if bit_and m.format 0xe0 == Format.fixstr
      then complete str (set_u32 host (bit_and m.format 0x1f)) m
      else if m.format == Format.nil
      then complete nil (λ o. o) m
      else if m.format == Format.bool_false
      then complete bool (set_byte 0) m
      else if m.format == Format.bool_true
      then complete bool (set_byte 1) m
      else process_format_sized m

  -- `mpack_process_format`
  unfoldable pub process_format_step : Host → Option (Context R) → Code × Option (Context R)
  process_format_step host none = (error_invalid_argument, none)
  process_format_step host (some m) = process_format_some host m
