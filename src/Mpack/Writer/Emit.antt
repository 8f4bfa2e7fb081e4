-- ===== src/Mpack/Writer/Emit.antt =====
-- `mpack_write_*` of mpack/mpackwrite.cpp: an object is built, its buffer is written, and for
-- strings, binary data and extensions the data follow.
use apilib.Base.{ℕ, Bool, Option, List}
use apilib.Base.Int.{ℤ}
use apilib.Base.Memory.{Host}
use apilib.Mpack.Code.{Code, ok}
use apilib.Mpack.Writer.{Context, write_object_buffer, write_object_binary}
use apilib.Mpack.Writer.Int.{build_int_from_int08, build_int_from_int16, build_int_from_int32}
use apilib.Mpack.Writer.Int.{build_int_from_int64, build_int_from_uint08, build_int_from_uint16}
use apilib.Mpack.Writer.Int.{build_int_from_uint32, build_int_from_uint64}
use apilib.Mpack.Writer.Object.{build_nil, build_bool, build_float_as_float32}
use apilib.Mpack.Writer.Object.{build_float_as_float64, build_str_info, build_bin_info}
use apilib.Mpack.Writer.Object.{build_ext_info, build_array, build_map}

module _ {W : Type 0} where
  -- `if(r != mpack_code_ok)break; r = mpack_write_object_buffer(mpack);`
  abbrev pub then_buffer : Code × Option (Context W) → W → Code × Option (Context W) × W
  then_buffer (ok, p) w = write_object_buffer p w
  then_buffer (r, p) w = (r, p, w)

  -- `if(r != mpack_code_ok)break; r = mpack_write_object_binary(mpack, data, size, written);`
  abbrev pub then_binary :
      Code × Option (Context W) × W
      → Option (List ℕ)
      → ℕ
      → Option ℕ
      → Code × Option (Context W) × Option ℕ × W
  then_binary (ok, p, w) bytes size written = write_object_binary p bytes size written w
  then_binary (r, p, w) bytes size written = (r, p, written, w)

  unfoldable pub write_int_from_int08 : Option (Context W) → ℤ → W → Code × Option (Context W) × W
  write_int_from_int08 p z w = then_buffer (build_int_from_int08 p z) w

  unfoldable pub write_int_from_int16 :
      Host → Option (Context W) → ℤ → W → Code × Option (Context W) × W
  write_int_from_int16 host p z w = then_buffer (build_int_from_int16 host p z) w

  unfoldable pub write_int_from_int32 :
      Host → Option (Context W) → ℤ → W → Code × Option (Context W) × W
  write_int_from_int32 host p z w = then_buffer (build_int_from_int32 host p z) w

  unfoldable pub write_int_from_int64 :
      Host → Option (Context W) → ℤ → W → Code × Option (Context W) × W
  write_int_from_int64 host p z w = then_buffer (build_int_from_int64 host p z) w

  unfoldable pub write_int_from_uint08 : Option (Context W) → ℕ → W → Code × Option (Context W) × W
  write_int_from_uint08 p x w = then_buffer (build_int_from_uint08 p x) w

  unfoldable pub write_int_from_uint16 :
      Host → Option (Context W) → ℕ → W → Code × Option (Context W) × W
  write_int_from_uint16 host p x w = then_buffer (build_int_from_uint16 host p x) w

  unfoldable pub write_int_from_uint32 :
      Host → Option (Context W) → ℕ → W → Code × Option (Context W) × W
  write_int_from_uint32 host p x w = then_buffer (build_int_from_uint32 host p x) w

  unfoldable pub write_int_from_uint64 :
      Host → Option (Context W) → ℕ → W → Code × Option (Context W) × W
  write_int_from_uint64 host p x w = then_buffer (build_int_from_uint64 host p x) w

  unfoldable pub write_nil : Option (Context W) → W → Code × Option (Context W) × W
  write_nil p w = then_buffer (build_nil p) w

  unfoldable pub write_bool : Option (Context W) → Bool → W → Code × Option (Context W) × W
  write_bool p b w = then_buffer (build_bool p b) w

  unfoldable pub write_float_from_float32 :
      Host → Option (Context W) → ℕ → W → Code × Option (Context W) × W
  write_float_from_float32 host p x w = then_buffer (build_float_as_float32 host p x) w

  unfoldable pub write_float_from_float64 :
      Host → Option (Context W) → ℕ → W → Code × Option (Context W) × W
  write_float_from_float64 host p x w = then_buffer (build_float_as_float64 host p x) w

  unfoldable pub write_str :
      Host
      → Option (Context W)
      → Option (List ℕ)
      → ℕ
      → Option ℕ
      → W
      → Code × Option (Context W) × Option ℕ × W
  write_str host p bytes size written w =
      then_binary (then_buffer (build_str_info host p size) w) bytes size written

  unfoldable pub write_bin :
      Host
      → Option (Context W)
      → Option (List ℕ)
      → ℕ
      → Option ℕ
      → W
      → Code × Option (Context W) × Option ℕ × W
  write_bin host p bytes size written w =
      then_binary (then_buffer (build_bin_info host p size) w) bytes size written

  unfoldable pub write_ext :
      Host
      → Option (Context W)
      → Option (List ℕ)
      → ℕ
      → ℕ
      → Option ℕ
      → W
      → Code × Option (Context W) × Option ℕ × W
  write_ext host p bytes size type written w =
      then_binary (then_buffer (build_ext_info host p size type) w) bytes size written

  unfoldable pub write_array : Host → Option (Context W) → ℕ → W → Code × Option (Context W) × W
  write_array host p count w = then_buffer (build_array host p count) w

  unfoldable pub write_map : Host → Option (Context W) → ℕ → W → Code × Option (Context W) × W
  write_map host p count w = then_buffer (build_map host p count) w
