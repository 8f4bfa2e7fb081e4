-- ===== src/Mpack/Writer/Encode.antt =====
-- Every `mpack_build_*` leaves the header of its object in the buffer, whatever the machine.
mod Digits
mod Numbers
mod Sizes
use apilib.Base.{ℕ, ◌+◌, ◌^◌, ◌<◌, ◌≡◌, refl, true, false, ◌&&◌, some, List, ◌∷◌, [], ◌++◌, arith}
use apilib.Base.{bit_and, bit_or, ◌==◌, passes_upto, passes_upto_line}
use apilib.Base.Int.{ℤ, between, to_word}
use apilib.Base.Memory.{Host, big_host, little_host, memory, big_bytes}
use apilib.Mpack.Code.{Code, ok}
use apilib.Mpack.Limits.{int08_min, int08_max, int16_min, int16_max, int32_min, int32_max}
use apilib.Mpack.Limits.{int64_min, int64_max}
use apilib.Mpack.Swap.{IsNative, swap16, swap32, swap64}
use apilib.Mpack.Writer.{Context, build_buffer}
use apilib.Mpack.Writer.Guard.{put, put_binary, swapped}
use apilib.Mpack.Writer.Header.{Build, int08, int16, int32, int64, uint08, uint16, uint32, uint64}
use apilib.Mpack.Writer.Header.{
  nil, bool, float32, float64, str, bin, array, map, ext, build, header,
}
use apilib.Mpack.Writer.Header.{
  loaded, InRange, loaded_header, loaded_sized, int_header, uint_header,
}
use apilib.Mpack.Writer.Header.{str_header, bin_header, array_header, map_header, ext_header}
use apilib.Mpack.Writer.Int.{build_int_from_int08, build_int_from_int16, build_int_from_int32}
use apilib.Mpack.Writer.Int.{build_int_from_int64, build_int_from_uint08, build_int_from_uint16}
use apilib.Mpack.Writer.Int.{build_int_from_uint32, build_int_from_uint64}
use apilib.Mpack.Writer.Object.{build_nil, build_bool, build_float_as_float32}
use apilib.Mpack.Writer.Object.{build_float_as_float64, build_str_info, build_bin_info}
use apilib.Mpack.Writer.Object.{build_ext_info, build_array, build_map}
use apilib.Mpack.Writer.Encode.Numbers.{
  build-int08, build-int16, build-int32, build-int64, build-uint08, build-uint16, build-uint32,
  build-uint64, build-float32, build-float64,
}
use apilib.Mpack.Writer.Encode.Sizes.{build-str, build-bin, build-array, build-map, build-ext}

module _ {W : Type 0} where
  -- Where the context is ready to build and declares the machine's byte order, every
  -- `mpack_build_*` succeeds on every value of its parameter's type, puts exactly the header of
  -- that value into the buffer, the same on a big-endian and on a little-endian machine, and
  -- changes nothing else but the counters that go with it.
  pub build_loads :
      (host : Host) (b : Build) (m : Context W)
      → m.status ≡ build_buffer
      → IsNative m.endian host
      → InRange b
      → build host b (some m) ≡ (ok, some (loaded b m))
  unfolding build header
  build_loads host (int08 z) m s e h = build-int08 host m z s e h
  build_loads host (int16 z) m s e h = build-int16 host m z s e h
  build_loads host (int32 z) m s e h = build-int32 host m z s e h
  build_loads host (int64 z) m s e h = build-int64 host m z s e h
  build_loads host (uint08 x) m s e h = build-uint08 host m x s e h
  build_loads host (uint16 x) m s e h = build-uint16 host m x s e h
  build_loads host (uint32 x) m s e h = build-uint32 host m x s e h
  build_loads host (uint64 x) m s e h = build-uint64 host m x s e h
  build_loads host nil m s e h = unfold build_nil in ground arith
  build_loads host (bool true) m s e h = unfold build_bool in ground arith
  build_loads host (bool false) m s e h = unfold build_bool in ground arith
  build_loads host (float32 x) m s e h = build-float32 host m x s e
  build_loads host (float64 x) m s e h = build-float64 host m x s e
  build_loads host (str n) m s e h = build-str host m n s e h
  build_loads host (bin n) m s e h = build-bin host m n s e h
  build_loads host (array n) m s e h = build-array host m n s e h
  build_loads host (map n) m s e h = build-map host m n s e h
  build_loads host (ext n t) m s e h = build-ext host m n t s e h.0
