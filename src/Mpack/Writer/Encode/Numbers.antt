-- ===== src/Mpack/Writer/Encode/Numbers.antt =====
-- What the `mpack_build_*` procedures for numbers leave in the buffer.
use apilib.Base.{ℕ, ◌^◌, ◌<◌, ◌≡◌, true, some, ◌∷◌, arith}
use apilib.Base.Int.{ℤ, between, to_word}
use apilib.Base.Memory.{Host, big_bytes}
use apilib.Mpack.Code.{ok}
use apilib.Mpack.Limits.{int08_min, int08_max, int16_min, int16_max, int32_min, int32_max}
use apilib.Mpack.Limits.{int64_min, int64_max}
use apilib.Mpack.Swap.{IsNative}
use apilib.Mpack.Writer.{Context, build_buffer}
use apilib.Mpack.Writer.Guard.{put}
use apilib.Mpack.Writer.Header.{loaded_header, int_header, uint_header}
use apilib.Mpack.Writer.Int.{build_int_from_int08, build_int_from_int16, build_int_from_int32}
use apilib.Mpack.Writer.Int.{build_int_from_int64, build_int_from_uint08, build_int_from_uint16}
use apilib.Mpack.Writer.Int.{build_int_from_uint32, build_int_from_uint64}
use apilib.Mpack.Writer.Object.{build_float_as_float32}
use apilib.Mpack.Writer.Object.{build_float_as_float64}
use apilib.Mpack.Writer.Encode.Digits.{swapped16, swapped32, swapped64}

module _ {W : Type 0} where
  pub build-int08 :
      (host : Host) (m : Context W) (z : ℤ)
      → m.status ≡ build_buffer
      → IsNative m.endian host
      → between int08_min int08_max z ≡ true
      → build_int_from_int08 (some m) z ≡ (ok, some (loaded_header (int_header z) m))
  unfolding build_int_from_int08 int_header
  build-int08 host m z s e h = ground arith

  pub build-int16 :
      (host : Host) (m : Context W) (z : ℤ)
      → m.status ≡ build_buffer
      → IsNative m.endian host
      → between int16_min int16_max z ≡ true
      → build_int_from_int16 host (some m) z ≡ (ok, some (loaded_header (int_header z) m))
  unfolding build_int_from_int16 int_header
  build-int16 host m z s e h =
      ground (arith, swapped16 host (to_word 16 z) m (λ digits. put (0xd1 ∷ digits)) e)

  pub build-int32 :
      (host : Host) (m : Context W) (z : ℤ)
      → m.status ≡ build_buffer
      → IsNative m.endian host
      → between int32_min int32_max z ≡ true
      → build_int_from_int32 host (some m) z ≡ (ok, some (loaded_header (int_header z) m))
  unfolding build_int_from_int32 int_header
  build-int32 host m z s e h = ground (
    arith,
    swapped16 host (to_word 16 z) m (λ digits. put (0xd1 ∷ digits)) e,
    swapped32 host (to_word 32 z) m (λ digits. put (0xd2 ∷ digits)) e,
  )

  pub build-int64 :
      (host : Host) (m : Context W) (z : ℤ)
      → m.status ≡ build_buffer
      → IsNative m.endian host
      → between int64_min int64_max z ≡ true
      → build_int_from_int64 host (some m) z ≡ (ok, some (loaded_header (int_header z) m))
  unfolding build_int_from_int64 int_header
  build-int64 host m z s e h = ground (
    arith,
    swapped16 host (to_word 16 z) m (λ digits. put (0xd1 ∷ digits)) e,
    swapped32 host (to_word 32 z) m (λ digits. put (0xd2 ∷ digits)) e,
    swapped64 host (to_word 64 z) m (λ digits. put (0xd3 ∷ digits)) e,
  )

  pub build-uint08 :
      (host : Host) (m : Context W) (x : ℕ)
      → m.status ≡ build_buffer
      → IsNative m.endian host
      → x < 2 ^ 8
      → build_int_from_uint08 (some m) x ≡ (ok, some (loaded_header (uint_header x) m))
  unfolding build_int_from_uint08 uint_header
  build-uint08 host m x s e h = ground arith

  pub build-uint16 :
      (host : Host) (m : Context W) (x : ℕ)
      → m.status ≡ build_buffer
      → IsNative m.endian host
      → x < 2 ^ 16
      → build_int_from_uint16 host (some m) x ≡ (ok, some (loaded_header (uint_header x) m))
  unfolding build_int_from_uint16 uint_header
  build-uint16 host m x s e h = ground (arith, swapped16 host x m (λ digits. put (0xcd ∷ digits)) e)

  pub build-uint32 :
      (host : Host) (m : Context W) (x : ℕ)
      → m.status ≡ build_buffer
      → IsNative m.endian host
      → x < 2 ^ 32
      → build_int_from_uint32 host (some m) x ≡ (ok, some (loaded_header (uint_header x) m))
  unfolding build_int_from_uint32 uint_header
  build-uint32 host m x s e h = ground (
    arith,
    swapped16 host x m (λ digits. put (0xcd ∷ digits)) e,
    swapped32 host x m (λ digits. put (0xce ∷ digits)) e,
  )

  pub build-uint64 :
      (host : Host) (m : Context W) (x : ℕ)
      → m.status ≡ build_buffer
      → IsNative m.endian host
      → x < 2 ^ 64
      → build_int_from_uint64 host (some m) x ≡ (ok, some (loaded_header (uint_header x) m))
  unfolding build_int_from_uint64 uint_header
  build-uint64 host m x s e h = ground (
    arith,
    swapped16 host x m (λ digits. put (0xcd ∷ digits)) e,
    swapped32 host x m (λ digits. put (0xce ∷ digits)) e,
    swapped64 host x m (λ digits. put (0xcf ∷ digits)) e,
  )

  pub build-float32 :
      (host : Host) (m : Context W) (x : ℕ)
      → m.status ≡ build_buffer
      → IsNative m.endian host
      → build_float_as_float32 host (some m) x ≡ (ok, some (loaded_header (0xca ∷ big_bytes 4 x) m))
  unfolding build_float_as_float32
  build-float32 host m x s e = ground (arith, swapped32 host x m (λ digits. put (0xca ∷ digits)) e)

  pub build-float64 :
      (host : Host) (m : Context W) (x : ℕ)
      → m.status ≡ build_buffer
      → IsNative m.endian host
      → build_float_as_float64 host (some m) x ≡ (ok, some (loaded_header (0xcb ∷ big_bytes 8 x) m))
  unfolding build_float_as_float64
  build-float64 host m x s e = ground (arith, swapped64 host x m (λ digits. put (0xcb ∷ digits)) e)
