-- ===== src/Mpack/Writer/Builds.antt =====
-- Every `mpack_build_*` keeps the invariant, whatever the value and the declared byte order.
mod Parts
mod Numbers
use apilib.Base.{
  bit_and, bit_or, ◌%◌, ℕ, zero, suc, ◌+◌, ◌^◌, ◌≤◌, ◌<◌, ◌≡◌, refl, ap, ◌∙◌, Bool, true, false,
  Option, none, some, List, ◌∷◌, [], ◌++◌,
}
use apilib.Base.{
  get_or, set, length, length-append, length-overwrite, if◌then◌else◌, leb, arith, Bool-cases, inl,
  inr,
}
use apilib.Base.Int.{ℤ, to_word}
use apilib.Mpack.Format
use apilib.Base.Memory.{Host, memory, length-memory}
use apilib.Mpack.Code.{Code, error_internal, ok, unknown, big, little}
use apilib.Mpack.Swap.{Swap, exchange, swap16, swap32, swap64}
use apilib.Mpack.Writer.{Context, build_buffer, is_build}
use apilib.Mpack.Writer.Guard.{guarded, put, put_binary, put_number, swapped}
use apilib.Mpack.Writer.Header.{Build, build}
use apilib.Mpack.Writer.Int.{build_int_from_int08, build_int_from_int16, build_int_from_int32}
use apilib.Mpack.Writer.Int.{build_int_from_int64, build_int_from_uint08, build_int_from_uint16}
use apilib.Mpack.Writer.Int.{build_int_from_uint32, build_int_from_uint64}
use apilib.Mpack.Writer.Invariant.{IsValid, Valid}
use apilib.Mpack.Writer.Object.{build_nil, build_bool, build_float_as_float32}
use apilib.Mpack.Writer.Object.{build_float_as_float64, build_str_info, build_bin_info}
use apilib.Mpack.Writer.Object.{build_ext_info, build_array, build_map}
use apilib.Mpack.Writer.Builds.Parts.{
  swap16-IsExchange, swap32-IsExchange, swap64-IsExchange, fail, put-Keeps, put_binary-Keeps,
  guarded-Valid, number-Keeps, sized-Keeps, ext-Keeps,
}
use apilib.Mpack.Writer.Builds.Numbers.{
  build_int08-Valid, build_int16-Valid, build_int32-Valid, build_int64-Valid, build_uint08-Valid,
  build_uint16-Valid, build_uint32-Valid, build_uint64-Valid, build_float32-Valid,
  build_float64-Valid,
}

module _ {W : Type 0} where
  build_str-Valid :
      (host : Host) (p : Option (Context W)) (n : ℕ) → Valid p → Valid (build_str_info host p n).1
  unfolding build_str_info
  build_str-Valid host p n v = guarded-Valid p _ v λ m k. ground (
    arith,
    put_binary-Keeps m (bit_or Format.fixstr (bit_and n 0x0f) ∷ []) n k (omega arith),
    put_binary-Keeps m (Format.str8 ∷ n % 256 ∷ []) n k (omega arith),
    sized-Keeps swap16 Format.str16 2 n host m swap16-IsExchange (omega arith) k,
    sized-Keeps swap32 Format.str32 4 n host m swap32-IsExchange (omega arith) k,
    fail {c = error_internal} k,
  )

  build_bin-Valid :
      (host : Host) (p : Option (Context W)) (n : ℕ) → Valid p → Valid (build_bin_info host p n).1
  unfolding build_bin_info
  build_bin-Valid host p n v = guarded-Valid p _ v λ m k. ground (
    arith,
    put_binary-Keeps m (Format.bin8 ∷ n % 256 ∷ []) n k (omega arith),
    sized-Keeps swap16 Format.bin16 2 n host m swap16-IsExchange (omega arith) k,
    sized-Keeps swap32 Format.bin32 4 n host m swap32-IsExchange (omega arith) k,
    fail {c = error_internal} k,
  )

  build_ext-Valid :
      (host : Host) (p : Option (Context W)) (n t : ℕ)
      → Valid p
      → Valid (build_ext_info host p n t).1
  unfolding build_ext_info
  build_ext-Valid host p n t v = guarded-Valid p _ v λ m k. ground (
    arith,
    put_binary-Keeps m (Format.fixext1 ∷ t ∷ []) n k (omega arith),
    put_binary-Keeps m (Format.fixext2 ∷ t ∷ []) n k (omega arith),
    put_binary-Keeps m (Format.fixext4 ∷ t ∷ []) n k (omega arith),
    put_binary-Keeps m (Format.fixext8 ∷ t ∷ []) n k (omega arith),
    put_binary-Keeps m (Format.fixext16 ∷ t ∷ []) n k (omega arith),
    put_binary-Keeps m (Format.ext8 ∷ n % 256 ∷ t ∷ []) n k (omega arith),
    ext-Keeps swap16 Format.ext16 2 n t host m swap16-IsExchange (omega arith) k,
    ext-Keeps swap32 Format.ext32 4 n t host m swap32-IsExchange (omega arith) k,
    fail {c = error_internal} k,
  )

  build_array-Valid :
      (host : Host) (p : Option (Context W)) (n : ℕ) → Valid p → Valid (build_array host p n).1
  unfolding build_array
  build_array-Valid host p n v = guarded-Valid p _ v λ m k. ground (
    arith,
    put-Keeps m (bit_or Format.fixarray (bit_and n 0x0f) ∷ []) k (omega arith),
    number-Keeps swap16 Format.array16 2 n host m swap16-IsExchange (omega arith) k,
    number-Keeps swap32 Format.array32 4 n host m swap32-IsExchange (omega arith) k,
    fail {c = error_internal} k,
  )

  build_map-Valid :
      (host : Host) (p : Option (Context W)) (n : ℕ) → Valid p → Valid (build_map host p n).1
  unfolding build_map
  build_map-Valid host p n v = guarded-Valid p _ v λ m k. ground (
    arith,
    put-Keeps m (bit_or Format.fixmap (bit_and n 0x0f) ∷ []) k (omega arith),
    number-Keeps swap16 Format.map16 2 n host m swap16-IsExchange (omega arith) k,
    number-Keeps swap32 Format.map32 4 n host m swap32-IsExchange (omega arith) k,
    fail {c = error_internal} k,
  )

  -- Every `mpack_build_*` keeps the context valid, on every value and whatever its result: no
  -- assignment leaves the ten bytes of the buffer, and an error leaves the counters consistent.
  pub build-Valid :
      (host : Host) (b : Build) (p : Option (Context W)) → Valid p → Valid (build host b p).1
  unfolding build
  build-Valid host (Build.int08 z) p v = build_int08-Valid host p z v
  build-Valid host (Build.int16 z) p v = build_int16-Valid host p z v
  build-Valid host (Build.int32 z) p v = build_int32-Valid host p z v
  build-Valid host (Build.int64 z) p v = build_int64-Valid host p z v
  build-Valid host (Build.uint08 x) p v = build_uint08-Valid host p x v
  build-Valid host (Build.uint16 x) p v = build_uint16-Valid host p x v
  build-Valid host (Build.uint32 x) p v = build_uint32-Valid host p x v
  build-Valid host (Build.uint64 x) p v = build_uint64-Valid host p x v
  build-Valid host Build.nil p v =
      unfold build_nil in guarded-Valid p _ v λ m k. put-Keeps m (Format.nil ∷ []) k (omega arith)
  build-Valid host (Build.bool true) p v =
      unfold build_bool in
      guarded-Valid p _ v λ m k. put-Keeps m (Format.bool_true ∷ []) k (omega arith)
  build-Valid host (Build.bool false) p v =
      unfold build_bool in
      guarded-Valid p _ v λ m k. put-Keeps m (Format.bool_false ∷ []) k (omega arith)
  build-Valid host (Build.float32 x) p v = build_float32-Valid host p x v
  build-Valid host (Build.float64 x) p v = build_float64-Valid host p x v
  build-Valid host (Build.str n) p v = build_str-Valid host p n v
  build-Valid host (Build.bin n) p v = build_bin-Valid host p n v
  build-Valid host (Build.array n) p v = build_array-Valid host p n v
  build-Valid host (Build.map n) p v = build_map-Valid host p n v
  build-Valid host (Build.ext n t) p v = build_ext-Valid host p n t v
