-- ===== src/Mpack/Writer/Builds/Numbers.antt =====
-- The `mpack_build_*` procedures for numbers keep the invariant.
use apilib.Base.{◌%◌, ℕ, Option, ◌∷◌, []}
use apilib.Base.{arith}
use apilib.Base.Int.{ℤ, to_word}
use apilib.Mpack.Format
use apilib.Base.Memory.{Host}
use apilib.Mpack.Swap.{swap16, swap32, swap64}
use apilib.Mpack.Writer.{Context}
use apilib.Mpack.Writer.Int.{build_int_from_int08, build_int_from_int16, build_int_from_int32}
use apilib.Mpack.Writer.Int.{build_int_from_int64, build_int_from_uint08, build_int_from_uint16}
use apilib.Mpack.Writer.Int.{build_int_from_uint32, build_int_from_uint64}
use apilib.Mpack.Writer.Invariant.{Valid}
use apilib.Mpack.Writer.Object.{build_float_as_float32}
use apilib.Mpack.Writer.Object.{build_float_as_float64}
use apilib.Mpack.Writer.Builds.Parts.{
  swap16-IsExchange, swap32-IsExchange, swap64-IsExchange, put-Keeps, guarded-Valid, number-Keeps,
}

module _ {W : Type 0} where
  pub build_int08-Valid :
      (host : Host) (p : Option (Context W)) (z : ℤ) → Valid p → Valid (build_int_from_int08 p z).1
  unfolding build_int_from_int08
  build_int08-Valid host p z v = guarded-Valid p _ v λ m k. ground (
    arith,
    put-Keeps m (to_word 8 z ∷ []) k (omega arith),
    put-Keeps m (Format.int8 ∷ to_word 8 z ∷ []) k (omega arith),
  )

  pub build_int16-Valid :
      (host : Host) (p : Option (Context W)) (z : ℤ)
      → Valid p
      → Valid (build_int_from_int16 host p z).1
  unfolding build_int_from_int16
  build_int16-Valid host p z v = guarded-Valid p _ v λ m k. ground (
    arith,
    put-Keeps m (to_word 8 z ∷ []) k (omega arith),
    put-Keeps m (Format.int8 ∷ to_word 8 z ∷ []) k (omega arith),
    number-Keeps swap16 Format.int16 2 (to_word 16 z) host m swap16-IsExchange (omega arith) k,
  )

  pub build_int32-Valid :
      (host : Host) (p : Option (Context W)) (z : ℤ)
      → Valid p
      → Valid (build_int_from_int32 host p z).1
  unfolding build_int_from_int32
  build_int32-Valid host p z v = guarded-Valid p _ v λ m k. ground (
    arith,
    put-Keeps m (to_word 8 z ∷ []) k (omega arith),
    put-Keeps m (Format.int8 ∷ to_word 8 z ∷ []) k (omega arith),
    number-Keeps swap16 Format.int16 2 (to_word 16 z) host m swap16-IsExchange (omega arith) k,
    number-Keeps swap32 Format.int32 4 (to_word 32 z) host m swap32-IsExchange (omega arith) k,
  )

  pub build_int64-Valid :
      (host : Host) (p : Option (Context W)) (z : ℤ)
      → Valid p
      → Valid (build_int_from_int64 host p z).1
  unfolding build_int_from_int64
  build_int64-Valid host p z v = guarded-Valid p _ v λ m k. ground (
    arith,
    put-Keeps m (to_word 8 z ∷ []) k (omega arith),
    put-Keeps m (Format.int8 ∷ to_word 8 z ∷ []) k (omega arith),
    number-Keeps swap16 Format.int16 2 (to_word 16 z) host m swap16-IsExchange (omega arith) k,
    number-Keeps swap32 Format.int32 4 (to_word 32 z) host m swap32-IsExchange (omega arith) k,
    number-Keeps swap64 Format.int64 8 (to_word 64 z) host m swap64-IsExchange (omega arith) k,
  )

  pub build_uint08-Valid :
      (host : Host) (p : Option (Context W)) (x : ℕ) → Valid p → Valid (build_int_from_uint08 p x).1
  unfolding build_int_from_uint08
  build_uint08-Valid host p x v = guarded-Valid p _ v λ m k. ground (
    arith,
    put-Keeps m (x % 256 ∷ []) k (omega arith),
    put-Keeps m (Format.uint8 ∷ x % 256 ∷ []) k (omega arith),
  )

  pub build_uint16-Valid :
      (host : Host) (p : Option (Context W)) (x : ℕ)
      → Valid p
      → Valid (build_int_from_uint16 host p x).1
  unfolding build_int_from_uint16
  build_uint16-Valid host p x v = guarded-Valid p _ v λ m k. ground (
    arith,
    put-Keeps m (x % 256 ∷ []) k (omega arith),
    put-Keeps m (Format.uint8 ∷ x % 256 ∷ []) k (omega arith),
    number-Keeps swap16 Format.uint16 2 x host m swap16-IsExchange (omega arith) k,
  )

  pub build_uint32-Valid :
      (host : Host) (p : Option (Context W)) (x : ℕ)
      → Valid p
      → Valid (build_int_from_uint32 host p x).1
  unfolding build_int_from_uint32
  build_uint32-Valid host p x v = guarded-Valid p _ v λ m k. ground (
    arith,
    put-Keeps m (x % 256 ∷ []) k (omega arith),
    put-Keeps m (Format.uint8 ∷ x % 256 ∷ []) k (omega arith),
    number-Keeps swap16 Format.uint16 2 x host m swap16-IsExchange (omega arith) k,
    number-Keeps swap32 Format.uint32 4 x host m swap32-IsExchange (omega arith) k,
  )

  pub build_uint64-Valid :
      (host : Host) (p : Option (Context W)) (x : ℕ)
      → Valid p
      → Valid (build_int_from_uint64 host p x).1
  unfolding build_int_from_uint64
  build_uint64-Valid host p x v = guarded-Valid p _ v λ m k. ground (
    arith,
    put-Keeps m (x % 256 ∷ []) k (omega arith),
    put-Keeps m (Format.uint8 ∷ x % 256 ∷ []) k (omega arith),
    number-Keeps swap16 Format.uint16 2 x host m swap16-IsExchange (omega arith) k,
    number-Keeps swap32 Format.uint32 4 x host m swap32-IsExchange (omega arith) k,
    number-Keeps swap64 Format.uint64 8 x host m swap64-IsExchange (omega arith) k,
  )

  pub build_float32-Valid :
      (host : Host) (p : Option (Context W)) (x : ℕ)
      → Valid p
      → Valid (build_float_as_float32 host p x).1
  unfolding build_float_as_float32
  build_float32-Valid host p x v = guarded-Valid p _ v λ m k.
      ground
        (arith, number-Keeps swap32 Format.float32 4 x host m swap32-IsExchange (omega arith) k)

  pub build_float64-Valid :
      (host : Host) (p : Option (Context W)) (x : ℕ)
      → Valid p
      → Valid (build_float_as_float64 host p x).1
  unfolding build_float_as_float64
  build_float64-Valid host p x v = guarded-Valid p _ v λ m k.
      ground
        (arith, number-Keeps swap64 Format.float64 8 x host m swap64-IsExchange (omega arith) k)
