-- ===== src/Mpack/Writer/Int.antt =====
-- `mpack_build_int_from_*` of mpack/mpackwrite.cpp. A signed value is an integer and an unsigned
-- one a number; `host` is the byte order in which the machine keeps `temp`.
use apilib.Base.{ℕ, ◌%◌, ◌∷◌, [], Option, leb, if◌then◌else◌}
use apilib.Base.Int.{ℤ, pos, negsuc, between, to_word}
use apilib.Base.Memory.{Host, memory}
use apilib.Mpack.Code.{Code}
use apilib.Mpack.Format
use apilib.Mpack.Limits.{
  int08_min, int08_max, int16_min, int16_max, int32_min, int32_max, uint08_max, uint16_max,
  uint32_max,
}
use apilib.Mpack.Swap.{swap16, swap32, swap64}
use apilib.Mpack.Writer.{Context}
use apilib.Mpack.Writer.Guard.{guarded, put, put_number}

module _ {W : Type 0} where
  unfoldable pub build_int_from_int08 : Option (Context W) → ℤ → Code × Option (Context W)
  build_int_from_int08 p z = guarded p λ m.
      if between (negsuc 31) (pos 127) z
      then put (to_word 8 z ∷ []) m
      else put (Format.int8 ∷ to_word 8 z ∷ []) m

  unfoldable pub build_int_from_int16 : Host → Option (Context W) → ℤ → Code × Option (Context W)
  build_int_from_int16 host p z = guarded p λ m.
      if between (negsuc 31) (pos 127) z
      then put (to_word 8 z ∷ []) m
      else if between int08_min int08_max z
      then put (Format.int8 ∷ to_word 8 z ∷ []) m
      else put_number swap16 Format.int16 (memory host 2 (to_word 16 z)) m

  unfoldable pub build_int_from_int32 : Host → Option (Context W) → ℤ → Code × Option (Context W)
  build_int_from_int32 host p z = guarded p λ m.
      if between (negsuc 31) (pos 127) z
      then put (to_word 8 z ∷ []) m
      else if between int08_min int08_max z
      then put (Format.int8 ∷ to_word 8 z ∷ []) m
      else if between int16_min int16_max z
      then put_number swap16 Format.int16 (memory host 2 (to_word 16 z)) m
      else put_number swap32 Format.int32 (memory host 4 (to_word 32 z)) m

  unfoldable pub build_int_from_int64 : Host → Option (Context W) → ℤ → Code × Option (Context W)
  build_int_from_int64 host p z = guarded p λ m.
      if between (negsuc 31) (pos 127) z
      then put (to_word 8 z ∷ []) m
      else if between int08_min int08_max z
      then put (Format.int8 ∷ to_word 8 z ∷ []) m
      else if between int16_min int16_max z
      then put_number swap16 Format.int16 (memory host 2 (to_word 16 z)) m
      else if between int32_min int32_max z
      then put_number swap32 Format.int32 (memory host 4 (to_word 32 z)) m
      else put_number swap64 Format.int64 (memory host 8 (to_word 64 z)) m

  unfoldable pub build_int_from_uint08 : Option (Context W) → ℕ → Code × Option (Context W)
  build_int_from_uint08 p x =
      guarded p λ m. if leb x 127 then put (x % 256 ∷ []) m else put (Format.uint8 ∷ x % 256 ∷ []) m

  unfoldable pub build_int_from_uint16 : Host → Option (Context W) → ℕ → Code × Option (Context W)
  build_int_from_uint16 host p x = guarded p λ m.
      if leb x 127
      then put (x % 256 ∷ []) m
      else if leb x uint08_max
      then put (Format.uint8 ∷ x % 256 ∷ []) m
      else put_number swap16 Format.uint16 (memory host 2 x) m

  unfoldable pub build_int_from_uint32 : Host → Option (Context W) → ℕ → Code × Option (Context W)
  build_int_from_uint32 host p x = guarded p λ m.
      if leb x 127
      then put (x % 256 ∷ []) m
      else if leb x uint08_max
      then put (Format.uint8 ∷ x % 256 ∷ []) m
      else if leb x uint16_max
      then put_number swap16 Format.uint16 (memory host 2 x) m
      else put_number swap32 Format.uint32 (memory host 4 x) m

  unfoldable pub build_int_from_uint64 : Host → Option (Context W) → ℕ → Code × Option (Context W)
  build_int_from_uint64 host p x = guarded p λ m.
      if leb x 127
      then put (x % 256 ∷ []) m
      else if leb x uint08_max
      then put (Format.uint8 ∷ x % 256 ∷ []) m
      else if leb x uint16_max
      then put_number swap16 Format.uint16 (memory host 2 x) m
      else if leb x uint32_max
      then put_number swap32 Format.uint32 (memory host 4 x) m
      else put_number swap64 Format.uint64 (memory host 8 x) m
