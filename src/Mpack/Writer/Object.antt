-- ===== src/Mpack/Writer/Object.antt =====
-- `mpack_build_*` of mpack/mpackwrite.cpp for all that is no integer. A float is its bit pattern.
use apilib.Base.{
  ℕ, ◌%◌, Bool, true, false, ◌∷◌, [], ◌++◌, Option, leb, ◌==◌, if◌then◌else◌, bit_and, bit_or,
}
use apilib.Base.Memory.{Host, memory}
use apilib.Mpack.Code.{Code, error_internal}
use apilib.Mpack.Format
use apilib.Mpack.Limits.{uint08_max, uint16_max, uint32_max}
use apilib.Mpack.Swap.{swap16, swap32, swap64}
use apilib.Mpack.Writer.{Context}
use apilib.Mpack.Writer.Guard.{guarded, put, put_binary, put_number, swapped}

module _ {W : Type 0} where
  unfoldable pub build_nil : Option (Context W) → Code × Option (Context W)
  build_nil p = guarded p (put (Format.nil ∷ []))

  unfoldable pub build_bool : Option (Context W) → Bool → Code × Option (Context W)
  build_bool p true = guarded p (put (Format.bool_true ∷ []))
  build_bool p false = guarded p (put (Format.bool_false ∷ []))

  unfoldable pub build_float_as_float32 : Host → Option (Context W) → ℕ → Code × Option (Context W)
  build_float_as_float32 host p x = guarded p (put_number swap32 Format.float32 (memory host 4 x))

  unfoldable pub build_float_as_float64 : Host → Option (Context W) → ℕ → Code × Option (Context W)
  build_float_as_float64 host p x = guarded p (put_number swap64 Format.float64 (memory host 8 x))

  unfoldable pub build_str_info : Host → Option (Context W) → ℕ → Code × Option (Context W)
  build_str_info host p size = guarded p λ m.
      if leb size 0x0f
      then put_binary (bit_or Format.fixstr (bit_and size 0x0f) ∷ []) size m
      else if leb size uint08_max
      then put_binary (Format.str8 ∷ size % 256 ∷ []) size m
      else if leb size uint16_max
      then swapped swap16 (memory host 2 size) m (λ digits. put_binary (Format.str16 ∷ digits) size)
      else if leb size uint32_max
      then swapped swap32 (memory host 4 size) m (λ digits. put_binary (Format.str32 ∷ digits) size)
      else (error_internal, m)

  unfoldable pub build_bin_info : Host → Option (Context W) → ℕ → Code × Option (Context W)
  build_bin_info host p size = guarded p λ m.
      if leb size uint08_max
      then put_binary (Format.bin8 ∷ size % 256 ∷ []) size m
      else if leb size uint16_max
      then swapped swap16 (memory host 2 size) m (λ digits. put_binary (Format.bin16 ∷ digits) size)
      else if leb size uint32_max
      then swapped swap32 (memory host 4 size) m (λ digits. put_binary (Format.bin32 ∷ digits) size)
      else (error_internal, m)

  unfoldable pub build_ext_info : Host → Option (Context W) → ℕ → ℕ → Code × Option (Context W)
  build_ext_info host p size type = guarded p λ m.
      if size == 1
      then put_binary (Format.fixext1 ∷ type ∷ []) size m
      else if size == 2
      then put_binary (Format.fixext2 ∷ type ∷ []) size m
      else if size == 4
      then put_binary (Format.fixext4 ∷ type ∷ []) size m
      else if size == 8
      then put_binary (Format.fixext8 ∷ type ∷ []) size m
      else if size == 16
      then put_binary (Format.fixext16 ∷ type ∷ []) size m
      else if leb size uint08_max
      then put_binary (Format.ext8 ∷ size % 256 ∷ type ∷ []) size m
      else if leb size uint16_max
      then swapped swap16 (memory host 2 size) m
          (λ digits. put_binary (Format.ext16 ∷ digits ++ type ∷ []) size)
      else if leb size uint32_max
      then swapped swap32 (memory host 4 size) m
          (λ digits. put_binary (Format.ext32 ∷ digits ++ type ∷ []) size)
      else (error_internal, m)

  unfoldable pub build_array : Host → Option (Context W) → ℕ → Code × Option (Context W)
  build_array host p count = guarded p λ m.
      if leb count 0x0f
      then put (bit_or Format.fixarray (bit_and count 0x0f) ∷ []) m
      else if leb count uint16_max
      then put_number swap16 Format.array16 (memory host 2 count) m
      else if leb count uint32_max
      then put_number swap32 Format.array32 (memory host 4 count) m
      else (error_internal, m)

  unfoldable pub build_map : Host → Option (Context W) → ℕ → Code × Option (Context W)
  build_map host p count = guarded p λ m.
      if leb count 0x0f
      then put (bit_or Format.fixmap (bit_and count 0x0f) ∷ []) m
      else if leb count uint16_max
      then put_number swap16 Format.map16 (memory host 2 count) m
      else if leb count uint32_max
      then put_number swap32 Format.map32 (memory host 4 count) m
      else (error_internal, m)
