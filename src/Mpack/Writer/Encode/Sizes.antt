-- ===== src/Mpack/Writer/Encode/Sizes.antt =====
-- What the `mpack_build_*` procedures for strings, binary data, extensions, arrays and maps leave
-- in the buffer.
use apilib.Base.{ℕ, ◌^◌, ◌<◌, ◌≡◌, some, ◌∷◌, [], ◌++◌, arith}
use apilib.Base.Memory.{Host}
use apilib.Mpack.Code.{ok}
use apilib.Mpack.Swap.{IsNative}
use apilib.Mpack.Writer.{Context, build_buffer}
use apilib.Mpack.Writer.Guard.{put, put_binary}
use apilib.Mpack.Writer.Header.{loaded_header, loaded_sized}
use apilib.Mpack.Writer.Header.{str_header, bin_header, array_header, map_header, ext_header}
use apilib.Mpack.Writer.Object.{build_str_info, build_bin_info}
use apilib.Mpack.Writer.Object.{build_ext_info, build_array, build_map}
use apilib.Mpack.Writer.Encode.Digits.{short_str, short_array, short_map, swapped16, swapped32}

module _ {W : Type 0} where
  pub build-str :
      (host : Host) (m : Context W) (n : ℕ)
      → m.status ≡ build_buffer
      → IsNative m.endian host
      → n < 2 ^ 32
      → build_str_info host (some m) n ≡ (ok, some (loaded_sized (str_header n) n m))
  unfolding build_str_info str_header
  build-str host m n s e h = ground (
    arith,
    swapped16 host n m (λ digits. put_binary (0xda ∷ digits) n) e,
    swapped32 host n m (λ digits. put_binary (0xdb ∷ digits) n) e,
    short_str n,
  )

  pub build-bin :
      (host : Host) (m : Context W) (n : ℕ)
      → m.status ≡ build_buffer
      → IsNative m.endian host
      → n < 2 ^ 32
      → build_bin_info host (some m) n ≡ (ok, some (loaded_sized (bin_header n) n m))
  unfolding build_bin_info bin_header
  build-bin host m n s e h = ground (
    arith,
    swapped16 host n m (λ digits. put_binary (0xc5 ∷ digits) n) e,
    swapped32 host n m (λ digits. put_binary (0xc6 ∷ digits) n) e,
  )

  pub build-array :
      (host : Host) (m : Context W) (n : ℕ)
      → m.status ≡ build_buffer
      → IsNative m.endian host
      → n < 2 ^ 32
      → build_array host (some m) n ≡ (ok, some (loaded_header (array_header n) m))
  unfolding build_array array_header
  build-array host m n s e h = ground (
    arith,
    swapped16 host n m (λ digits. put (0xdc ∷ digits)) e,
    swapped32 host n m (λ digits. put (0xdd ∷ digits)) e,
    short_array n,
  )

  pub build-map :
      (host : Host) (m : Context W) (n : ℕ)
      → m.status ≡ build_buffer
      → IsNative m.endian host
      → n < 2 ^ 32
      → build_map host (some m) n ≡ (ok, some (loaded_header (map_header n) m))
  unfolding build_map map_header
  build-map host m n s e h = ground (
    arith,
    swapped16 host n m (λ digits. put (0xde ∷ digits)) e,
    swapped32 host n m (λ digits. put (0xdf ∷ digits)) e,
    short_map n,
  )

  pub build-ext :
      (host : Host) (m : Context W) (n t : ℕ)
      → m.status ≡ build_buffer
      → IsNative m.endian host
      → n < 2 ^ 32
      → build_ext_info host (some m) n t ≡ (ok, some (loaded_sized (ext_header n t) n m))
  unfolding build_ext_info ext_header
  build-ext host m n t s e h = ground (
    arith,
    swapped16 host n m (λ digits. put_binary (0xc8 ∷ digits ++ t ∷ []) n) e,
    swapped32 host n m (λ digits. put_binary (0xc9 ∷ digits ++ t ∷ []) n) e,
  )
