-- ===== src/Mpack/Writer/Wasteful.antt =====
-- mpack/mpackwrite.cpp: the objects for which the header that is built is not as short as can be.
use apilib.Base.{ℕ, ◌+◌, ◌-◌, ◌<◌, ◌≡◌, Bool, true, false, ◌||◌, List, ◌∷◌, [], length}
use apilib.Base.{leb, arith, ◌&&◌, inl, inr, Bool-cases}
use apilib.Base.Memory.{big_bytes}
use apilib.Base.Int.{ℤ, pos, negsuc}
use apilib.Base.{some}
use apilib.Base.Memory.{Host}
use apilib.Mpack.Code.{ok}
use apilib.Mpack.Swap.{IsNative}
use apilib.Mpack.Writer.{Context, build_buffer}
use apilib.Mpack.Writer.Encode.{build_loads}
use apilib.Mpack.Writer.Header.{build, loaded}
use apilib.Mpack.Writer.Standard.{loaded-fields}
use apilib.Mpack.Wire.{Item, Encodes}
use apilib.Mpack.Writer.Header.{Build, InRange, item, header, int_header, str_header}

-- The signed numbers that an unsigned form has in fewer bytes than the signed one, among those
-- above 127.
abbrev pub wasteful_number : ℤ → Bool
wasteful_number (pos n) =
    (leb 128 n && leb n 255)
    || (leb 32768 n && leb n 65535)
    || (leb 2147483648 n && leb n 4294967295)
wasteful_number (negsuc n) = false

abbrev pub wasteful : Build → Bool
wasteful (Build.int16 z) = wasteful_number z
wasteful (Build.int32 z) = wasteful_number z
wasteful (Build.int64 z) = wasteful_number z
wasteful (Build.str n) = leb 16 n && leb n 31
wasteful _ = false

-- A header of the format that is shorter than another one.
abbrev Shorter : List ℕ → Item → Type 0
Shorter long it = (bs : List ℕ) × Encodes bs it × (length bs < length long)

int_wastes : (z : ℤ) → wasteful_number z ≡ true → Shorter (int_header z) (Item.int z)
unfolding int_header
int_wastes (negsuc n) h = absurd (ground (arith, h))
int_wastes (pos n) h = elim (Bool-cases (leb n 255)) [
  | inl byte ↦
      (0xcc ∷ big_bytes 1 n, Encodes.uint8 n (ground (arith, byte)), ground (arith, h, byte))
  | inr above ↦ elim (Bool-cases (leb n 65535)) [
    | inl short ↦ (
      0xcd ∷ big_bytes 2 n,
      Encodes.uint16 n (ground (arith, short)),
      ground (arith, h, above, short),
    )
    | inr large ↦ (
      0xce ∷ big_bytes 4 n,
      Encodes.uint32 n (ground (arith, h, large)),
      ground (arith, h, large),
    )
  ]
]

header_wastes : (b : Build) → wasteful b ≡ true → Shorter (header b) (item b)
unfolding header str_header
header_wastes (Build.int16 z) h = int_wastes z h
header_wastes (Build.int32 z) h = int_wastes z h
header_wastes (Build.int64 z) h = int_wastes z h
header_wastes (Build.str n) h =
    ((0xa0 + n) ∷ [], Encodes.fixstr n (ground (arith, h)), ground (arith, h))
header_wastes b h = absurd (ground (arith, h))

module _ {W : Type 0} where
  -- For every string of sixteen to thirty-one bytes, and every signed number from 128 to 255,
  -- from 32768 to 65535 or from 2^31 to 2^32 - 1, the writer wastes bytes: in a context that is
  -- between two objects and whose byte order is the machine's, `mpack_build_*` returns `ok` with
  -- a header of more bytes to write than one that the MessagePack format has for the same object.
  pub build_wastes :
      (host : Host) (b : Build) (m : Context W)
      → m.status ≡ build_buffer
      → IsNative m.endian host
      → InRange b
      → wasteful b ≡ true
      → (m' : Context W) × (bs : List ℕ) × (build host b (some m) ≡ (ok, some m'))
        × Encodes bs (item b)
        × (length bs < m'.buffer_amount - m'.buffer_offset)
  build_wastes host b m s e r h =
      let (status, offset, amount, bytes) = loaded-fields b m in
      let (bs, shorter, less) = header_wastes b h in
      (
        loaded b m,
        bs,
        build_loads host b m s e r,
        shorter,
        rw (offset, amount) (omega (arith, less)),
      )
