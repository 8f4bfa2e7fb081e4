-- ===== src/Mpack/Writer/Standard.antt =====
-- The headers that the writer chooses are headers of the MessagePack format.
use apilib.Base.{ℕ, ◌-◌, ◌^◌, ◌≤◌, ◌<◌, ◌≡◌, refl, ap, true, false, inl, inr, List, ◌∷◌, [], arith}
use apilib.Base.{Bool-cases, leb, ◌==◌, length}
use apilib.Base.Int.{ℤ, pos, negsuc, between, to_word}
use apilib.Mpack.Limits.{int08_min, int08_max, int16_min, int16_max, int32_min, int32_max}
use apilib.Mpack.Limits.{
  int64_min, int64_max, narrow08_lem, narrow16_lem, narrow32_lem, narrow64_lem,
}
use apilib.Mpack.Limits.{int08-int64, int16-int64, int32-int64}
use apilib.Mpack.Limits.{to_word08-lt, to_word16-lt, to_word32-lt, to_word64-lt}
use apilib.Mpack.Wire.{Item, Encodes}
use apilib.Mpack.Writer.Header.{Build, InRange, item, header, int_header, uint_header, str_header}
use apilib.Mpack.Writer.Header.{bin_header, array_header, map_header, ext_header}
use apilib.Base.{some, overwrite, take-overwrite}
use apilib.Base.Memory.{Host}
use apilib.Mpack.Code.{ok}
use apilib.Mpack.Swap.{IsNative}
use apilib.Mpack.Writer.{Context, build_buffer, write_buffer}
use apilib.Mpack.Writer.Builds.{build-Valid}
use apilib.Mpack.Writer.Encode.{build_loads}
use apilib.Mpack.Writer.Header.{build, loaded}
use apilib.Mpack.Writer.Invariant.{IsValid}
use apilib.Mpack.Writer.Sink.{pending}
use mathlib.Core.Path.{subst₂}

-- A header of an equal object, written as an equal list.
pub Encodes-eq :
    {bs bs' : List ℕ} {it it' : Item} → bs ≡ bs' → it ≡ it' → Encodes bs it → Encodes bs' it'
Encodes-eq p q h = subst₂ Encodes p q h

fixint-Encodes :
    (z : ℤ) → between (negsuc 31) (pos 127) z ≡ true → Encodes (to_word 8 z ∷ []) (Item.int z)
fixint-Encodes (pos n) h = Encodes-eq (ground arith) refl (Encodes.fixint_positive n (ground arith))
fixint-Encodes (negsuc n) h =
    Encodes-eq (ground arith) (ground arith) (Encodes.fixint_negative (31 - n) (ground arith))

int_header-Encodes :
    (z : ℤ) → between int64_min int64_max z ≡ true → Encodes (int_header z) (Item.int z)
unfolding int_header
int_header-Encodes z h = elim (Bool-cases (between (negsuc 31) (pos 127) z)) [
  | inl a ↦ rw a (fixint-Encodes z a)
  | inr a ↦ rw a (elim (Bool-cases (between int08_min int08_max z)) [
    | inl b ↦
        rw b (Encodes-eq refl (ap Item.int (narrow08_lem z b)) (Encodes.int8 _ (to_word08-lt z)))
    | inr b ↦ rw b (elim (Bool-cases (between int16_min int16_max z)) [
      | inl c ↦
          rw c (Encodes-eq refl (ap Item.int (narrow16_lem z c)) (Encodes.int16 _ (to_word16-lt z)))
      | inr c ↦ rw c (elim (Bool-cases (between int32_min int32_max z)) [
        | inl d ↦
            rw d
              (Encodes-eq refl (ap Item.int (narrow32_lem z d)) (Encodes.int32 _ (to_word32-lt z)))
        | inr d ↦
            rw d
              (Encodes-eq refl (ap Item.int (narrow64_lem z h)) (Encodes.int64 _ (to_word64-lt z)))
      ])
    ])
  ])
]

uint_header-Encodes : (x : ℕ) → x < 2 ^ 64 → Encodes (uint_header x) (Item.int (pos x))
unfolding uint_header
uint_header-Encodes x h = elim (Bool-cases (leb x 127)) [
  | inl a ↦ rw a (Encodes.fixint_positive x (ground arith))
  | inr a ↦ rw a (elim (Bool-cases (leb x 255)) [
    | inl b ↦ rw b (Encodes.uint8 x (ground arith))
    | inr b ↦ rw b (elim (Bool-cases (leb x 65535)) [
      | inl c ↦ rw c (Encodes.uint16 x (ground arith))
      | inr c ↦ rw c (elim (Bool-cases (leb x 4294967295)) [
        | inl d ↦ rw d (Encodes.uint32 x (ground arith))
        | inr d ↦ rw d (Encodes.uint64 x h)
      ])
    ])
  ])
]

str_header-Encodes : (n : ℕ) → n < 2 ^ 32 → Encodes (str_header n) (Item.str n)
unfolding str_header
str_header-Encodes n h = elim (Bool-cases (leb n 15)) [
  | inl a ↦ rw a (Encodes.fixstr n (ground arith))
  | inr a ↦ rw a (elim (Bool-cases (leb n 255)) [
    | inl b ↦ rw b (Encodes.str8 n (ground arith))
    | inr b ↦ rw b (elim (Bool-cases (leb n 65535)) [
      | inl c ↦ rw c (Encodes.str16 n (ground arith))
      | inr c ↦ rw c (Encodes.str32 n h)
    ])
  ])
]

bin_header-Encodes : (n : ℕ) → n < 2 ^ 32 → Encodes (bin_header n) (Item.bin n)
unfolding bin_header
bin_header-Encodes n h = elim (Bool-cases (leb n 255)) [
  | inl a ↦ rw a (Encodes.bin8 n (ground arith))
  | inr a ↦ rw a (elim (Bool-cases (leb n 65535)) [
    | inl b ↦ rw b (Encodes.bin16 n (ground arith))
    | inr b ↦ rw b (Encodes.bin32 n h)
  ])
]

array_header-Encodes : (n : ℕ) → n < 2 ^ 32 → Encodes (array_header n) (Item.array n)
unfolding array_header
array_header-Encodes n h = elim (Bool-cases (leb n 15)) [
  | inl a ↦ rw a (Encodes.fixarray n (ground arith))
  | inr a ↦ rw a (elim (Bool-cases (leb n 65535)) [
    | inl b ↦ rw b (Encodes.array16 n (ground arith))
    | inr b ↦ rw b (Encodes.array32 n h)
  ])
]

map_header-Encodes : (n : ℕ) → n < 2 ^ 32 → Encodes (map_header n) (Item.map n)
unfolding map_header
map_header-Encodes n h = elim (Bool-cases (leb n 15)) [
  | inl a ↦ rw a (Encodes.fixmap n (ground arith))
  | inr a ↦ rw a (elim (Bool-cases (leb n 65535)) [
    | inl b ↦ rw b (Encodes.map16 n (ground arith))
    | inr b ↦ rw b (Encodes.map32 n h)
  ])
]

ext_header-Encodes : (n t : ℕ) → n < 2 ^ 32 → t < 256 → Encodes (ext_header n t) (Item.ext n t)
unfolding ext_header
ext_header-Encodes n t h ht = elim (Bool-cases (n == 1)) [
  | inl a ↦ rw a (Encodes-eq refl (ground arith) (Encodes.fixext1 t ht))
  | inr a ↦ rw a (elim (Bool-cases (n == 2)) [
    | inl b ↦ rw b (Encodes-eq refl (ground arith) (Encodes.fixext2 t ht))
    | inr b ↦ rw b (elim (Bool-cases (n == 4)) [
      | inl c ↦ rw c (Encodes-eq refl (ground arith) (Encodes.fixext4 t ht))
      | inr c ↦ rw c (elim (Bool-cases (n == 8)) [
        | inl d ↦ rw d (Encodes-eq refl (ground arith) (Encodes.fixext8 t ht))
        | inr d ↦ rw d (elim (Bool-cases (n == 16)) [
          | inl e ↦ rw e (Encodes-eq refl (ground arith) (Encodes.fixext16 t ht))
          | inr e ↦ rw e (elim (Bool-cases (leb n 255)) [
            | inl f ↦ rw f (Encodes.ext8 n t (ground arith) ht)
            | inr f ↦ rw f (elim (Bool-cases (leb n 65535)) [
              | inl g ↦ rw g (Encodes.ext16 n t (ground arith) ht)
              | inr g ↦ rw g (Encodes.ext32 n t h ht)
            ])
          ])
        ])
      ])
    ])
  ])
]

-- What the builds leave is a header of the object that they name.
pub header-Encodes : (b : Build) → InRange b → Encodes (header b) (item b)
unfolding header
header-Encodes (Build.int08 z) h = int_header-Encodes z (int08-int64 z h)
header-Encodes (Build.int16 z) h = int_header-Encodes z (int16-int64 z h)
header-Encodes (Build.int32 z) h = int_header-Encodes z (int32-int64 z h)
header-Encodes (Build.int64 z) h = int_header-Encodes z h
header-Encodes (Build.uint08 x) h = uint_header-Encodes x (omega arith)
header-Encodes (Build.uint16 x) h = uint_header-Encodes x (omega arith)
header-Encodes (Build.uint32 x) h = uint_header-Encodes x (omega arith)
header-Encodes (Build.uint64 x) h = uint_header-Encodes x h
header-Encodes Build.nil h = Encodes.nil_byte
header-Encodes (Build.bool true) h = Encodes.true_byte
header-Encodes (Build.bool false) h = Encodes.false_byte
header-Encodes (Build.float32 x) h = Encodes.float32 x h
header-Encodes (Build.float64 x) h = Encodes.float64 x h
header-Encodes (Build.str n) h = str_header-Encodes n h
header-Encodes (Build.bin n) h = bin_header-Encodes n h
header-Encodes (Build.array n) h = array_header-Encodes n h
header-Encodes (Build.map n) h = map_header-Encodes n h
header-Encodes (Build.ext n t) h = ext_header-Encodes n t h.0 h.1

module _ {W : Type 0} where
  pub loaded-fields :
      (b : Build) (m : Context W)
      → ((loaded b m).status ≡ write_buffer)
        × ((loaded b m).buffer_offset ≡ 0)
        × ((loaded b m).buffer_amount ≡ length (header b))
        × ((loaded b m).buffer_data ≡ overwrite (header b) m.buffer_data)
  loaded-fields (Build.int08 z) m = (refl, refl, refl, refl)
  loaded-fields (Build.int16 z) m = (refl, refl, refl, refl)
  loaded-fields (Build.int32 z) m = (refl, refl, refl, refl)
  loaded-fields (Build.int64 z) m = (refl, refl, refl, refl)
  loaded-fields (Build.uint08 z) m = (refl, refl, refl, refl)
  loaded-fields (Build.uint16 z) m = (refl, refl, refl, refl)
  loaded-fields (Build.uint32 z) m = (refl, refl, refl, refl)
  loaded-fields (Build.uint64 z) m = (refl, refl, refl, refl)
  loaded-fields Build.nil m = (refl, refl, refl, refl)
  loaded-fields (Build.bool z) m = (refl, refl, refl, refl)
  loaded-fields (Build.float32 z) m = (refl, refl, refl, refl)
  loaded-fields (Build.float64 z) m = (refl, refl, refl, refl)
  loaded-fields (Build.str n) m = (refl, refl, refl, refl)
  loaded-fields (Build.bin n) m = (refl, refl, refl, refl)
  loaded-fields (Build.array n) m = (refl, refl, refl, refl)
  loaded-fields (Build.map n) m = (refl, refl, refl, refl)
  loaded-fields (Build.ext n t) m = (refl, refl, refl, refl)

  -- The bytes of the buffer that are to be sent after a build.
  pub pending-loaded :
      (b : Build) (m : Context W)
      → length (header b) ≤ length m.buffer_data
      → pending (loaded b m) ≡ header b
  pending-loaded b m h =
      let (status, offset, amount, bytes) = loaded-fields b m in
      let whole : length (header b) - 0 ≡ length (header b) = omega arith in
      rw (offset, amount, bytes, whole, take-overwrite (header b) m.buffer_data h)

  -- In a valid context that is between two objects and whose byte order is the machine's, every
  -- `mpack_build_*`, for any value of its parameter's C type, returns `ok`, is left with a header
  -- to be written, and the bytes that it has put into the buffer for that are, by the tables of
  -- the MessagePack format, a header of the very object that the call names.
  pub build_encodes :
      (host : Host) (b : Build) (m : Context W)
      → IsValid m
      → m.status ≡ build_buffer
      → IsNative m.endian host
      → InRange b
      → (m' : Context W) × (build host b (some m) ≡ (ok, some m'))
        × (m'.status ≡ write_buffer)
        × Encodes (pending m') (item b)
  build_encodes host b m v s e h =
      let built = build_loads host b m s e h in
      let v' : IsValid (loaded b m) = rw built at (build-Valid host b (some m) v) in
      let (status, offset, amount, bytes) = loaded-fields b m in
      let fits : length (header b) ≤ length m.buffer_data =
        omega (arith, v'.buffer_cap, amount, v.size) in
      (loaded b m, built, status, rw (pending-loaded b m fits) (header-Encodes b h))
