-- ===== src/Mpack/Reader/Values.antt =====
-- What the `mpack_get_*` procedures return for an object that the reader has.
use apilib.Base.{ℕ, ◌≡◌, true, some, inl, inr, arith}
use apilib.Base.Int.{ℤ, pos, negsuc, between, leb_ℤ, narrow}
use apilib.Base.Memory.{Host}
use apilib.Mpack.Limits.{
  int08_min, int08_max, int16_min, int16_max, int32_min, int32_max, int64_min, int64_max,
}
use apilib.Mpack.Limits.{uint08_max, uint16_max, uint32_max, uint64_max}
use apilib.Mpack.Limits.{narrow08_lem, narrow16_lem, narrow32_lem, narrow64_lem}
use apilib.Mpack.Reader.{Context, xchange_object, u64}
use apilib.Mpack.Reader.GetInt.{
  store_if, get_int_as_int08, get_int_as_int16, get_int_as_int32, get_int_as_int64,
}
use apilib.Mpack.Reader.GetInt.{
  get_int_as_uint08, get_int_as_uint16, get_int_as_uint32, get_int_as_uint64,
}
use apilib.Mpack.Reader.Meaning.{Holds}
use apilib.Mpack.Wire.{Item}

-- A number that is not negative, as an unsigned one.
abbrev pub natural : ℤ → ℕ
natural (pos n) = n
natural (negsuc n) = 0

-- A number no larger than the upper limit, when it is read as unsigned.
narrow08-pos : (u : ℕ) → leb_ℤ (pos u) int08_max ≡ true → narrow 8 (pos u) ≡ pos u
narrow08-pos u h = ground arith

-- A number no larger than the upper limit, when it is read as unsigned.
narrow16-pos : (u : ℕ) → leb_ℤ (pos u) int16_max ≡ true → narrow 16 (pos u) ≡ pos u
narrow16-pos u h = ground arith

-- A number no larger than the upper limit, when it is read as unsigned.
narrow32-pos : (u : ℕ) → leb_ℤ (pos u) int32_max ≡ true → narrow 32 (pos u) ≡ pos u
narrow32-pos u h = ground arith

-- A number no larger than the upper limit, when it is read as unsigned.
narrow64-pos : (u : ℕ) → leb_ℤ (pos u) int64_max ≡ true → narrow 64 (pos u) ≡ pos u
narrow64-pos u h = ground arith

module _ {R : Type 0} (host : Host) (m : Context R) (ready : m.status ≡ xchange_object) where
  int08_value :
      (z old : ℤ)
      → Holds host (Item.int z) m.object
      → get_int_as_int08 host (some m) (some old) ≡ store_if (between int08_min int08_max z) z old
  unfolding get_int_as_int08
  int08_value z old (inl (t, e)) = ground (arith, narrow08_lem z)
  int08_value z old (inr (t, e)) = ground (arith, narrow08-pos (u64 host m.object))

  int16_value :
      (z old : ℤ)
      → Holds host (Item.int z) m.object
      → get_int_as_int16 host (some m) (some old) ≡ store_if (between int16_min int16_max z) z old
  unfolding get_int_as_int16
  int16_value z old (inl (t, e)) = ground (arith, narrow16_lem z)
  int16_value z old (inr (t, e)) = ground (arith, narrow16-pos (u64 host m.object))

  int32_value :
      (z old : ℤ)
      → Holds host (Item.int z) m.object
      → get_int_as_int32 host (some m) (some old) ≡ store_if (between int32_min int32_max z) z old
  unfolding get_int_as_int32
  int32_value z old (inl (t, e)) = ground (arith, narrow32_lem z)
  int32_value z old (inr (t, e)) = ground (arith, narrow32-pos (u64 host m.object))

  int64_value :
      (z old : ℤ)
      → Holds host (Item.int z) m.object
      → get_int_as_int64 host (some m) (some old) ≡ store_if (between int64_min int64_max z) z old
  unfolding get_int_as_int64
  int64_value z old (inl (t, e)) = ground (arith, narrow64_lem z)
  int64_value z old (inr (t, e)) = ground (arith, narrow64-pos (u64 host m.object))

  uint08_value :
      (z : ℤ) (old : ℕ)
      → Holds host (Item.int z) m.object
      → get_int_as_uint08 host (some m) (some old)
        ≡ store_if (between (pos 0) (pos uint08_max) z) (natural z) old
  unfolding get_int_as_uint08
  uint08_value (pos k) old (inl (t, e)) = ground arith
  uint08_value (negsuc k) old (inl (t, e)) = ground arith
  uint08_value z old (inr (t, e)) = ground arith

  uint16_value :
      (z : ℤ) (old : ℕ)
      → Holds host (Item.int z) m.object
      → get_int_as_uint16 host (some m) (some old)
        ≡ store_if (between (pos 0) (pos uint16_max) z) (natural z) old
  unfolding get_int_as_uint16
  uint16_value (pos k) old (inl (t, e)) = ground arith
  uint16_value (negsuc k) old (inl (t, e)) = ground arith
  uint16_value z old (inr (t, e)) = ground arith

  uint32_value :
      (z : ℤ) (old : ℕ)
      → Holds host (Item.int z) m.object
      → get_int_as_uint32 host (some m) (some old)
        ≡ store_if (between (pos 0) (pos uint32_max) z) (natural z) old
  unfolding get_int_as_uint32
  uint32_value (pos k) old (inl (t, e)) = ground arith
  uint32_value (negsuc k) old (inl (t, e)) = ground arith
  uint32_value z old (inr (t, e)) = ground arith

  uint64_value :
      (z : ℤ) (old : ℕ)
      → Holds host (Item.int z) m.object
      → between int64_min (pos uint64_max) z ≡ true
      → get_int_as_uint64 host (some m) (some old)
        ≡ store_if (between (pos 0) (pos uint64_max) z) (natural z) old
  unfolding get_int_as_uint64
  uint64_value (pos k) old (inl (t, e)) h = ground arith
  uint64_value (negsuc k) old (inl (t, e)) h = ground arith
  uint64_value z old (inr (t, e)) h = ground arith

  -- Where the reader has a number from the least signed to the greatest unsigned one of 64 bits,
  -- each of the eight `mpack_get_int_as_*` stores that number and returns `ok` exactly if it is a
  -- value of the type asked for; otherwise it returns `error_buffer_too_small` and leaves the
  -- caller's variable alone.
  pub get_int_values :
      (z old : ℤ) (unsigned_old : ℕ)
      → Holds host (Item.int z) m.object
      → between int64_min (pos uint64_max) z ≡ true
      → (get_int_as_int08 host (some m) (some old) ≡ store_if (between int08_min int08_max z) z old)
        × (get_int_as_int16 host (some m) (some old)
            ≡ store_if (between int16_min int16_max z) z old)
        × (get_int_as_int32 host (some m) (some old)
            ≡ store_if (between int32_min int32_max z) z old)
        × (get_int_as_int64 host (some m) (some old)
            ≡ store_if (between int64_min int64_max z) z old)
        × (get_int_as_uint08 host (some m) (some unsigned_old)
            ≡ store_if (between (pos 0) (pos uint08_max) z) (natural z) unsigned_old)
        × (get_int_as_uint16 host (some m) (some unsigned_old)
            ≡ store_if (between (pos 0) (pos uint16_max) z) (natural z) unsigned_old)
        × (get_int_as_uint32 host (some m) (some unsigned_old)
            ≡ store_if (between (pos 0) (pos uint32_max) z) (natural z) unsigned_old)
        × (get_int_as_uint64 host (some m) (some unsigned_old)
            ≡ store_if (between (pos 0) (pos uint64_max) z) (natural z) unsigned_old)
  get_int_values z old unsigned_old h word = (
    int08_value z old h,
    int16_value z old h,
    int32_value z old h,
    int64_value z old h,
    uint08_value z unsigned_old h,
    uint16_value z unsigned_old h,
    uint32_value z unsigned_old h,
    uint64_value z unsigned_old h word,
  )
