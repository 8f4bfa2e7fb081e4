-- ===== src/Mpack/Reader/GetInt.antt =====
-- `mpack_get_int_as_*` of mpack/mpackread.cpp. The second argument is what the pointer `value`
-- leads to, none for NULL; the result holds it after the call.
use apilib.Base.{ℕ, Bool, Option, none, some, leb, if◌then◌else◌, not, ◌&&◌}
use apilib.Base.Int.{ℤ, pos, leb_ℤ, between, to_word, narrow}
use apilib.Base.Memory.{Host}
use apilib.Mpack.Code.{Code, ok, error_invalid_argument, error_invalid_operation}
use apilib.Mpack.Code.{error_invalid_type, error_buffer_too_small, int, uint}
use apilib.Mpack.Limits.{int08_min, int08_max, int16_min, int16_max, int32_min, int32_max}
use apilib.Mpack.Limits.{int64_min, int64_max, uint08_max, uint16_max, uint32_max, uint64_max}
use apilib.Mpack.Reader.{Context, is_xchange, i64, u64}

-- `if(test){ *value = v; r = ok; } else { r = buffer_too_small; }`
abbrev pub store_if : {A : Type 0} → Bool → A → A → Code × Option A
store_if test v old = if test then (ok, some v) else (error_buffer_too_small, some old)

module _ {R : Type 0} where
  unfoldable pub get_int_as_int08 : Host → Option (Context R) → Option ℤ → Code × Option ℤ
  get_int_as_int08 host none value = (error_invalid_argument, value)
  get_int_as_int08 host (some m) none = (error_invalid_argument, none)
  get_int_as_int08 host (some m) (some old) =
      if not (is_xchange m.status)
      then (error_invalid_operation, some old)
      else elim m.object.type [
        | int ↦
            let i = i64 host m.object in store_if (between int08_min int08_max i) (narrow 8 i) old
        | uint ↦
            let u = u64 host m.object in store_if (leb_ℤ (pos u) int08_max) (narrow 8 (pos u)) old
        | _ ↦ (error_invalid_type, some old)
      ]

  unfoldable pub get_int_as_int16 : Host → Option (Context R) → Option ℤ → Code × Option ℤ
  get_int_as_int16 host none value = (error_invalid_argument, value)
  get_int_as_int16 host (some m) none = (error_invalid_argument, none)
  get_int_as_int16 host (some m) (some old) =
      if not (is_xchange m.status)
      then (error_invalid_operation, some old)
      else elim m.object.type [
        | int ↦
            let i = i64 host m.object in store_if (between int16_min int16_max i) (narrow 16 i) old
        | uint ↦
            let u = u64 host m.object in store_if (leb_ℤ (pos u) int16_max) (narrow 16 (pos u)) old
        | _ ↦ (error_invalid_type, some old)
      ]

  unfoldable pub get_int_as_int32 : Host → Option (Context R) → Option ℤ → Code × Option ℤ
  get_int_as_int32 host none value = (error_invalid_argument, value)
  get_int_as_int32 host (some m) none = (error_invalid_argument, none)
  get_int_as_int32 host (some m) (some old) =
      if not (is_xchange m.status)
      then (error_invalid_operation, some old)
      else elim m.object.type [
        | int ↦
            let i = i64 host m.object in store_if (between int32_min int32_max i) (narrow 32 i) old
        | uint ↦
            let u = u64 host m.object in store_if (leb_ℤ (pos u) int32_max) (narrow 32 (pos u)) old
        | _ ↦ (error_invalid_type, some old)
      ]

  unfoldable pub get_int_as_int64 : Host → Option (Context R) → Option ℤ → Code × Option ℤ
  get_int_as_int64 host none value = (error_invalid_argument, value)
  get_int_as_int64 host (some m) none = (error_invalid_argument, none)
  get_int_as_int64 host (some m) (some old) =
      if not (is_xchange m.status)
      then (error_invalid_operation, some old)
      else elim m.object.type [
        | int ↦
            let i = i64 host m.object in store_if (between int64_min int64_max i) (narrow 64 i) old
        | uint ↦
            let u = u64 host m.object in store_if (leb_ℤ (pos u) int64_max) (narrow 64 (pos u)) old
        | _ ↦ (error_invalid_type, some old)
      ]

  unfoldable pub get_int_as_uint08 : Host → Option (Context R) → Option ℕ → Code × Option ℕ
  get_int_as_uint08 host none value = (error_invalid_argument, value)
  get_int_as_uint08 host (some m) none = (error_invalid_argument, none)
  get_int_as_uint08 host (some m) (some old) =
      if not (is_xchange m.status)
      then (error_invalid_operation, some old)
      else elim m.object.type [
        | int ↦
            let i = i64 host m.object in
            store_if (between (pos 0) (pos uint08_max) i) (to_word 8 i) old
        | uint ↦ let u = u64 host m.object in store_if (leb u uint08_max) (to_word 8 (pos u)) old
        | _ ↦ (error_invalid_type, some old)
      ]

  unfoldable pub get_int_as_uint16 : Host → Option (Context R) → Option ℕ → Code × Option ℕ
  get_int_as_uint16 host none value = (error_invalid_argument, value)
  get_int_as_uint16 host (some m) none = (error_invalid_argument, none)
  get_int_as_uint16 host (some m) (some old) =
      if not (is_xchange m.status)
      then (error_invalid_operation, some old)
      else elim m.object.type [
        | int ↦
            let i = i64 host m.object in
            store_if (between (pos 0) (pos uint16_max) i) (to_word 16 i) old
        | uint ↦ let u = u64 host m.object in store_if (leb u uint16_max) (to_word 16 (pos u)) old
        | _ ↦ (error_invalid_type, some old)
      ]

  unfoldable pub get_int_as_uint32 : Host → Option (Context R) → Option ℕ → Code × Option ℕ
  get_int_as_uint32 host none value = (error_invalid_argument, value)
  get_int_as_uint32 host (some m) none = (error_invalid_argument, none)
  get_int_as_uint32 host (some m) (some old) =
      if not (is_xchange m.status)
      then (error_invalid_operation, some old)
      else elim m.object.type [
        | int ↦
            let i = i64 host m.object in
            store_if (between (pos 0) (pos uint32_max) i) (to_word 32 i) old
        | uint ↦ let u = u64 host m.object in store_if (leb u uint32_max) (to_word 32 (pos u)) old
        | _ ↦ (error_invalid_type, some old)
      ]

  -- In `i <= uint64_max` the signed side is converted to the unsigned type.
  unfoldable pub get_int_as_uint64 : Host → Option (Context R) → Option ℕ → Code × Option ℕ
  get_int_as_uint64 host none value = (error_invalid_argument, value)
  get_int_as_uint64 host (some m) none = (error_invalid_argument, none)
  get_int_as_uint64 host (some m) (some old) =
      if not (is_xchange m.status)
      then (error_invalid_operation, some old)
      else elim m.object.type [
        | int ↦
            let i = i64 host m.object in
            store_if (leb_ℤ (pos 0) i && leb (to_word 64 i) uint64_max) (to_word 64 i) old
        | uint ↦ let u = u64 host m.object in store_if (leb u uint64_max) (to_word 64 (pos u)) old
        | _ ↦ (error_invalid_type, some old)
      ]
