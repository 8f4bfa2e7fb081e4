-- ===== src/Mpack/Reader/GetObject.antt =====
-- The other `mpack_get_*` of mpack/mpackread.cpp. A second argument is what the caller's pointer
-- leads to, none for NULL; the result holds it after the call.
use apilib.Base.{ℕ, Bool, Option, none, some, take, ◌==◌, not, if◌then◌else◌}
use apilib.Base.Memory.{Host, load}
use apilib.Mpack.Code.{Code, ok, error_invalid_argument, error_invalid_operation}
use apilib.Mpack.Code.{error_invalid_type, nil, bool, float, double, str, bin, ext, array, map}
use apilib.Mpack.Reader.{Context, is_xchange, u32, byte, ext_type}

module _ {R : Type 0} where
  unfoldable pub get_nil : Option (Context R) → Code
  get_nil none = error_invalid_argument
  get_nil (some m) =
      if not (is_xchange m.status)
      then error_invalid_operation
      else elim m.object.type [ nil ↦ ok | _ ↦ error_invalid_type ]

  unfoldable pub get_bool : Option (Context R) → Option Bool → Code × Option Bool
  get_bool none value = (error_invalid_argument, value)
  get_bool (some m) none = (error_invalid_argument, none)
  get_bool (some m) (some old) =
      if not (is_xchange m.status)
      then (error_invalid_operation, some old)
      else elim m.object.type [
        | bool ↦ (ok, some (not (byte m.object == 0)))
        | _ ↦ (error_invalid_type, some old)
      ]

  -- A float is its bit pattern.
  unfoldable pub get_float_as_float32 : Host → Option (Context R) → Option ℕ → Code × Option ℕ
  get_float_as_float32 host none value = (error_invalid_argument, value)
  get_float_as_float32 host (some m) none = (error_invalid_argument, none)
  get_float_as_float32 host (some m) (some old) =
      if not (is_xchange m.status)
      then (error_invalid_operation, some old)
      else elim m.object.type [
        | float ↦ (ok, some (load host (take 4 m.object.store)))
        | _ ↦ (error_invalid_type, some old)
      ]

  unfoldable pub get_float_as_float64 : Host → Option (Context R) → Option ℕ → Code × Option ℕ
  get_float_as_float64 host none value = (error_invalid_argument, value)
  get_float_as_float64 host (some m) none = (error_invalid_argument, none)
  get_float_as_float64 host (some m) (some old) =
      if not (is_xchange m.status)
      then (error_invalid_operation, some old)
      else elim m.object.type [
        | double ↦ (ok, some (load host (take 8 m.object.store)))
        | _ ↦ (error_invalid_type, some old)
      ]

  unfoldable pub get_str_info : Host → Option (Context R) → Option ℕ → Code × Option ℕ
  get_str_info host none value = (error_invalid_argument, value)
  get_str_info host (some m) none = (error_invalid_argument, none)
  get_str_info host (some m) (some old) =
      if not (is_xchange m.status)
      then (error_invalid_operation, some old)
      else elim m.object.type [
        | str ↦ (ok, some (u32 host m.object))
        | _ ↦ (error_invalid_type, some old)
      ]

  unfoldable pub get_bin_info : Host → Option (Context R) → Option ℕ → Code × Option ℕ
  get_bin_info host none value = (error_invalid_argument, value)
  get_bin_info host (some m) none = (error_invalid_argument, none)
  get_bin_info host (some m) (some old) =
      if not (is_xchange m.status)
      then (error_invalid_operation, some old)
      else elim m.object.type [
        | bin ↦ (ok, some (u32 host m.object))
        | _ ↦ (error_invalid_type, some old)
      ]

  unfoldable pub get_ext_info :
      Host → Option (Context R) → Option ℕ → Option ℕ → Code × Option ℕ × Option ℕ
  get_ext_info host none size type = (error_invalid_argument, size, type)
  get_ext_info host (some m) none type = (error_invalid_argument, none, type)
  get_ext_info host (some m) (some old) none = (error_invalid_argument, some old, none)
  get_ext_info host (some m) (some old) (some old_type) =
      if not (is_xchange m.status)
      then (error_invalid_operation, some old, some old_type)
      else elim m.object.type [
        | ext ↦ (ok, some (u32 host m.object), some (ext_type m.object))
        | _ ↦ (error_invalid_type, some old, some old_type)
      ]

  unfoldable pub get_array_count : Host → Option (Context R) → Option ℕ → Code × Option ℕ
  get_array_count host none value = (error_invalid_argument, value)
  get_array_count host (some m) none = (error_invalid_argument, none)
  get_array_count host (some m) (some old) =
      if not (is_xchange m.status)
      then (error_invalid_operation, some old)
      else elim m.object.type [
        | array ↦ (ok, some (u32 host m.object))
        | _ ↦ (error_invalid_type, some old)
      ]

  unfoldable pub get_map_count : Host → Option (Context R) → Option ℕ → Code × Option ℕ
  get_map_count host none value = (error_invalid_argument, value)
  get_map_count host (some m) none = (error_invalid_argument, none)
  get_map_count host (some m) (some old) =
      if not (is_xchange m.status)
      then (error_invalid_operation, some old)
      else elim m.object.type [
        | map ↦ (ok, some (u32 host m.object))
        | _ ↦ (error_invalid_type, some old)
      ]
