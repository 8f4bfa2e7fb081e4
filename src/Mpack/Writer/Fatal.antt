-- ===== src/Mpack/Writer/Fatal.antt =====
-- A writer whose callback once reported more bytes than it was offered is out of order for good.
use apilib.Base.{ℕ, ◌≡◌, refl, Option, some, List, ◌∷◌, [], arith}
use apilib.Base.Memory.{Host}
use apilib.Mpack.Code.{error_invalid_operation}
use apilib.Mpack.Writer.{Context, fatal_error, write_object, reset_write_context}
use apilib.Mpack.Writer.Header.{Build, build}
use apilib.Mpack.Writer.Emit.{
  write_int_from_int08, write_int_from_int16, write_int_from_int32, write_int_from_int64,
  write_int_from_uint08, write_int_from_uint16, write_int_from_uint32, write_int_from_uint64,
  write_nil, write_bool, write_float_from_float32, write_float_from_float64, write_str, write_bin,
  write_ext, write_array, write_map,
}
use apilib.Mpack.Writer.Int.{
  build_int_from_int08, build_int_from_int16, build_int_from_int32, build_int_from_int64,
  build_int_from_uint08, build_int_from_uint16, build_int_from_uint32, build_int_from_uint64,
}
use apilib.Mpack.Writer.Machine.{Call, perform, write_of, run}
use apilib.Mpack.Writer.Object.{
  build_nil, build_bool, build_float_as_float32, build_float_as_float64, build_str_info,
  build_bin_info, build_ext_info, build_array, build_map,
}

module _ {W : Type 0} (host : Host) (m : Context W) (dead : m.status ≡ fatal_error) where
  build_refused : (b : Build) → build host b (some m) ≡ (error_invalid_operation, some m)
  unfolding build
  build_refused (Build.int08 x) = unfold build_int_from_int08 in ground arith
  build_refused (Build.int16 x) = unfold build_int_from_int16 in ground arith
  build_refused (Build.int32 x) = unfold build_int_from_int32 in ground arith
  build_refused (Build.int64 x) = unfold build_int_from_int64 in ground arith
  build_refused (Build.uint08 x) = unfold build_int_from_uint08 in ground arith
  build_refused (Build.uint16 x) = unfold build_int_from_uint16 in ground arith
  build_refused (Build.uint32 x) = unfold build_int_from_uint32 in ground arith
  build_refused (Build.uint64 x) = unfold build_int_from_uint64 in ground arith
  build_refused Build.nil = unfold build_nil in ground arith
  build_refused (Build.bool x) = unfold build_bool in ground arith
  build_refused (Build.float32 x) = unfold build_float_as_float32 in ground arith
  build_refused (Build.float64 x) = unfold build_float_as_float64 in ground arith
  build_refused (Build.str x) = unfold build_str_info in ground arith
  build_refused (Build.bin x) = unfold build_bin_info in ground arith
  build_refused (Build.array x) = unfold build_array in ground arith
  build_refused (Build.map x) = unfold build_map in ground arith
  build_refused (Build.ext x t) = unfold build_ext_info in ground arith

  write_refused :
      (b : Build) (bytes : Option (List ℕ)) (written : Option ℕ) (w : W)
      → write_of host b (some m) bytes written w ≡ (error_invalid_operation, some m, written, w)
  unfolding write_of build
  write_refused (Build.int08 x) bytes written w =
      unfold write_int_from_int08 in ground (arith, build_refused (Build.int08 x))
  write_refused (Build.int16 x) bytes written w =
      unfold write_int_from_int16 in ground (arith, build_refused (Build.int16 x))
  write_refused (Build.int32 x) bytes written w =
      unfold write_int_from_int32 in ground (arith, build_refused (Build.int32 x))
  write_refused (Build.int64 x) bytes written w =
      unfold write_int_from_int64 in ground (arith, build_refused (Build.int64 x))
  write_refused (Build.uint08 x) bytes written w =
      unfold write_int_from_uint08 in ground (arith, build_refused (Build.uint08 x))
  write_refused (Build.uint16 x) bytes written w =
      unfold write_int_from_uint16 in ground (arith, build_refused (Build.uint16 x))
  write_refused (Build.uint32 x) bytes written w =
      unfold write_int_from_uint32 in ground (arith, build_refused (Build.uint32 x))
  write_refused (Build.uint64 x) bytes written w =
      unfold write_int_from_uint64 in ground (arith, build_refused (Build.uint64 x))
  write_refused Build.nil bytes written w =
      unfold write_nil in ground (arith, build_refused Build.nil)
  write_refused (Build.bool x) bytes written w =
      unfold write_bool in ground (arith, build_refused (Build.bool x))
  write_refused (Build.float32 x) bytes written w =
      unfold write_float_from_float32 in ground (arith, build_refused (Build.float32 x))
  write_refused (Build.float64 x) bytes written w =
      unfold write_float_from_float64 in ground (arith, build_refused (Build.float64 x))
  write_refused (Build.str x) bytes written w =
      unfold write_str in ground (arith, build_refused (Build.str x))
  write_refused (Build.bin x) bytes written w =
      unfold write_bin in ground (arith, build_refused (Build.bin x))
  write_refused (Build.array x) bytes written w =
      unfold write_array in ground (arith, build_refused (Build.array x))
  write_refused (Build.map x) bytes written w =
      unfold write_map in ground (arith, build_refused (Build.map x))
  write_refused (Build.ext x t) bytes written w =
      unfold write_ext in ground (arith, build_refused (Build.ext x t))

  call_refused :
      (c : Call) (w : W)
      → ((perform host c (some m) w).1 ≡ some m) × ((perform host c (some m) w).3 ≡ w)
  unfolding perform
  call_refused Call.reset w = unfold reset_write_context in ground arith
  call_refused (Call.object bytes size written) w = unfold write_object in ground arith
  call_refused (Call.only_build b) w = ground (arith, build_refused b)
  call_refused (Call.write b bytes written) w = ground (arith, write_refused b bytes written w)

  -- In the status `fatal_error` no sequence of calls of the writer's interface, the reset
  -- included, has any effect: the context stays as it is, and the callback is never called again.
  pub run-fatal : (calls : List Call) (w : W) → run host calls (some m) w ≡ (some m, w)
  unfolding run
  run-fatal [] w = refl
  run-fatal (c ∷ calls) w =
      let (same, still) = call_refused c w in rw (same, still) (run-fatal calls w)
