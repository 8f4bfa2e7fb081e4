-- ===== src/Mpack/Writer/Machine.antt =====
-- The whole interface of the writer as one step function, and what holds after any sequence of
-- calls.
use apilib.Base.{ℕ, Option, none, List, ◌∷◌, []}
use apilib.Base.Memory.{Host}
use apilib.Mpack.Code.{Code, ok}
use apilib.Mpack.Writer.{Context, write_object, reset_write_context}
use apilib.Mpack.Writer.Builds.{build-Valid}
use apilib.Mpack.Writer.Emit.{then_buffer, then_binary, write_int_from_int08, write_int_from_int16}
use apilib.Mpack.Writer.Emit.{write_int_from_int32, write_int_from_int64, write_int_from_uint08}
use apilib.Mpack.Writer.Emit.{write_int_from_uint16, write_int_from_uint32, write_int_from_uint64}
use apilib.Mpack.Writer.Emit.{
  write_nil, write_bool, write_float_from_float32, write_float_from_float64,
}
use apilib.Mpack.Writer.Emit.{write_str, write_bin, write_ext, write_array, write_map}
use apilib.Mpack.Writer.Header.{Build, build}
use apilib.Mpack.Writer.Invariant.{Valid, write_object_buffer-Valid, write_object_binary-Valid}
use apilib.Mpack.Writer.Invariant.{write_object-Valid, reset_write_context-Valid}

-- A call with its arguments, but for the context. `object` and `write` carry what `data` and
-- `written` lead to.
pub data Call : Type 0 where
  reset : Call
  object : Option (List ℕ) → ℕ → Option ℕ → Call
  only_build : Build → Call
  write : Build → Option (List ℕ) → Option ℕ → Call

module _ {W : Type 0} where
  abbrev pub silent :
      Code × Option (Context W) → Option ℕ → W → Code × Option (Context W) × Option ℕ × W
  silent (c, p) written w = (c, p, written, w)

  abbrev pub untold :
      Code × Option (Context W) × W → Option ℕ → Code × Option (Context W) × Option ℕ × W
  untold (c, p, w) written = (c, p, written, w)

  -- The `mpack_write_*` for an object, by the name of its build.
  unfoldable pub write_of :
      Host
      → Build
      → Option (Context W)
      → Option (List ℕ)
      → Option ℕ
      → W
      → Code × Option (Context W) × Option ℕ × W
  write_of host (Build.int08 z) p bytes written w = untold (write_int_from_int08 p z w) written
  write_of host (Build.int16 z) p bytes written w = untold (write_int_from_int16 host p z w) written
  write_of host (Build.int32 z) p bytes written w = untold (write_int_from_int32 host p z w) written
  write_of host (Build.int64 z) p bytes written w = untold (write_int_from_int64 host p z w) written
  write_of host (Build.uint08 x) p bytes written w = untold (write_int_from_uint08 p x w) written
  write_of host (Build.uint16 x) p bytes written w =
      untold (write_int_from_uint16 host p x w) written
  write_of host (Build.uint32 x) p bytes written w =
      untold (write_int_from_uint32 host p x w) written
  write_of host (Build.uint64 x) p bytes written w =
      untold (write_int_from_uint64 host p x w) written
  write_of host Build.nil p bytes written w = untold (write_nil p w) written
  write_of host (Build.bool b) p bytes written w = untold (write_bool p b w) written
  write_of host (Build.float32 x) p bytes written w =
      untold (write_float_from_float32 host p x w) written
  write_of host (Build.float64 x) p bytes written w =
      untold (write_float_from_float64 host p x w) written
  write_of host (Build.str n) p bytes written w = write_str host p bytes n written w
  write_of host (Build.bin n) p bytes written w = write_bin host p bytes n written w
  write_of host (Build.array n) p bytes written w = untold (write_array host p n w) written
  write_of host (Build.map n) p bytes written w = untold (write_map host p n w) written
  write_of host (Build.ext n t) p bytes written w = write_ext host p bytes n t written w

  unfoldable pub perform :
      Host → Call → Option (Context W) → W → Code × Option (Context W) × Option ℕ × W
  unfolding write_of
  perform host reset p w = silent (reset_write_context p) none w
  perform host (object bytes size written) p w = write_object p bytes size written w
  perform host (only_build b) p w = silent (build host b p) none w
  perform host (write b bytes written) p w = write_of host b p bytes written w

  -- The calls of a client in order; it may or may not look at the results.
  unfoldable pub run : Host → List Call → Option (Context W) → W → Option (Context W) × W
  run host [] p w = (p, w)
  run host (c ∷ calls) p w = let (r, p', written, w') = perform host c p w in run host calls p' w'

  then_buffer-Valid :
      (r : Code × Option (Context W)) (w : W) → Valid r.1 → Valid (then_buffer r w).1
  then_buffer-Valid (ok, p) w v = write_object_buffer-Valid p w v
  then_buffer-Valid (_, p) w v = v

  then_binary-Valid :
      (r : Code × Option (Context W) × W) (bytes : Option (List ℕ)) (size : ℕ) (written : Option ℕ)
      → Valid r.1
      → Valid (then_binary r bytes size written).1
  then_binary-Valid (ok, p, w) bytes size written v =
      write_object_binary-Valid p bytes size written w v
  then_binary-Valid (_, p, w) bytes size written v = v

  emit-Valid :
      (host : Host) (b : Build) (p : Option (Context W)) (w : W)
      → Valid p
      → Valid (then_buffer (build host b p) w).1
  emit-Valid host b p w v = then_buffer-Valid (build host b p) w (build-Valid host b p v)

  write_of-Valid :
      (host : Host) (b : Build) (p : Option (Context W)) (bytes : Option (List ℕ))
      (written : Option ℕ) (w : W)
      → Valid p
      → Valid (write_of host b p bytes written w).1
  unfolding write_of build
  write_of-Valid host (Build.int08 x) p bytes written w v =
      unfold write_int_from_int08 in emit-Valid host (Build.int08 x) p w v
  write_of-Valid host (Build.int16 x) p bytes written w v =
      unfold write_int_from_int16 in emit-Valid host (Build.int16 x) p w v
  write_of-Valid host (Build.int32 x) p bytes written w v =
      unfold write_int_from_int32 in emit-Valid host (Build.int32 x) p w v
  write_of-Valid host (Build.int64 x) p bytes written w v =
      unfold write_int_from_int64 in emit-Valid host (Build.int64 x) p w v
  write_of-Valid host (Build.uint08 x) p bytes written w v =
      unfold write_int_from_uint08 in emit-Valid host (Build.uint08 x) p w v
  write_of-Valid host (Build.uint16 x) p bytes written w v =
      unfold write_int_from_uint16 in emit-Valid host (Build.uint16 x) p w v
  write_of-Valid host (Build.uint32 x) p bytes written w v =
      unfold write_int_from_uint32 in emit-Valid host (Build.uint32 x) p w v
  write_of-Valid host (Build.uint64 x) p bytes written w v =
      unfold write_int_from_uint64 in emit-Valid host (Build.uint64 x) p w v
  write_of-Valid host Build.nil p bytes written w v =
      unfold write_nil in emit-Valid host Build.nil p w v
  write_of-Valid host (Build.bool x) p bytes written w v =
      unfold write_bool in emit-Valid host (Build.bool x) p w v
  write_of-Valid host (Build.float32 x) p bytes written w v =
      unfold write_float_from_float32 in emit-Valid host (Build.float32 x) p w v
  write_of-Valid host (Build.float64 x) p bytes written w v =
      unfold write_float_from_float64 in emit-Valid host (Build.float64 x) p w v
  write_of-Valid host (Build.array x) p bytes written w v =
      unfold write_array in emit-Valid host (Build.array x) p w v
  write_of-Valid host (Build.map x) p bytes written w v =
      unfold write_map in emit-Valid host (Build.map x) p w v
  write_of-Valid host (Build.str n) p bytes written w v =
      unfold write_str in then_binary-Valid _ bytes n written (emit-Valid host (Build.str n) p w v)
  write_of-Valid host (Build.bin n) p bytes written w v =
      unfold write_bin in then_binary-Valid _ bytes n written (emit-Valid host (Build.bin n) p w v)
  write_of-Valid host (Build.ext n t) p bytes written w v =
      unfold write_ext in
      then_binary-Valid _ bytes n written (emit-Valid host (Build.ext n t) p w v)

  -- Every call of the writer's interface keeps a valid context valid, whatever its arguments, its
  -- result and the callback's behaviour: no index leaves the buffer, no counter passes its limit,
  -- and between objects nothing is outstanding.
  pub perform-Valid :
      (host : Host) (c : Call) (p : Option (Context W)) (w : W)
      → Valid p
      → Valid (perform host c p w).1
  unfolding perform
  perform-Valid host reset p w v = reset_write_context-Valid p v
  perform-Valid host (object bytes size written) p w v = write_object-Valid p bytes size written w v
  perform-Valid host (only_build b) p w v = build-Valid host b p v
  perform-Valid host (write b bytes written) p w v = write_of-Valid host b p bytes written w v

  -- After any sequence of calls of the writer's interface, with any arguments and any callback, a
  -- context that was valid is valid.
  pub run-Valid :
      (host : Host) (calls : List Call) (p : Option (Context W)) (w : W)
      → Valid p
      → Valid (run host calls p w).0
  unfolding run
  run-Valid host [] p w v = v
  run-Valid host (c ∷ calls) p w v =
      run-Valid host calls (perform host c p w).1 (perform host c p w).3
        (perform-Valid host c p w v)
