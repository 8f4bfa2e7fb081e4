-- ===== src/Mpack/Writer/Invariant.antt =====
-- The invariant of a writer's context: no index leaves `buffer_data`, and the counters agree with
-- the status.
use apilib.Base.{ℕ, ◌^◌, ◌≤◌, ◌<◌, ◌≡◌, Option, none, some, List, length, arith}
use apilib.Mpack.Code.{Code, ok}
use apilib.Mpack.Writer.{Context, Status, build_buffer, write_buffer, write_binary, fatal_error}
use apilib.Mpack.Writer.{write_object_buffer, send_buffer, write_object_binary, send_binary}
use apilib.Mpack.Writer.{write_object, write_object_rest, then_rest, reset_write_context}

module _ {W : Type 0} where
  -- Between objects nothing is outstanding; once the data are due the buffer is out, and some data
  -- are left.
  abbrev pub Phase : Status → Context W → Type 0
  Phase build_buffer m = (m.buffer_offset ≡ m.buffer_amount) × (m.binary_offset ≡ m.binary_amount)
  Phase write_buffer m = Unit
  Phase write_binary m = (m.buffer_offset ≡ m.buffer_amount) × (m.binary_offset < m.binary_amount)
  Phase fatal_error m = Unit

  pub record IsValid (m : Context W) : Type 0 where
    pub size : length m.buffer_data ≡ 10
    pub buffer_in : m.buffer_offset ≤ m.buffer_amount
    pub buffer_cap : m.buffer_amount ≤ 10
    pub binary_in : m.binary_offset ≤ m.binary_amount
    pub binary_cap : m.binary_amount < 2 ^ 32
    pub phase : Phase m.status m

  -- The same behind a pointer.
  abbrev pub Valid : Option (Context W) → Type 0
  Valid none = Unit
  Valid (some m) = IsValid m

  pub write_object_buffer-Valid :
      (p : Option (Context W)) (w : W) → Valid p → Valid (write_object_buffer p w).1
  unfolding write_object_buffer send_buffer
  write_object_buffer-Valid none w v = tt
  write_object_buffer-Valid (some m) w v = ground arith

  pub write_object_binary-Valid :
      (p : Option (Context W)) (bytes : Option (List ℕ)) (size : ℕ) (written : Option ℕ) (w : W)
      → Valid p
      → Valid (write_object_binary p bytes size written w).1
  unfolding write_object_binary send_binary
  write_object_binary-Valid none bytes size written w v = tt
  write_object_binary-Valid (some m) none size written w v = ground arith
  write_object_binary-Valid (some m) (some bytes) size written w v = ground arith

  pub reset_write_context-Valid :
      (p : Option (Context W)) → Valid p → Valid (reset_write_context p).1
  unfolding reset_write_context
  reset_write_context-Valid none v = tt
  reset_write_context-Valid (some m) v = ground arith

  write_object_rest-Valid :
      (p : Option (Context W)) (bytes : Option (List ℕ)) (size : ℕ) (written : Option ℕ) (w : W)
      → Valid p
      → Valid (write_object_rest p bytes size written w).1
  unfolding write_object_rest
  write_object_rest-Valid none bytes size written w v = tt
  write_object_rest-Valid (some m) bytes size written w v =
      ground (arith, write_object_binary-Valid (some m) bytes size written w v)

  then_rest-Valid :
      (r : Code × Option (Context W) × W) (bytes : Option (List ℕ)) (size : ℕ) (written : Option ℕ)
      → Valid r.1
      → Valid (then_rest r bytes size written).1
  then_rest-Valid (ok, p, w) bytes size written v = write_object_rest-Valid p bytes size written w v
  then_rest-Valid (_, p, w) bytes size written v = v

  -- The two parts of `mpack_write_object` and their order.
  pub write_object-Valid :
      (p : Option (Context W)) (bytes : Option (List ℕ)) (size : ℕ) (written : Option ℕ) (w : W)
      → Valid p
      → Valid (write_object p bytes size written w).1
  unfolding write_object
  write_object-Valid none bytes size written w v = tt
  write_object-Valid (some m) bytes size written w v = ground (
    arith,
    then_rest-Valid (write_object_buffer (some m) w) bytes size written
        (write_object_buffer-Valid (some m) w v),
    write_object_binary-Valid (some m) bytes size written w v,
  )
