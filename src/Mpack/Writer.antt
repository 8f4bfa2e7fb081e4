-- ===== src/Mpack/Writer.antt =====
-- mpack/mpackwrite.h and mpack/mpackwrite.cpp: the context of a writer, and the writing of a built
-- object. `W` stands for the callback's parameter and all that it can reach.
pub mod Guard
pub mod Int
pub mod Object
pub mod Emit
pub mod Header
pub mod Encode
pub mod Standard
pub mod Invariant
pub mod Builds
pub mod Sink
pub mod Resume
pub mod Deliver
pub mod Machine
pub mod Fatal
pub mod Shortest
pub mod Wasteful
use apilib.Base.{
  ℕ, ◌+◌, ◌-◌, ◌%◌, ◌^◌, Bool, true, false, ◌&&◌, ◌||◌, not, Option, none, some, List, take, drop,
  overwrite, length, ltb, leb, ◌==◌, if◌then◌else◌,
}
use apilib.Mpack.Code.{
  Code, partial_complete, ok, error_internal, error_invalid_argument, error_invalid_callback,
  error_invalid_operation, Endian,
}

-- `mpack_write_status_t`
pub data Status : Type 0 where
  build_buffer write_buffer write_binary fatal_error : Status

abbrev pub is_build : Status → Bool
is_build build_buffer = true
is_build _ = false

abbrev pub is_write_buffer : Status → Bool
is_write_buffer write_buffer = true
is_write_buffer _ = false

abbrev pub is_write_binary : Status → Bool
is_write_binary write_binary = true
is_write_binary _ = false

abbrev pub is_fatal : Status → Bool
is_fatal fatal_error = true
is_fatal _ = false

-- `mpack_fn_write`: given the bytes `data[0..size)`, the number that it reports as written.
abbrev pub WriteFn : Type 0 → Type 0
WriteFn W = W → List ℕ → ℕ × W

-- `mpack_write_t`. A callback of `none` is the NULL pointer.
pub record Context (W : Type 0) : Type 0 where
  pub endian : Endian
  pub status : Status
  pub buffer_data : List ℕ
  pub buffer_offset : ℕ
  pub buffer_amount : ℕ
  pub binary_offset : ℕ
  pub binary_amount : ℕ
  pub fn_write : Option (WriteFn W)

-- `uint32_t` addition
abbrev pub add32 : ℕ → ℕ → ℕ
add32 a b = (a + b) % 2 ^ 32

-- `*written = done` where the pointer is not NULL.
abbrev pub store_written : Option ℕ → ℕ → Option ℕ
store_written none done = none
store_written (some _) done = some done

module _ {W : Type 0} where
  -- The status after the whole buffer went out.
  abbrev pub after_buffer : Context W → Context W
  after_buffer m = record m {
    status = if not (m.binary_amount == m.binary_offset) then write_binary else build_buffer;
  }

  -- The two tests behind the callback's turn.
  abbrev pub close_buffer : Context W → Code × Context W
  close_buffer m =
      if m.buffer_amount == m.buffer_offset
      then (ok, after_buffer m)
      else if ltb m.buffer_offset m.buffer_amount
      then (partial_complete, m)
      else (error_internal, m)

  -- The callback's turn: what it takes is counted, a count above what was offered is fatal.
  unfoldable pub send_buffer : WriteFn W → Context W → W → Code × Option (Context W) × W
  send_buffer fn m w =
      let size = m.buffer_amount - m.buffer_offset in
      let (done, w') = fn w (take size (drop m.buffer_offset m.buffer_data)) in
      if ltb size done
      then (error_internal, some (record m { status = fatal_error }), w')
      else let (r, m') = close_buffer (record m { buffer_offset = add32 m.buffer_offset done }) in
        (r, some m', w')

  -- `mpack_write_object_buffer`
  unfoldable pub write_object_buffer : Option (Context W) → W → Code × Option (Context W) × W
  write_object_buffer none w = (error_invalid_argument, none, w)
  write_object_buffer (some m) w = elim m.fn_write [
    | none ↦ (error_invalid_callback, some m, w)
    | some fn ↦
        if not (is_write_buffer m.status)
        then (error_invalid_operation, some m, w)
        else if m.buffer_amount == m.buffer_offset
        then (ok, some (after_buffer m), w)
        else if ltb m.buffer_offset m.buffer_amount
        then send_buffer fn m w
        else (error_internal, some m, w)
  ]

  abbrev pub close_binary : Context W → Code × Context W
  close_binary m =
      if m.binary_amount == m.binary_offset
      then (ok, record m { status = build_buffer })
      else if ltb m.binary_offset m.binary_amount
      then (partial_complete, m)
      else (error_internal, m)

  -- What is offered and what the callback takes of it; no data means no call. The first number is
  -- `binary_size`, which the count is checked against.
  unfoldable pub offer_binary : WriteFn W → Context W → Option (List ℕ) → ℕ → W → ℕ × ℕ × W
  offer_binary fn m none size w = (0, 0, w)
  offer_binary fn m (some bytes) size w =
      let left = m.binary_amount - m.binary_offset in
      let (done, w') = fn w (take (if ltb left size then left else size) bytes) in
      if size == 0 then (0, 0, w) else (left, done, w')

  unfoldable pub send_binary :
      WriteFn W
      → Context W
      → Option (List ℕ)
      → ℕ
      → Option ℕ
      → W
      → Code × Option (Context W) × Option ℕ × W
  unfolding offer_binary
  send_binary fn m bytes size written w =
      let (left, done, w') = offer_binary fn m bytes size w in
      if ltb left done
      then (error_internal, some (record m { status = fatal_error }), written, w')
      else let (r, m') = close_binary (record m { binary_offset = add32 m.binary_offset done }) in
        (r, some m', store_written written done, w')

  -- `mpack_write_object_binary`. `bytes` is the array at `data`, none for NULL; `written` is what
  -- the pointer of that name leads to, none for NULL.
  unfoldable pub write_object_binary :
      Option (Context W)
      → Option (List ℕ)
      → ℕ
      → Option ℕ
      → W
      → Code × Option (Context W) × Option ℕ × W
  write_object_binary none bytes size written w = (error_invalid_argument, none, written, w)
  write_object_binary (some m) bytes size written w = elim m.fn_write [
    | none ↦ (error_invalid_callback, some m, written, w)
    | some fn ↦
        if not (is_write_binary m.status)
        then (error_invalid_operation, some m, written, w)
        else if m.binary_amount == m.binary_offset
        then (ok, some (record m { status = build_buffer }), written, w)
        else if ltb m.binary_offset m.binary_amount
        then send_binary fn m bytes size written w
        else (error_internal, some m, written, w)
  ]

  -- `mpack_reset_write_context`
  unfoldable pub reset_write_context : Option (Context W) → Code × Option (Context W)
  reset_write_context none = (error_invalid_argument, none)
  reset_write_context (some m) =
      if is_fatal m.status
      then (error_invalid_operation, some m)
      else if (not (m.buffer_offset == 0) && not (m.buffer_offset == m.buffer_amount))
          || (not (m.binary_offset == 0) && not (m.binary_offset == m.binary_amount))
      then (error_invalid_operation, some m)
      else (
        ok,
        some (record m {
          status = build_buffer;
          buffer_offset = 0;
          buffer_amount = 0;
          binary_offset = 0;
          binary_amount = 0;
        }),
      )

  -- The binary part of `mpack_write_object`, after its buffer part left the status as it is.
  unfoldable pub write_object_rest :
      Option (Context W)
      → Option (List ℕ)
      → ℕ
      → Option ℕ
      → W
      → Code × Option (Context W) × Option ℕ × W
  write_object_rest none bytes size written w = (error_invalid_argument, none, written, w)
  write_object_rest (some m) bytes size written w =
      if is_write_binary m.status
      then write_object_binary (some m) bytes size written w
      else (ok, some m, written, w)

  -- `if(r != mpack_code_ok)break;` between the two parts
  abbrev pub then_rest :
      Code × Option (Context W) × W
      → Option (List ℕ)
      → ℕ
      → Option ℕ
      → Code × Option (Context W) × Option ℕ × W
  then_rest (ok, p, w) bytes size written = write_object_rest p bytes size written w
  then_rest (r, p, w) bytes size written = (r, p, written, w)

  -- `mpack_write_object`
  unfoldable pub write_object :
      Option (Context W)
      → Option (List ℕ)
      → ℕ
      → Option ℕ
      → W
      → Code × Option (Context W) × Option ℕ × W
  unfolding write_object_rest
  write_object none bytes size written w = (error_invalid_argument, none, written, w)
  write_object (some m) bytes size written w = elim m.fn_write [
    | none ↦ (error_invalid_callback, some m, written, w)
    | some fn ↦
        if not (is_write_buffer m.status) && not (is_write_binary m.status)
        then (error_invalid_operation, some m, written, w)
        else if is_write_buffer m.status
        then then_rest (write_object_buffer (some m) w) bytes size written
        else write_object_binary (some m) bytes size written w
  ]
