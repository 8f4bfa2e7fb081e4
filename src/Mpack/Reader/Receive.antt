-- ===== src/Mpack/Reader/Receive.antt =====
-- The receiving procedures of mpack/mpackread.cpp, and the step from one status to the next.
use apilib.Base.{ℕ, ◌+◌, ◌-◌, ◌%◌, ◌^◌, Bool, true, false, Option, none, some, List, ◌∷◌, []}
use apilib.Base.{get_or, overwrite_at, ltb, if◌then◌else◌}
use apilib.Base.Memory.{Host}
use apilib.Mpack.Code.{Code, ok, error_internal, error_invalid_argument, error_invalid_callback}
use apilib.Mpack.Code.{error_not_enough_data, error_buffer_too_small}
use apilib.Mpack.Reader.{Context, ReadFn, is_receive_format, is_process_format, is_receive_number}
use apilib.Mpack.Reader.{
  is_process_number, is_xchange, receive_format, process_format, process_number,
}
use apilib.Mpack.Reader.Format.{process_format_step}
use apilib.Mpack.Reader.Number.{process_number_step}

-- `uint32_t` addition
abbrev pub add32 : ℕ → ℕ → ℕ
add32 a b = (a + b) % 2 ^ 32

module _ {R : Type 0} where
  -- `mpack_receive_format`. The callback may store a byte whatever it reports.
  unfoldable pub receive_format_step : Option (Context R) → R → Code × Option (Context R) × R
  receive_format_step none r = (error_invalid_argument, none, r)
  receive_format_step (some m) r = elim m.fn_read [
    | none ↦ (error_invalid_callback, some m, r)
    | some fn ↦
        let (done, bytes, r') = fn r 1 in
        let format' = get_or bytes 0 m.format in
        if ltb done 1
        then (error_not_enough_data, some (record m { format = format' }), r')
        else (ok, some (record m { format = format'; status = process_format }), r')
  ]

  abbrev pub close_number : Context R → R → Code × Option (Context R) × R
  close_number m r =
      if ltb m.number_read m.number_need
      then (error_not_enough_data, some m, r)
      else (ok, some (record m { status = process_number }), r)

  -- The callback's turn for the digits.
  abbrev pub pull_number : ReadFn R → Context R → R → Code × Option (Context R) × R
  pull_number fn m r =
      let required = m.number_need - m.number_read in
      let (received, bytes, r') = fn r required in
      let digits = overwrite_at m.number_read bytes m.number_data in
      if ltb required received
      then (error_internal, some (record m { number_data = digits }), r')
      else close_number
          (record m { number_data = digits; number_read = add32 m.number_read received }) r'

  -- `mpack_receive_number`; `number_data` has ten bytes.
  unfoldable pub receive_number_step : Option (Context R) → R → Code × Option (Context R) × R
  receive_number_step none r = (error_invalid_argument, none, r)
  receive_number_step (some m) r = elim m.fn_read [
    | none ↦ (error_invalid_callback, some m, r)
    | some fn ↦
        if ltb 10 m.number_need
        then (error_internal, some m, r)
        else if ltb m.number_read m.number_need
        then pull_number fn m r
        else close_number m r
  ]

  -- `if(status == ...){ int r = step(mpack); if(r != ok)return r; }`, for a step with the callback
  -- and for one without.
  unfoldable pub stage :
      (Context R → Bool)
      → (Option (Context R) → R → Code × Option (Context R) × R)
      → Code × Option (Context R) × R
      → Code × Option (Context R) × R
  stage here step (ok, some m, r) = if here m then step (some m) r else (ok, some m, r)
  stage here step (c, p, r) = (c, p, r)

  abbrev pub quiet :
      (Option (Context R) → Code × Option (Context R))
      → Option (Context R)
      → R
      → Code × Option (Context R) × R
  quiet step p r = let (c, p') = step p in (c, p', r)

  -- `mpack_receive_object`
  unfoldable pub receive_object : Host → Option (Context R) → R → Code × Option (Context R) × R
  unfolding stage
  receive_object host none r = (error_invalid_argument, none, r)
  receive_object host (some m) r =
      if is_xchange m.status
      then (ok, some m, r)
      else stage (λ m. is_process_number m.status) (quiet (process_number_step host))
          (stage (λ m. is_receive_number m.status) receive_number_step
            (stage (λ m. is_process_format m.status) (quiet (process_format_step host))
              (stage (λ m. is_receive_format m.status) receive_format_step (ok, some m, r))))

  abbrev pub close_binary : Context R → List ℕ → R → Code × Option (Context R) × List ℕ × R
  close_binary m buffer r =
      if ltb m.binary_read m.binary_need
      then (error_not_enough_data, some m, buffer, r)
      else (ok, some m, buffer, r)

  abbrev pub pull_binary :
      ReadFn R → Context R → List ℕ → R → Code × Option (Context R) × List ℕ × R
  pull_binary fn m buffer r =
      let required = m.binary_need - m.binary_read in
      let (received, bytes, r') = fn r required in
      let buffer' = overwrite_at m.binary_read bytes buffer in
      if ltb required received
      then (error_internal, some m, buffer', r')
      else close_binary (record m { binary_read = add32 m.binary_read received }) buffer' r'

  -- `mpack_receive_object_binary`; the result holds the caller's buffer after the call.
  unfoldable pub receive_object_binary :
      Option (Context R) → List ℕ → ℕ → R → Code × Option (Context R) × List ℕ × R
  receive_object_binary none buffer buffer_size r = (error_invalid_argument, none, buffer, r)
  receive_object_binary (some m) buffer buffer_size r = elim m.fn_read [
    | none ↦ (error_invalid_callback, some m, buffer, r)
    | some fn ↦
        if ltb buffer_size m.binary_need
        then (error_buffer_too_small, some m, buffer, r)
        else if ltb m.binary_read m.binary_need
        then pull_binary fn m buffer r
        else close_binary m buffer r
  ]

  -- `mpack_recv_reset`; `memzero` fills the ten bytes of `number_data`.
  unfoldable pub recv_reset : Option (Context R) → Bool × Option (Context R)
  recv_reset none = (false, none)
  recv_reset (some m) = (
    true,
    some (record m {
      status = receive_format;
      format = 0;
      number_data = 0 ∷ 0 ∷ 0 ∷ 0 ∷ 0 ∷ 0 ∷ 0 ∷ 0 ∷ 0 ∷ 0 ∷ [];
      number_need = 0;
      number_read = 0;
      binary_need = 0;
      binary_read = 0;
    }),
  )
