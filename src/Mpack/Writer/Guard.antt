-- ===== src/Mpack/Writer/Guard.antt =====
-- What the `mpack_build_*` procedures of mpack/mpackwrite.cpp share: their first tests, the
-- assignments to the context, and the byte order of a number.
use apilib.Base.{ℕ, Bool, true, Option, none, some, List, ◌∷◌, length, overwrite, if◌then◌else◌}
use apilib.Mpack.Code.{Code, ok, error_internal, error_invalid_argument, error_invalid_operation}
use apilib.Mpack.Code.{unknown, big, little}
use apilib.Mpack.Swap.{Swap}
use apilib.Mpack.Writer.{Context, is_build, write_buffer}

module _ {W : Type 0} where
  -- The tests that every `mpack_build_*` begins with.
  abbrev pub guarded :
      Option (Context W) → (Context W → Code × Context W) → Code × Option (Context W)
  guarded none body = (error_invalid_argument, none)
  guarded (some m) body =
      if is_build m.status
      then (let (r, m') = body m in (r, some m'))
      else (error_invalid_operation, some m)

  -- The assignments to `status`, `buffer_data[0]`, ..., `buffer_offset` and `buffer_amount`.
  abbrev pub put : List ℕ → Context W → Code × Context W
  put bytes m = (
    ok,
    record m {
      status = write_buffer;
      buffer_data = overwrite bytes m.buffer_data;
      buffer_offset = 0;
      buffer_amount = length bytes;
    },
  )

  -- The same, with `binary_offset` and `binary_amount`.
  abbrev pub put_binary : List ℕ → ℕ → Context W → Code × Context W
  put_binary bytes size m = (
    ok,
    record m {
      status = write_buffer;
      buffer_data = overwrite bytes m.buffer_data;
      buffer_offset = 0;
      buffer_amount = length bytes;
      binary_offset = 0;
      binary_amount = size;
    },
  )

  -- The bytes of `temp` after the exchange, if it succeeded.
  abbrev pub reversed :
      Bool × Option (List ℕ)
      → Context W
      → (List ℕ → Context W → Code × Context W)
      → Code × Context W
  reversed (true, some temp) m next = next temp m
  reversed (_, _) m next = (error_internal, m)

  -- `if(endian == unknown || (endian == little && swap(&temp) == false))` and what follows it, for
  -- the bytes of `temp` after the test.
  abbrev pub swapped :
      Swap → List ℕ → Context W → (List ℕ → Context W → Code × Context W) → Code × Context W
  swapped swap temp m next = elim m.endian [
    | unknown ↦ (error_internal, m)
    | big ↦ next temp m
    | little ↦ reversed (swap (some temp)) m next
  ]

  -- A format byte and the digits of `temp`.
  abbrev pub put_number : Swap → ℕ → List ℕ → Context W → Code × Context W
  put_number swap format temp m = swapped swap temp m (λ digits. put (format ∷ digits))
