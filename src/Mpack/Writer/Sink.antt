-- ===== src/Mpack/Writer/Sink.antt =====
-- A writer over a callback that keeps its contract: what reaches the stream.
use apilib.Base.{ℕ, zero, suc, ◌+◌, ◌-◌, ◌≤◌, ◌<◌, ◌≡◌, refl, some, List, ◌∷◌, [], ◌++◌}
use apilib.Base.{take, drop, length, arith, take_split, drop-drop}
use apilib.Mpack.Code.{Code}
use apilib.Mpack.Writer.{Context, WriteFn, write_object_buffer, send_buffer}
use apilib.Mpack.Writer.Invariant.{IsValid}
use mathlib.Core.List.{append_assoc}

-- `out w` is what the stream holds. The callback takes some first part of what it is offered,
-- appends exactly that, and reports its length.
pub record IsSink {W : Type 0} (fn : WriteFn W) (out : W → List ℕ) : Type 0 where
  pub count : (w : W) (bytes : List ℕ) → (fn w bytes).0 ≤ length bytes
  pub sent : (w : W) (bytes : List ℕ) → out (fn w bytes).1 ≡ out w ++ take (fn w bytes).0 bytes

-- The part of the buffer that is still to be written.
abbrev pub pending : {W : Type 0} → Context W → List ℕ
pending m = take (m.buffer_amount - m.buffer_offset) (drop m.buffer_offset m.buffer_data)

length-take_le : (n : ℕ) (xs : List ℕ) → length (take n xs) ≤ n
length-take_le zero xs = omega arith
length-take_le (suc n) [] = omega arith
length-take_le (suc n) (x ∷ xs) = omega (arith, length-take_le n xs)

module _ {W : Type 0} {fn : WriteFn W} {out : W → List ℕ} (sink : IsSink fn out) where
  -- One turn of the callback on the buffer, with a count `k`.
  pub turn :
      (m : Context W) (w : W) (k : ℕ)
      → k ≡ (fn w (pending m)).0
      → IsValid m
      → m.buffer_offset < m.buffer_amount
      → (k ≤ m.buffer_amount - m.buffer_offset)
        × (out (fn w (pending m)).1
              ++ take
                  (m.buffer_amount - (m.buffer_offset + k))
                  (drop (m.buffer_offset + k) m.buffer_data)
            ≡ out w ++ pending m)
  turn m w k e v h =
      let size : ℕ = m.buffer_amount - m.buffer_offset in
      let rest : List ℕ = drop m.buffer_offset m.buffer_data in
      let fits : k ≤ size = omega (arith, sink.count w (pending m), length-take_le size rest) in
      let left : m.buffer_amount - (m.buffer_offset + k) ≡ size - k = omega arith in
      (
        fits,
        rw (
          sink.sent w (pending m),
          ← e,
          left,
          ← drop-drop m.buffer_offset k m.buffer_data,
          append_assoc,
          take_split size k rest fits,
        ),
      )

  -- Over a callback that puts on the stream just the bytes that it reports as taken, a call of
  -- `mpack_write_object_buffer` on a valid context neither loses a byte of the header nor sends
  -- one twice: what the stream holds and what is still to be sent make up the same as before the
  -- call, whatever its result.
  pub write_object_buffer-conserves :
      (m : Context W) (w : W) {c : Code} {m' : Context W} {w' : W}
      → m.fn_write ≡ some fn
      → IsValid m
      → write_object_buffer (some m) w ≡ (c, some m', w')
      → out w' ++ pending m' ≡ out w ++ pending m
  unfolding write_object_buffer send_buffer
  write_object_buffer-conserves m w f v e =
      ground (arith, turn m w (fn w (pending m)).0 refl v, sink.count w (pending m))
