-- ===== src/Mpack/Writer/Deliver/Steps.antt =====
-- The steps of a call of `mpack_write_object` that is offered all the data left.
use apilib.Base.{ℕ, ◌+◌, ◌-◌, ◌≤◌, ◌<◌, ◌≡◌, refl, ap, ◌⊎◌, Option, some, List, ◌∷◌, [], ◌++◌}
use apilib.Base.{take, drop, length, arith, ◌==◌, if◌then◌else◌}
use apilib.Mpack.Code.{Code, ok, partial_complete}
use apilib.Mpack.Writer.{Context, WriteFn, write_object, write_object_buffer, write_object_binary}
use apilib.Mpack.Writer.{
  write_object_rest, send_buffer, send_binary, offer_binary, write_buffer, write_binary,
  build_buffer,
}
use apilib.Mpack.Writer.Invariant.{IsValid}
use apilib.Mpack.Writer.Sink.{IsSink, pending, turn}

pub take-all : (bytes : List ℕ) → take (length bytes) bytes ≡ bytes
take-all [] = refl
take-all (x ∷ bytes) = ap (λ t. x ∷ t) (take-all bytes)

-- An object is being written, and `bytes` are what is left of its data.
pub record IsSending {W : Type 0} (fn : WriteFn W) (m : Context W) (bytes : List ℕ) : Type 0 where
  pub callback : m.fn_write ≡ some fn
  pub valid : IsValid m
  pub due : (m.status ≡ write_buffer) ⊎ (m.status ≡ write_binary)
  pub left : m.binary_amount - m.binary_offset ≡ length bytes

-- What is left of the header and of the data.
abbrev pub todo : {W : Type 0} → Context W → List ℕ → ℕ
todo m bytes = (m.buffer_amount - m.buffer_offset) + length bytes

module _ {W : Type 0} where
  -- A call either finished the object or wrote part of it; `total` is what the stream is to hold in
  -- the end, and `limit` bounds what was left.
  abbrev pub Served :
      (fn : WriteFn W) (out : W → List ℕ) (r : Code × Option (Context W) × Option ℕ × W)
      → List ℕ
      → List ℕ
      → ℕ
      → Type 0
  Served fn out r bytes total limit =
      (m' : Context W) × (k : ℕ) × (w' : W) × ((r ≡ (ok, some m', some k, w'))
          × (out w' ≡ total)
          × (m'.status ≡ build_buffer)
        ⊎ (r ≡ (partial_complete, some m', some k, w'))
          × (out w' ++ (pending m' ++ drop k bytes) ≡ total)
          × IsSending fn m' (drop k bytes)
          × (todo m' (drop k bytes) < limit))

  pub nothing_pending : (m : Context W) → m.buffer_offset ≡ m.buffer_amount → pending m ≡ []
  nothing_pending m e = let z : m.buffer_amount - m.buffer_offset ≡ 0 = omega arith in rw z

  pub data_due :
      (m : Context W)
      → IsValid m
      → m.status ≡ write_binary
      → (m.buffer_offset ≡ m.buffer_amount) × (0 < m.binary_amount - m.binary_offset)
  data_due m v s = ground arith

  pub grown-IsValid :
      (m : Context W) (k : ℕ)
      → IsValid m
      → m.status ≡ write_binary
      → m.binary_offset + k < m.binary_amount
      → IsValid (record m { binary_offset = m.binary_offset + k })
  grown-IsValid m k v s h = ground arith

  -- What follows when the header is out.
  abbrev pub after_header : Context W → List ℕ → W → Code × Option (Context W) × Option ℕ × W
  after_header m bytes w =
      if m.binary_amount == m.binary_offset
      then (ok, some (record m { status = build_buffer }), some 0, w)
      else write_object_binary (some (record m { status = write_binary })) (some bytes)
          (length bytes) (some 0) w

  pub header_done :
      {fn : WriteFn W} (m : Context W) (bytes : List ℕ) (w : W)
      → m.fn_write ≡ some fn
      → m.status ≡ write_buffer
      → m.buffer_offset ≡ m.buffer_amount
      → write_object (some m) (some bytes) (length bytes) (some 0) w ≡ after_header m bytes w
  unfolding write_object write_object_buffer send_buffer write_object_rest
  header_done m bytes w f s h = ground arith

  pub data_step :
      {fn : WriteFn W} (m : Context W) (bytes : List ℕ) (w : W)
      → m.fn_write ≡ some fn
      → m.status ≡ write_binary
      → write_object (some m) (some bytes) (length bytes) (some 0) w
        ≡ write_object_binary (some m) (some bytes) (length bytes) (some 0) w
  unfolding write_object
  data_step m bytes w f s = ground arith

  pub entered-IsValid :
      (m : Context W)
      → IsValid m
      → m.buffer_offset ≡ m.buffer_amount
      → m.binary_offset < m.binary_amount
      → IsValid (record m { status = write_binary })
  entered-IsValid m v e h = ground arith

  pub sent-IsValid :
      (m : Context W) (k : ℕ)
      → IsValid m
      → m.status ≡ write_buffer
      → m.buffer_offset + k ≤ m.buffer_amount
      → IsValid (record m { buffer_offset = m.buffer_offset + k })
  sent-IsValid m k v s h = ground arith

module _ {W : Type 0} {fn : WriteFn W} {out : W → List ℕ} (sink : IsSink fn out) where
  -- The callback's turn on the data, all of which are offered.
  pub binary_step :
      (m : Context W) (bytes : List ℕ) (old : ℕ) (w : W)
      → m.fn_write ≡ some fn
      → IsValid m
      → m.status ≡ write_binary
      → m.binary_amount - m.binary_offset ≡ length bytes
      → 0 < length bytes
      → let k = (fn w bytes).0 in
        let w' = (fn w bytes).1 in
        let m' : Context W = record m { binary_offset = m.binary_offset + k } in
        write_object_binary (some m) (some bytes) (length bytes) (some old) w ≡ (
          if m.binary_offset + k == m.binary_amount
          then (ok, some (record m' { status = build_buffer }), some k, w')
          else (partial_complete, some m', some k, w'))
  unfolding write_object_binary send_binary offer_binary
  binary_step m bytes old w f v s left more = ground (arith, take-all bytes, sink.count w bytes)

  pub header_step :
      (m : Context W) (bytes : List ℕ) (w : W)
      → m.fn_write ≡ some fn
      → IsValid m
      → m.status ≡ write_buffer
      → m.buffer_offset < m.buffer_amount
      → let k = (fn w (pending m)).0 in
        let w' = (fn w (pending m)).1 in
        let m' : Context W = record m { buffer_offset = m.buffer_offset + k } in
        write_object (some m) (some bytes) (length bytes) (some 0) w ≡ (
          if m.buffer_offset + k == m.buffer_amount
          then after_header m' bytes w'
          else (partial_complete, some m', some 0, w'))
  unfolding write_object write_object_buffer send_buffer write_object_rest
  header_step m bytes w f v s h = ground (arith, turn sink m w (fn w (pending m)).0 refl v h)
