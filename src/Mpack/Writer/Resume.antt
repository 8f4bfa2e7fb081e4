-- ===== src/Mpack/Writer/Resume.antt =====
-- A client that repeats `mpack_write_object` while the object is written in part.
use apilib.Base.{ℕ, zero, suc, ◌+◌, ◌-◌, ◌≤◌, ◌<◌, ◌≡◌, refl, Option, none, some, List, ◌++◌, ◌∙◌}
use apilib.Base.{sym, length-take, length-drop, length, drop, arith, ◌==◌, if◌then◌else◌}
use apilib.Mpack.Code.{Code, ok, partial_complete}
use apilib.Mpack.Writer.{Context, WriteFn, write_object, write_object_buffer, write_object_rest}
use apilib.Mpack.Writer.{send_buffer, write_buffer, build_buffer}
use apilib.Mpack.Writer.Invariant.{IsValid}
use apilib.Mpack.Writer.Sink.{IsSink, pending, turn}
use mathlib.Core.List.{append-nil}
use native.Mathlib.Decide.{ℕ_discrete}

-- At most so many calls, with no data to add.
unfoldable pub resume : {W : Type 0} → ℕ → Option (Context W) → W → Code × Option (Context W) × W
resume zero p w = (partial_complete, p, w)
resume (suc n) p w =
    let (c, p', written, w') = write_object p none 0 none w in
    elim c [ partial_complete ↦ resume n p' w' | other ↦ (other, p', w') ]

-- Whatever is offered, the callback takes some of it.
abbrev pub IsLive : {W : Type 0} → WriteFn W → Type 0
IsLive {W} fn = (w : W) (bytes : List ℕ) → 0 < length bytes → 0 < (fn w bytes).0

-- The context when the whole header is out.
abbrev pub finished : {W : Type 0} → Context W → Context W
finished m = record m { status = build_buffer; buffer_offset = m.buffer_amount }

module _ {W : Type 0} {fn : WriteFn W} {out : W → List ℕ} (sink : IsSink fn out)
    (live : IsLive fn) where
  -- A call in the midst of a header sends at least a byte.
  step :
      (m : Context W) (w : W)
      → m.fn_write ≡ some fn
      → IsValid m
      → m.status ≡ write_buffer
      → m.binary_amount ≡ m.binary_offset
      → m.buffer_offset < m.buffer_amount
      → let k = (fn w (pending m)).0 in
        let w' = (fn w (pending m)).1 in
        let m' : Context W = record m { buffer_offset = m.buffer_offset + k } in
        write_object (some m) none 0 none w ≡ (
          if m.buffer_offset + k == m.buffer_amount
          then (ok, some (record m' { status = build_buffer }), none, w')
          else (partial_complete, some m', none, w'))
  unfolding write_object write_object_buffer send_buffer write_object_rest
  step m w f v s b h = ground (arith, turn sink m w (fn w (pending m)).0 refl v h)

  still-IsValid :
      (m : Context W) (k : ℕ)
      → IsValid m
      → m.status ≡ write_buffer
      → m.buffer_offset + k ≤ m.buffer_amount
      → IsValid (record m { buffer_offset = m.buffer_offset + k })
  still-IsValid m k v s h = ground arith

  -- Such a call is not in vain, and never takes more than there is.
  pub taken :
      (m : Context W) (w : W)
      → IsValid m
      → m.buffer_offset < m.buffer_amount
      → let k = (fn w (pending m)).0 in (0 < k) × (m.buffer_offset + k ≤ m.buffer_amount)
  taken m w v h =
      let rest : List ℕ = drop m.buffer_offset m.buffer_data in
      let size : ℕ = m.buffer_amount - m.buffer_offset in
      let enough : size ≤ length rest =
        omega (arith, v.size, length-drop m.buffer_offset m.buffer_data (omega (arith, v.size))) in
      let offered : 0 < length (pending m) = omega (arith, length-take size rest enough) in
      (live w (pending m) offered, omega (arith, (turn sink m w _ refl v h).0))

  -- The last call of a header, and one that leaves something.
  last_sent :
      (m : Context W) (w : W)
      → IsValid m
      → m.buffer_offset < m.buffer_amount
      → m.buffer_offset + (fn w (pending m)).0 ≡ m.buffer_amount
      → out (fn w (pending m)).1 ≡ out w ++ pending m
  last_sent m w v h e =
      let none_left : m.buffer_amount - (m.buffer_offset + (fn w (pending m)).0) ≡ 0 =
        omega arith in
      sym (append-nil _) ∙ (rw none_left at ((turn sink m w _ refl v h).1))

  -- While a header is being written, with no data behind it, a client that calls
  -- `mpack_write_object` as often as the header has bytes left has it written: the result is `ok`,
  -- exactly the outstanding bytes were appended to the stream, and the context is ready for the
  -- next object.
  pub resume_delivers :
      (n : ℕ) (m : Context W) (w : W)
      → m.fn_write ≡ some fn
      → IsValid m
      → m.status ≡ write_buffer
      → m.binary_amount ≡ m.binary_offset
      → m.buffer_offset < m.buffer_amount
      → m.buffer_amount - m.buffer_offset ≤ n
      → (w' : W) × (resume n (some m) w ≡ (ok, some (finished m), w'))
        × (out w' ≡ out w ++ pending m)
  unfolding resume
  resume_delivers zero m w f v s b h enough = absurd (omega arith)
  resume_delivers (suc n) m w f v s b h enough =
      let k : ℕ = (fn w (pending m)).0 in
      let w1 : W = (fn w (pending m)).1 in
      let m1 : Context W = record m { buffer_offset = m.buffer_offset + k } in
      let (some_sent, fits) = taken m w v h in
      elim (ℕ_discrete (m.buffer_offset + k) m.buffer_amount) [
        | yes e ↦ (w1, ground (arith, step m w f v s b h), last_sent m w v h e)
        | no ne ↦
            let (w', r, o) =
              resume_delivers n m1 w1 f (still-IsValid m k v s fits) s b (omega arith)
                (omega arith) in
            (w', ground (arith, step m w f v s b h, r), o ∙ (turn sink m w k refl v h).1)
      ]
