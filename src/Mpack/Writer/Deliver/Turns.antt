-- ===== src/Mpack/Writer/Deliver/Turns.antt =====
-- What a call of `mpack_write_object` comes to that is offered all the data left.
use apilib.Base.{
  ℕ, ◌+◌, ◌-◌, ◌≤◌, ◌<◌, ◌≡◌, refl, sym, ap, ◌∙◌, inl, inr, some, List, ◌∷◌, [], ◌++◌,
}
use apilib.Base.{length, arith, take-append-drop, length-drop}
use apilib.Mpack.Writer.{Context, WriteFn, write_object, write_object_binary}
use apilib.Mpack.Writer.{write_buffer, write_binary, build_buffer}
use apilib.Mpack.Writer.Invariant.{IsValid}
use apilib.Mpack.Writer.Resume.{IsLive, taken}
use apilib.Mpack.Writer.Sink.{IsSink, pending, turn}
use native.Mathlib.Decide.{ℕ_discrete}
use mathlib.Core.List.{append-nil, append_assoc}
use apilib.Mpack.Writer.Deliver.Steps.{
  take-all, IsSending, todo, binary_step, Served, nothing_pending, data_due, grown-IsValid,
  after_header, header_step, header_done, data_step, entered-IsValid, sent-IsValid,
}

module _ {W : Type 0} {fn : WriteFn W} {out : W → List ℕ} (sink : IsSink fn out)
    (live : IsLive fn) where
  -- A turn on the data.
  pub data_turn :
      (m : Context W) (bytes total : List ℕ) (old limit : ℕ) (w : W)
      → m.fn_write ≡ some fn
      → IsValid m
      → m.status ≡ write_binary
      → m.binary_amount - m.binary_offset ≡ length bytes
      → out w ++ bytes ≡ total
      → length bytes ≤ limit
      → Served fn out
          (write_object_binary (some m) (some bytes) (length bytes) (some old) w)
          bytes
          total
          limit
  data_turn m bytes total old limit w f v s left all enough =
      let k : ℕ = (fn w bytes).0 in
      let w1 : W = (fn w bytes).1 in
      let m1 : Context W = record m { binary_offset = m.binary_offset + k } in
      let (sent_buffer, due) = data_due m v s in
      let more : 0 < length bytes = omega (arith, left, due) in
      let some_taken : 0 < k = live w bytes more in
      let fits : k ≤ length bytes = sink.count w bytes in
      let r = binary_step sink m bytes old w f v s left more in
      elim (ℕ_discrete (m.binary_offset + k) m.binary_amount) [
        | yes e ↦
            let every : k ≡ length bytes = omega arith in
            (
              record m1 { status = build_buffer },
              k,
              w1,
              inl (ground (arith, r), rw (sink.sent w bytes, every, take-all bytes) all, refl),
            )
        | no ne ↦ (
          m1,
          k,
          w1,
          inr (
            ground (arith, r),
            rw
                (
                  nothing_pending m1 sent_buffer,
                  sink.sent w bytes,
                  append_assoc,
                  take-append-drop k bytes,
                )
                all,
            record {
              callback = f;
              valid = grown-IsValid m k v s (omega arith);
              due = inr s;
              left = omega (arith, length-drop k bytes fits);
            },
            omega (arith, length-drop k bytes fits),
          ),
        )
      ]

  pub after_turn :
      (m : Context W) (bytes total : List ℕ) (limit : ℕ) (w : W)
      → m.fn_write ≡ some fn
      → IsValid m
      → m.buffer_offset ≡ m.buffer_amount
      → m.binary_amount - m.binary_offset ≡ length bytes
      → out w ++ bytes ≡ total
      → length bytes ≤ limit
      → Served fn out (after_header m bytes w) bytes total limit
  after_turn m [] total limit w f v sent left all enough =
      let same : m.binary_amount ≡ m.binary_offset = omega (arith, v.binary_in) in
      (
        record m { status = build_buffer },
        0,
        w,
        inl (ground arith, sym (append-nil (out w)) ∙ all, refl),
      )
  after_turn m (b ∷ bytes) total limit w f v sent left all enough =
      let m2 : Context W = record m { status = write_binary } in
      let more : m.binary_offset < m.binary_amount = omega arith in
      let e : after_header m (b ∷ bytes) w
          ≡ write_object_binary (some m2) (some (b ∷ bytes)) (length (b ∷ bytes)) (some 0) w =
        ground arith in
      rw e (
        data_turn m2 (b ∷ bytes) total 0 limit w f (entered-IsValid m v sent more) refl left all
          enough)

  pub header_turn :
      (m : Context W) (bytes : List ℕ) (w : W)
      → m.fn_write ≡ some fn
      → IsValid m
      → m.status ≡ write_buffer
      → m.binary_amount - m.binary_offset ≡ length bytes
      → m.buffer_offset < m.buffer_amount
      → Served fn out
          (write_object (some m) (some bytes) (length bytes) (some 0) w)
          bytes
          (out w ++ (pending m ++ bytes))
          (todo m bytes)
  header_turn m bytes w f v s left h =
      let k : ℕ = (fn w (pending m)).0 in
      let w1 : W = (fn w (pending m)).1 in
      let m1 : Context W = record m { buffer_offset = m.buffer_offset + k } in
      let (some_sent, fits) = taken sink live m w v h in
      let v1 : IsValid m1 = sent-IsValid m k v s fits in
      let r = header_step sink m bytes w f v s h in
      let kept : out w1 ++ pending m1 ≡ out w ++ pending m = (turn sink m w k refl v h).1 in
      let all : out w1 ++ (pending m1 ++ bytes) ≡ out w ++ (pending m ++ bytes) =
        sym (append_assoc (out w1) (pending m1) bytes)
        ∙ ap (λ t. t ++ bytes) kept
        ∙ append_assoc (out w) (pending m) bytes in
      elim (ℕ_discrete (m.buffer_offset + k) m.buffer_amount) [
        | yes e ↦
            let done : write_object (some m) (some bytes) (length bytes) (some 0) w
                ≡ after_header m1 bytes w1 =
              ground (arith, r) in
            rw done (
              after_turn m1 bytes _ (todo m bytes) w1 f v1 e left (rw (nothing_pending m1 e) at all)
                (omega arith))
        | no ne ↦ (
          m1,
          0,
          w1,
          inr (
            ground (arith, r),
            all,
            record { callback = f; valid = v1; due = inl s; left = left },
            omega arith,
          ),
        )
      ]

  -- One call of the client.
  pub call_turn :
      (m : Context W) (bytes : List ℕ) (w : W)
      → IsSending fn m bytes
      → Served fn out
          (write_object (some m) (some bytes) (length bytes) (some 0) w)
          bytes
          (out w ++ (pending m ++ bytes))
          (todo m bytes)
  call_turn m bytes w is = elim is.due [
    | inl s ↦ elim (ℕ_discrete m.buffer_offset m.buffer_amount) [
      | yes e ↦ rw (header_done m bytes w is.callback s e) (
          after_turn m bytes _ (todo m bytes) w is.callback is.valid e is.left
            (rw (nothing_pending m e)) (omega arith))
      | no ne ↦
          header_turn m bytes w is.callback is.valid s is.left (omega (arith, is.valid.buffer_in))
    ]
    | inr s ↦
        let (e, due) = data_due m is.valid s in
        rw (data_step m bytes w is.callback s) (
          data_turn m bytes _ 0 (todo m bytes) w is.callback is.valid s is.left
            (rw (nothing_pending m e)) (omega arith))
  ]
