-- ===== src/Mpack/Writer/Deliver.antt =====
-- A client that has an object with data written: it repeats `mpack_write_object` with the data that
-- are left while the object is written in part.
pub mod Kept
pub mod Steps
pub mod Turns
use apilib.Base.{
  ℕ, zero, suc, ◌+◌, ◌-◌, ◌≤◌, ◌<◌, ◌≡◌, refl, sym, ap, ◌∙◌, ◌⊎◌, inl, inr, Option, none, some,
  List, ◌∷◌, [], ◌++◌,
}
use apilib.Base.{take, drop, length, arith, take-append-drop, length-drop, ◌==◌, if◌then◌else◌}
use apilib.Mpack.Code.{Code, ok, partial_complete}
use apilib.Mpack.Writer.{Context, WriteFn, write_object, write_object_buffer, write_object_binary}
use apilib.Mpack.Writer.{
  write_object_rest, then_rest, send_buffer, send_binary, offer_binary, write_buffer, write_binary,
  build_buffer,
}
use apilib.Mpack.Writer.Invariant.{IsValid, write_object-Valid}
use apilib.Mpack.Writer.Resume.{IsLive, taken}
use apilib.Mpack.Writer.Sink.{IsSink, pending, turn}
use native.Mathlib.Decide.{ℕ_discrete}
use mathlib.Core.List.{append-nil, append_assoc}
use apilib.Mpack.Writer.Deliver.Kept.{write_object-Kept}
use apilib.Mpack.Writer.Deliver.Steps.{IsSending, todo}
use apilib.Mpack.Writer.Deliver.Turns.{call_turn}

abbrev unsent : Option ℕ → List ℕ → List ℕ
unsent none bytes = bytes
unsent (some k) bytes = drop k bytes

-- The client offers all that is left of the data, and drops what a call reports as written.
unfoldable pub deliver :
    {W : Type 0} → ℕ → Option (Context W) → List ℕ → W → Code × Option (Context W) × W
deliver zero p bytes w = (partial_complete, p, w)
deliver (suc n) p bytes w =
    let (c, p', written, w') = write_object p (some bytes) (length bytes) (some 0) w in
    elim c [ partial_complete ↦ deliver n p' (unsent written bytes) w' | other ↦ (other, p', w') ]

module _ {W : Type 0} {fn : WriteFn W} {out : W → List ℕ} (sink : IsSink fn out)
    (live : IsLive fn) where
  -- While an object is being written, over a stream that takes something of whatever it is offered,
  -- a client that calls `mpack_write_object` with the data that
  -- are left, once more than bytes of the header and of the data are left, has it all written: the
  -- result is `ok`, exactly the outstanding bytes of the header and the data were appended to the
  -- stream, and the context is valid and between two objects.
  pub deliver-sends :
      (n : ℕ) (m : Context W) (bytes : List ℕ) (w : W)
      → IsSending fn m bytes
      → todo m bytes < n
      → (m' : Context W) × (w' : W) × (deliver n (some m) bytes w ≡ (ok, some m', w'))
        × (out w' ≡ out w ++ (pending m ++ bytes))
        × (m'.status ≡ build_buffer)
        × IsValid m'
        × (m'.endian ≡ m.endian)
        × (m'.fn_write ≡ m.fn_write)
  unfolding deliver
  deliver-sends zero m bytes w is enough = absurd (omega arith)
  deliver-sends (suc n) m bytes w is enough =
      let (m1, k, w1, served) = call_turn sink live m bytes w is in
      let valid = write_object-Valid (some m) (some bytes) (length bytes) (some 0) w is.valid in
      let kept = write_object-Kept m (some bytes) (length bytes) (some 0) w in
      elim served [
        | inl (r, all, s) ↦
            (m1, w1, ground (arith, r), all, s, rw r at valid, (rw r at kept).0, (rw r at kept).1)
        | inr (r, all, is1, less) ↦
            let (m', w', e, o, s, v, endian, callback) =
              deliver-sends n m1 (drop k bytes) w1 is1 (omega arith) in
            (
              m',
              w',
              ground (arith, r, e),
              o ∙ all,
              s,
              v,
              endian ∙ (rw r at kept).0,
              callback ∙ (rw r at kept).1,
            )
      ]
