-- ===== src/Mpack/Reader/Partial.antt =====
-- Reading from a callback that serves less than it is asked for: nothing is lost between calls.
use apilib.Base.{◌⊎◌, ℕ, ◌+◌, ◌-◌, ◌^◌, ◌≤◌, ◌<◌, ◌≡◌, ap, zero, suc, some, List, ◌∷◌, [], ◌++◌}
use apilib.Base.{
  take, drop, overwrite_at, length, take-append-drop, length-take, take-overwrite, arith,
}
use apilib.Mpack.Code.{Code, ok, error_not_enough_data}
use apilib.Mpack.Reader.{Context, ReadFn, process_number, receive_number}
use apilib.Mpack.Reader.Receive.{receive_number_step, receive_object_binary}
use mathlib.Core.List.{append_assoc}
use native.Mathlib.Nat.{zero-add}

-- The callback may come up short, but keeps the order of the stream.
pub record IsPartialSource {R : Type 0} (fn : ReadFn R) (content : R → List ℕ) : Type 0 where
  pub count : (r : R) (n : ℕ) → (fn r n).0 ≤ n
  pub held : (r : R) (n : ℕ) → (fn r n).0 ≤ length (content r)
  pub stored : (r : R) (n : ℕ) → (fn r n).1 ≡ take (fn r n).0 (content r)
  pub left : (r : R) (n : ℕ) → content (fn r n).2 ≡ drop (fn r n).0 (content r)

-- Bytes written behind the first `i` of an array extend these.
take-extended :
    (i : ℕ) (bs d : List ℕ)
    → i + length bs ≤ length d
    → take (i + length bs) (overwrite_at i bs d) ≡ take i d ++ bs
take-extended zero bs d h = rw zero-add (take-overwrite bs d (omega arith))
take-extended (suc i) bs [] h = absurd (omega arith)
take-extended (suc i) bs (x ∷ d) h =
    let e : suc i + length bs ≡ suc (i + length bs) = omega arith in
    rw e (ap (λ t. x ∷ t) (take-extended i bs d (omega arith)))

module _ {R : Type 0} {fn : ReadFn R} {content : R → List ℕ}
    (src : IsPartialSource fn content) where
  -- One turn of the callback: the bytes so far and those on the stream stay the same in all.
  turn :
      (r : R) (i n : ℕ) (d : List ℕ)
      → i + n ≤ length d
      → let k = (fn r n).0 in
        take (i + k) (overwrite_at i (fn r n).1 d) ++ content (fn r n).2 ≡ take i d ++ content r
  turn r i n d h =
      let k : ℕ = (fn r n).0 in
      let l : length (take k (content r)) ≡ k = length-take k (content r) (src.held r n) in
      let grown : take (i + k) (overwrite_at i (take k (content r)) d)
          ≡ take i d ++ take k (content r) =
        rw l at (take-extended i (take k (content r)) d (omega (arith, l, src.count r n))) in
      rw (src.stored r n, src.left r n, grown, append_assoc, take-append-drop)

  -- In a context that waits for at most ten digits and has no more than these, and whatever part
  -- of them its callback serves from the front of the stream to a call of `mpack_receive_number`,
  -- the digits it has and the bytes left on the stream make up what they made up before: a later
  -- call goes on where this one stopped. It returns `ok` exactly if it has all digits, and then
  -- the digits are due to be processed; otherwise it returns `error_not_enough_data` and the
  -- status stays.
  pub receive_number_resumes :
      (m : Context R) (r : R) {c : Code} {m' : Context R} {r' : R}
      → m.fn_read ≡ some fn
      → m.status ≡ receive_number
      → length m.number_data ≡ 10
      → m.number_need ≤ 10
      → m.number_read ≤ m.number_need
      → receive_number_step (some m) r ≡ (c, some m', r')
      → (take m'.number_read m'.number_data ++ content r'
          ≡ take m.number_read m.number_data ++ content r)
        × (m'.number_need ≡ m.number_need)
        × ((c ≡ ok) × (m'.number_read ≡ m.number_need) × (m'.status ≡ process_number)
            ⊎ (c ≡ error_not_enough_data)
              × (m'.number_read < m.number_need)
              × (m'.status ≡ receive_number))
  unfolding receive_number_step
  receive_number_resumes m r f s size small read e = ground (
    arith,
    src.count r (m.number_need - m.number_read),
    turn r m.number_read (m.number_need - m.number_read) m.number_data (omega arith),
  )

  -- Whatever part of an object's data the callback serves from the front of the stream to a call
  -- of `mpack_receive_object_binary`, into a buffer as large as its caller says and as the data
  -- need, the bytes it has and those left on the stream make up what they made up before. It
  -- returns `ok` exactly if it has all data, and otherwise `error_not_enough_data`.
  pub receive_binary_resumes :
      (m : Context R) (buffer : List ℕ) (size : ℕ) (r : R) {c : Code} {m' : Context R}
      {buffer' : List ℕ} {r' : R}
      → m.fn_read ≡ some fn
      → m.binary_need ≤ size
      → size ≤ length buffer
      → m.binary_need < 2 ^ 32
      → m.binary_read ≤ m.binary_need
      → receive_object_binary (some m) buffer size r ≡ (c, some m', buffer', r')
      → (take m'.binary_read buffer' ++ content r' ≡ take m.binary_read buffer ++ content r)
        × (m'.binary_need ≡ m.binary_need)
        × ((c ≡ ok) × (m'.binary_read ≡ m.binary_need)
            ⊎ (c ≡ error_not_enough_data) × (m'.binary_read < m.binary_need))
  unfolding receive_object_binary
  receive_binary_resumes m buffer size r f fits room word read e = ground (
    arith,
    src.count r (m.binary_need - m.binary_read),
    turn r m.binary_read (m.binary_need - m.binary_read) buffer (omega arith),
  )
