-- ===== src/Mpack/Reader/Source.antt =====
-- The contract of a reader's callback: it serves the bytes of one stream, in order.
use apilib.Base.{ℕ, ◌≤◌, ◌≡◌, List, take, drop, length}
use apilib.Mpack.Reader.{ReadFn}

-- `content r` is what the stream still holds. The callback never reports more than was asked for,
-- stores exactly what it reports, and comes up short only where the stream does.
pub record IsSource {R : Type 0} (fn : ReadFn R) (content : R → List ℕ) : Type 0 where
  pub count : (r : R) (n : ℕ) → (fn r n).0 ≤ n
  pub stored : (r : R) (n : ℕ) → (fn r n).1 ≡ take (fn r n).0 (content r)
  pub left : (r : R) (n : ℕ) → content (fn r n).2 ≡ drop (fn r n).0 (content r)
  pub full : (r : R) (n : ℕ) → n ≤ length (content r) → (fn r n).0 ≡ n
