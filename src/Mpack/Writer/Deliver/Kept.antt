-- ===== src/Mpack/Writer/Deliver/Kept.antt =====
-- What `mpack_write_object` never changes.
use apilib.Base.{ℕ, ◌≡◌, Option, none, some, List}
use apilib.Base.{arith}
use apilib.Mpack.Code.{Code, ok}
use apilib.Mpack.Writer.{Context, write_object, write_object_buffer, write_object_binary}
use apilib.Mpack.Writer.{write_object_rest, then_rest, send_buffer, send_binary, offer_binary}

-- The byte order and the callback of a context stay.
abbrev pub Kept : {W : Type 0} → Context W → Option (Context W) → Type 0
Kept m none = Unit
Kept m (some m') = (m'.endian ≡ m.endian) × (m'.fn_write ≡ m.fn_write)

pub write_object_buffer-Kept :
    {W : Type 0} (m : Context W) (w : W) → Kept m (write_object_buffer (some m) w).1
unfolding write_object_buffer send_buffer
write_object_buffer-Kept m w = ground arith

pub write_object_binary-Kept :
    {W : Type 0} (m : Context W) (bytes : Option (List ℕ)) (size : ℕ) (written : Option ℕ) (w : W)
    → Kept m (write_object_binary (some m) bytes size written w).1
unfolding write_object_binary send_binary offer_binary
write_object_binary-Kept m none size written w = ground arith
write_object_binary-Kept m (some bytes) size written w = ground arith

pub write_object_rest-Kept :
    {W : Type 0} (m : Context W) (p : Option (Context W)) (bytes : Option (List ℕ)) (size : ℕ)
    (written : Option ℕ) (w : W)
    → Kept m p
    → Kept m (write_object_rest p bytes size written w).1
unfolding write_object_rest
write_object_rest-Kept m none bytes size written w h = tt
write_object_rest-Kept m (some m') bytes size written w h =
    ground (arith, write_object_binary-Kept m' bytes size written w)

pub then_rest-Kept :
    {W : Type 0} (m : Context W) (r : Code × Option (Context W) × W) (bytes : Option (List ℕ))
    (size : ℕ) (written : Option ℕ)
    → Kept m r.1
    → Kept m (then_rest r bytes size written).1
then_rest-Kept m (ok, p, w) bytes size written h = write_object_rest-Kept m p bytes size written w h
then_rest-Kept m (_, p, w) bytes size written h = h

pub write_object-Kept :
    {W : Type 0} (m : Context W) (bytes : Option (List ℕ)) (size : ℕ) (written : Option ℕ) (w : W)
    → Kept m (write_object (some m) bytes size written w).1
unfolding write_object
write_object-Kept m bytes size written w = ground (
  arith,
  then_rest-Kept m (write_object_buffer (some m) w) bytes size written
      (write_object_buffer-Kept m w),
  write_object_binary-Kept m bytes size written w,
)
