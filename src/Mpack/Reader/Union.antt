-- ===== src/Mpack/Reader/Union.antt =====
-- The union of the reader's object: a member that was written is read back.
use apilib.Base.{
  ℕ, zero, suc, ◌^◌, ◌≤◌, ◌<◌, ◌≡◌, refl, ap, true, List, ◌∷◌, [], ◌++◌, take, get_or, overwrite,
  overwrite_at, length, arith,
}
use apilib.Base.{take-overwrite, length-overwrite, length-overwrite_at, ◌∙◌}
use mathlib.Core.List.{append_assoc}
use apilib.Base.Int.{ℤ, between, to_word}
use apilib.Base.Memory.{
  Host, big_host, little_host, big_bytes, memory, load, load-memory, length-memory,
}
use apilib.Mpack.Limits.{int64_min, int64_max, narrow64_lem, to_word64-lt}
use apilib.Mpack.Reader.{
  Object, i64, u64, u32, set_i64, set_u64, set_u32, ext_type, set_ext_type, byte, set_byte,
}

take-front {ℓ} : {A : Type ℓ} (xs ys : List A) → take (length xs) (xs ++ ys) ≡ xs
take-front [] ys = refl
take-front (x ∷ xs) ys = ap (λ t. x ∷ t) (take-front xs ys)

pub take-memory :
    (host : Host) (n x : ℕ) (tail : List ℕ) → take n (memory host n x ++ tail) ≡ memory host n x
take-memory host n x tail = rw (length-memory host n x) at (take-front (memory host n x) tail)

-- A number that stands at the front of an array is what is read there.
pub load-front :
    (host : Host) (n x : ℕ) (tail : List ℕ)
    → x < 256 ^ n
    → load host (take n (memory host n x ++ tail)) ≡ x
load-front host n x tail h = rw (take-memory host n x tail) (load-memory host n x h)

-- The same for one byte, in whichever order.
pub load-byte :
    (host : Host) (x : ℕ) (tail : List ℕ) → x < 256 → load host (take 1 (big_bytes 1 x ++ tail)) ≡ x
load-byte big_host x tail h = load-front big_host 1 x tail h
load-byte little_host x tail h = load-front little_host 1 x tail h

-- The `n` bytes of a number that was written over the front of an array hold that number.
pub load-overwrite :
    (host : Host) (n x : ℕ) (d : List ℕ)
    → x < 256 ^ n
    → n ≤ length d
    → load host (take n (overwrite (memory host n x) d)) ≡ x
load-overwrite host n x d h k =
    let whole : take n (overwrite (memory host n x) d) ≡ memory host n x =
      rw (length-memory host n x) at
        (take-overwrite (memory host n x) d (omega (arith, length-memory host n x))) in
    rw whole (load-memory host n x h)

module _ (host : Host) (o : Object) (size : length o.store ≡ 8) where
  pub u64-set_u64 : (x : ℕ) → x < 2 ^ 64 → u64 host (set_u64 host x o) ≡ x
  u64-set_u64 x h = load-overwrite host 8 x o.store h (omega arith)

  pub u32-set_u32 : (x : ℕ) → x < 2 ^ 32 → u32 host (set_u32 host x o) ≡ x
  u32-set_u32 x h = load-overwrite host 4 x o.store h (omega arith)

  pub i64-set_i64 : (z : ℤ) → between int64_min int64_max z ≡ true → i64 host (set_i64 host z o) ≡ z
  i64-set_i64 z h =
      rw (load-overwrite host 8 (to_word 64 z) o.store (to_word64-lt z) (omega arith))
        (narrow64_lem z h)

get_or-overwrite_at :
    (i v : ℕ) (d : List ℕ) → i < length d → get_or (overwrite_at i (v ∷ []) d) i 0 ≡ v
get_or-overwrite_at i v [] h = absurd (omega arith)
get_or-overwrite_at zero v (x ∷ d) h = refl
get_or-overwrite_at (suc i) v (x ∷ d) h = get_or-overwrite_at i v d (omega arith)

take-overwrite_at : (i : ℕ) (bs d : List ℕ) → take i (overwrite_at i bs d) ≡ take i d
take-overwrite_at zero bs d = refl
take-overwrite_at (suc i) bs [] = refl
take-overwrite_at (suc i) bs (x ∷ d) = ap (λ t. x ∷ t) (take-overwrite_at i bs d)

-- `ext_type` stands behind `ext_size`: writing the one leaves the other.
pub ext_type-set_ext_type :
    (o : Object) (t : ℕ) → length o.store ≡ 8 → ext_type (set_ext_type t o) ≡ t
ext_type-set_ext_type o t size = get_or-overwrite_at 4 t o.store (omega arith)

pub u32-set_ext_type : (host : Host) (o : Object) (t : ℕ) → u32 host (set_ext_type t o) ≡ u32 host o
u32-set_ext_type host o t = ap (load host) (take-overwrite_at 4 (t ∷ []) o.store)

pub byte-set_byte : (v : ℕ) (o : Object) → length o.store ≡ 8 → byte (set_byte v o) ≡ v
byte-set_byte v o size = first o.store (omega arith)
  where
    first : (d : List ℕ) → 0 < length d → get_or (overwrite (v ∷ []) d) 0 0 ≡ v
    first [] h = absurd (omega arith)
    first (x ∷ d) h = refl

get_or-behind : (bs : List ℕ) (t : ℕ) (tail : List ℕ) → get_or (bs ++ (t ∷ tail)) (length bs) 0 ≡ t
get_or-behind [] t tail = refl
get_or-behind (b ∷ bs) t tail = get_or-behind bs t tail

-- The size and the type of an extension, read from digits that stand in the machine's order.
pub ext_read :
    (host : Host) (k n t : ℕ) (tail : List ℕ) (o : Object)
    → n < 256 ^ k
    → n < 2 ^ 32
    → length o.store ≡ 8
    → let d = (memory host k n ++ t ∷ []) ++ tail in
      let o' = set_ext_type (get_or d k 0) (set_u32 host (load host (take k d)) o) in
      (u32 host o' ≡ n) × (ext_type o' ≡ t) × (length o'.store ≡ 8)
ext_read host k n t tail o h h32 size =
    let behind : get_or (memory host k n ++ (t ∷ tail)) k 0 ≡ t =
      rw (length-memory host k n) at (get_or-behind (memory host k n) t tail) in
    let stored : length (set_u32 host n o).store ≡ 8 =
      length-overwrite (memory host 4 n) o.store ∙ size in
    rw append_assoc (
      rw (load-front host k n (t ∷ tail) h, behind)
        (
          u32-set_ext_type host (set_u32 host n o) t ∙ u32-set_u32 host o size n h32,
          ext_type-set_ext_type (set_u32 host n o) t stored,
          length-overwrite_at 4 (t ∷ []) (set_u32 host n o).store ∙ stored,
        ))
