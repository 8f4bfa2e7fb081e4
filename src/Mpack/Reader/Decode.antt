-- ===== src/Mpack/Reader/Decode.antt =====
-- Reading what `mpack_receive_object` is given in one go: the object that its bytes encode.
use apilib.Base.{
  ℕ, ◌%◌, ◌+◌, ◌-◌, ◌^◌, ◌<◌, ◌≡◌, inl, inr, refl, sym, ap, ◌∙◌, Bool, true, false, ◌&&◌, leb,
}
use apilib.Base.{List, ◌∷◌, [], ◌++◌, take, drop, get_or, overwrite, length, arith}
use apilib.Base.{length-append, length-overwrite}
use apilib.Base.Int.{pos, negsuc, of_word, to_word}
use apilib.Base.Memory.{Host, big_host, little_host, memory, load, big_bytes, length-memory}
use apilib.Mpack.Code.{ObjectType}
use apilib.Mpack.Limits.{of_word08-between, of_word16-between, of_word32-between, of_word64-between}
use apilib.Mpack.Limits.{of_word-fixint_positive, of_word-fixint_negative}
use apilib.Mpack.Reader.{
  Context, ReadFn, Object, receive_format, set_i64, set_u64, set_u32, set_byte,
}
use apilib.Mpack.Reader.{set_bytes, set_ext_type}
use apilib.Mpack.Reader.Digits.{decode_short, decode_long, decode_number8, decode_number16}
use apilib.Mpack.Reader.Digits.{
  decode_number32, decode_number64, swapped_number16, swapped_number32, swapped_number64,
}
use apilib.Mpack.Reader.Format.{process_format_some, process_format_sized, process_format_tail}
use apilib.Mpack.Reader.Masks.{
  process-fixint_positive, process-fixint_negative, process-fixarray, process-fixmap,
  process-fixstr,
}
use apilib.Mpack.Reader.Meaning.{Holds, IsReader, Decoded}
use apilib.Mpack.Reader.Number.{fill, process_number_some, process_number_int, process_number_tail}
use apilib.Mpack.Reader.Source.{IsSource}
use apilib.Mpack.Reader.Steps.{full}
use apilib.Mpack.Reader.Union.{u64-set_u64, u32-set_u32, i64-set_i64, load-overwrite, take-memory}
use apilib.Mpack.Reader.Union.{ext_read, byte-set_byte}
use mathlib.Core.List.{append_assoc}
use apilib.Mpack.Wire.{Item, Encodes}

-- The header is one of the five for extensions of a fixed size.
abbrev pub is_fixext : List ℕ → Bool
is_fixext [] = false
is_fixext (b ∷ bs) = leb 0xd4 b && leb b 0xd8

one_byte :
    (host : Host) (n t : ℕ) (tail : List ℕ)
    → n % 256 ∷ t ∷ tail ≡ (memory host 1 n ++ t ∷ []) ++ tail
one_byte big_host n t tail = refl
one_byte little_host n t tail = refl

module _ {R : Type 0} {fn : ReadFn R} {content : R → List ℕ} (src : IsSource fn content)
    (host : Host) (m : Context R) (r : R) (start : m.status ≡ receive_format)
    (is : IsReader host fn m) (rest : List ℕ) where
  kept : (bs d : List ℕ) → length d ≡ 8 → length (overwrite bs d) ≡ 8
  kept bs d h = length-overwrite bs d ∙ h

  ext_size : (k n t : ℕ) → length (memory host k n ++ t ∷ []) ≡ k + 1
  ext_size k n t = omega (arith, length-append (memory host k n) (t ∷ []), length-memory host k n)

  ext-Holds :
      (k n t : ℕ) (tail : List ℕ)
      → n < 256 ^ k
      → n < 2 ^ 32
      → let d = (memory host k n ++ t ∷ []) ++ tail in
        let o = m.object in
        let o' : Object =
          set_ext_type
            (get_or d k 0)
            (set_u32 host (load host (take k d)) (record o { type = ObjectType.ext })) in
        Holds host (Item.ext n t) o' × (length o'.store ≡ 8)
  ext-Holds k n t tail h h32 =
      let (size, type, stored) = ext_read host k n t tail m.object h h32 is.store_size in
      ((refl, size, type), stored)

  refilled :
      (k n t : ℕ) (tail : List ℕ) (g : List ℕ → Object → Object) (m' : Context R)
      → fill g (record m' { number_data = memory host k n ++ (t ∷ tail) })
        ≡ fill g (record m' { number_data = (memory host k n ++ t ∷ []) ++ tail })
  refilled k n t tail g m' =
      ap (λ d. fill g (record m' { number_data = d }))
        (sym (append_assoc (memory host k n) (t ∷ []) tail))

  -- In a context that is ready for a new object and of the machine's byte order, over a stream
  -- that begins with a header of the MessagePack format and serves it, `mpack_receive_object`
  -- returns `ok`, takes exactly that header off the stream, and leaves the object that the header
  -- encodes, on either kind of machine; `binary_need` is what it was. The five headers for
  -- extensions of a fixed size are excepted.
  pub decode :
      {bs : List ℕ} {it : Item}
      → Encodes bs it
      → is_fixext bs ≡ false
      → content r ≡ bs ++ rest
      → Decoded host fn content it rest m r
  unfolding process_format_some process_format_sized process_format_tail process_number_some
      process_number_int process_number_tail
  decode (Encodes.fixint_positive n h) _ e =
      decode_short src host m r start is (Item.int (pos n)) rest n ObjectType.int
        (set_i64 host (of_word 8 n)) e (process-fixint_positive host m n h)
        (inl (
          refl,
          i64-set_i64 host m.object is.store_size (of_word 8 n) (of_word08-between n (omega arith))
              ∙ of_word-fixint_positive n h,
        ))
        (kept (memory host 8 (to_word 64 (of_word 8 n))) m.object.store is.store_size)
  decode (Encodes.fixint_negative n h) _ e =
      decode_short src host m r start is (Item.int (negsuc (31 - n))) rest (0xe0 + n) ObjectType.int
        (set_i64 host (of_word 8 (0xe0 + n))) e (process-fixint_negative host m n h)
        (inl (
          refl,
          i64-set_i64 host m.object is.store_size (of_word 8 (0xe0 + n))
                (of_word08-between (0xe0 + n) (omega arith))
              ∙ of_word-fixint_negative n h,
        ))
        (kept (memory host 8 (to_word 64 (of_word 8 (0xe0 + n)))) m.object.store is.store_size)
  decode Encodes.nil_byte _ e =
      decode_short src host m r start is Item.nil rest 0xc0 ObjectType.nil (λ o. o) e refl refl
        is.store_size
  decode Encodes.false_byte _ e =
      decode_short src host m r start is (Item.bool false) rest 0xc2 ObjectType.bool (set_byte 0) e
        refl (refl, ground (arith, byte-set_byte 0 m.object is.store_size))
        (kept (0 ∷ []) m.object.store is.store_size)
  decode Encodes.true_byte _ e =
      decode_short src host m r start is (Item.bool true) rest 0xc3 ObjectType.bool (set_byte 1) e
        refl (refl, ground (arith, byte-set_byte 1 m.object is.store_size))
        (kept (1 ∷ []) m.object.store is.store_size)
  decode (Encodes.float32 x h) _ e =
      decode_long src host m r start is (Item.float x) rest 0xca ObjectType.float (big_bytes 4 x)
        (memory host 4 x) (λ d. set_bytes (take 4 d)) (omega arith) (omega arith)
        (length-memory host 4 x) e refl
        (swapped_number32 host x (drop 4 m.number_data) (λ d. set_bytes (take 4 d))
          (full 0xca ObjectType.float (big_bytes 4 x) m) is.native refl)
        (rw (take-memory host 4 x (drop 4 m.number_data)) (
          (refl, load-overwrite host 4 x m.object.store h (omega (arith, is.store_size))),
          kept _ m.object.store is.store_size,
        ))
  decode (Encodes.float64 x h) _ e =
      decode_long src host m r start is (Item.double x) rest 0xcb ObjectType.double (big_bytes 8 x)
        (memory host 8 x) (λ d. set_bytes (take 8 d)) (omega arith) (omega arith)
        (length-memory host 8 x) e refl
        (swapped_number64 host x (drop 8 m.number_data) (λ d. set_bytes (take 8 d))
          (full 0xcb ObjectType.double (big_bytes 8 x) m) is.native refl)
        (rw (take-memory host 8 x (drop 8 m.number_data)) (
          (refl, load-overwrite host 8 x m.object.store h (omega (arith, is.store_size))),
          kept _ m.object.store is.store_size,
        ))
  decode (Encodes.uint8 x h) _ e =
      decode_number8 src host m r start is (Item.int (pos x)) rest 0xcc ObjectType.uint x
        (set_u64 host) h e refl refl
        (inr (refl, ap pos (u64-set_u64 host m.object is.store_size x (omega arith))))
        (kept _ m.object.store is.store_size)
  decode (Encodes.uint16 x h) _ e =
      decode_number16 src host m r start is (Item.int (pos x)) rest 0xcd ObjectType.uint x
        (set_u64 host) h e refl refl
        (inr (refl, ap pos (u64-set_u64 host m.object is.store_size x (omega arith))))
        (kept _ m.object.store is.store_size)
  decode (Encodes.uint32 x h) _ e =
      decode_number32 src host m r start is (Item.int (pos x)) rest 0xce ObjectType.uint x
        (set_u64 host) h e refl refl
        (inr (refl, ap pos (u64-set_u64 host m.object is.store_size x (omega arith))))
        (kept _ m.object.store is.store_size)
  decode (Encodes.uint64 x h) _ e =
      decode_number64 src host m r start is (Item.int (pos x)) rest 0xcf ObjectType.uint x
        (set_u64 host) h e refl refl
        (inr (refl, ap pos (u64-set_u64 host m.object is.store_size x (omega arith))))
        (kept _ m.object.store is.store_size)
  decode (Encodes.int8 x h) _ e =
      decode_number8 src host m r start is (Item.int (of_word 8 x)) rest 0xd0 ObjectType.int x
        (λ v. set_i64 host (of_word 8 v)) h e refl refl
        (inl (refl, i64-set_i64 host m.object is.store_size (of_word 8 x) (of_word08-between x h)))
        (kept _ m.object.store is.store_size)
  decode (Encodes.int16 x h) _ e =
      decode_number16 src host m r start is (Item.int (of_word 16 x)) rest 0xd1 ObjectType.int x
        (λ v. set_i64 host (of_word 16 v)) h e refl refl
        (inl (refl, i64-set_i64 host m.object is.store_size (of_word 16 x) (of_word16-between x h)))
        (kept _ m.object.store is.store_size)
  decode (Encodes.int32 x h) _ e =
      decode_number32 src host m r start is (Item.int (of_word 32 x)) rest 0xd2 ObjectType.int x
        (λ v. set_i64 host (of_word 32 v)) h e refl refl
        (inl (refl, i64-set_i64 host m.object is.store_size (of_word 32 x) (of_word32-between x h)))
        (kept _ m.object.store is.store_size)
  decode (Encodes.int64 x h) _ e =
      decode_number64 src host m r start is (Item.int (of_word 64 x)) rest 0xd3 ObjectType.int x
        (λ v. set_i64 host (of_word 64 v)) h e refl refl
        (inl (refl, i64-set_i64 host m.object is.store_size (of_word 64 x) (of_word64-between x h)))
        (kept _ m.object.store is.store_size)
  decode (Encodes.str8 n h) _ e =
      decode_number8 src host m r start is (Item.str n) rest 0xd9 ObjectType.str n (set_u32 host) h
        e refl refl (refl, u32-set_u32 host m.object is.store_size n (omega arith))
        (kept _ m.object.store is.store_size)
  decode (Encodes.str16 n h) _ e =
      decode_number16 src host m r start is (Item.str n) rest 0xda ObjectType.str n (set_u32 host) h
        e refl refl (refl, u32-set_u32 host m.object is.store_size n (omega arith))
        (kept _ m.object.store is.store_size)
  decode (Encodes.str32 n h) _ e =
      decode_number32 src host m r start is (Item.str n) rest 0xdb ObjectType.str n (set_u32 host) h
        e refl refl (refl, u32-set_u32 host m.object is.store_size n (omega arith))
        (kept _ m.object.store is.store_size)
  decode (Encodes.bin8 n h) _ e =
      decode_number8 src host m r start is (Item.bin n) rest 0xc4 ObjectType.bin n (set_u32 host) h
        e refl refl (refl, u32-set_u32 host m.object is.store_size n (omega arith))
        (kept _ m.object.store is.store_size)
  decode (Encodes.bin16 n h) _ e =
      decode_number16 src host m r start is (Item.bin n) rest 0xc5 ObjectType.bin n (set_u32 host) h
        e refl refl (refl, u32-set_u32 host m.object is.store_size n (omega arith))
        (kept _ m.object.store is.store_size)
  decode (Encodes.bin32 n h) _ e =
      decode_number32 src host m r start is (Item.bin n) rest 0xc6 ObjectType.bin n (set_u32 host) h
        e refl refl (refl, u32-set_u32 host m.object is.store_size n (omega arith))
        (kept _ m.object.store is.store_size)
  decode (Encodes.array16 n h) _ e =
      decode_number16 src host m r start is (Item.array n) rest 0xdc ObjectType.array n
        (set_u32 host) h e refl refl (refl, u32-set_u32 host m.object is.store_size n (omega arith))
        (kept _ m.object.store is.store_size)
  decode (Encodes.array32 n h) _ e =
      decode_number32 src host m r start is (Item.array n) rest 0xdd ObjectType.array n
        (set_u32 host) h e refl refl (refl, u32-set_u32 host m.object is.store_size n (omega arith))
        (kept _ m.object.store is.store_size)
  decode (Encodes.map16 n h) _ e =
      decode_number16 src host m r start is (Item.map n) rest 0xde ObjectType.map n (set_u32 host) h
        e refl refl (refl, u32-set_u32 host m.object is.store_size n (omega arith))
        (kept _ m.object.store is.store_size)
  decode (Encodes.map32 n h) _ e =
      decode_number32 src host m r start is (Item.map n) rest 0xdf ObjectType.map n (set_u32 host) h
        e refl refl (refl, u32-set_u32 host m.object is.store_size n (omega arith))
        (kept _ m.object.store is.store_size)
  decode (Encodes.fixstr n h) _ e =
      decode_short src host m r start is (Item.str n) rest (0xa0 + n) ObjectType.str
        (set_u32 host n) e (process-fixstr host m n h)
        (refl, u32-set_u32 host m.object is.store_size n (omega arith))
        (kept _ m.object.store is.store_size)
  decode (Encodes.fixarray n h) _ e =
      decode_short src host m r start is (Item.array n) rest (0x90 + n) ObjectType.array
        (set_u32 host n) e (process-fixarray host m n h)
        (refl, u32-set_u32 host m.object is.store_size n (omega arith))
        (kept _ m.object.store is.store_size)
  decode (Encodes.fixmap n h) _ e =
      decode_short src host m r start is (Item.map n) rest (0x80 + n) ObjectType.map
        (set_u32 host n) e (process-fixmap host m n h)
        (refl, u32-set_u32 host m.object is.store_size n (omega arith))
        (kept _ m.object.store is.store_size)
  decode (Encodes.fixext1 t h) other e = cc
  decode (Encodes.fixext2 t h) other e = cc
  decode (Encodes.fixext4 t h) other e = cc
  decode (Encodes.fixext8 t h) other e = cc
  decode (Encodes.fixext16 t h) other e = cc
  decode (Encodes.ext8 n t h ht) _ e =
      decode_long src host m r start is (Item.ext n t) rest 0xc7 ObjectType.ext
        (big_bytes 1 n ++ t ∷ []) (memory host 1 n ++ t ∷ [])
        (λ d o. set_ext_type (get_or d 1 0) (set_u32 host (load host (take 1 d)) o)) (omega arith)
        (omega arith) (ext_size 1 n t) e refl
        (ap
          (λ d.
            fill (λ d' o. set_ext_type (get_or d' 1 0) (set_u32 host (load host (take 1 d')) o))
              (let m' = full 0xc7 ObjectType.ext (big_bytes 1 n ++ t ∷ []) m in
                record m' { number_data = d }))
          (one_byte host n t (drop 2 m.number_data)))
        (ext-Holds 1 n t (drop 2 m.number_data) h (omega arith))
  decode (Encodes.ext16 n t h ht) _ e =
      decode_long src host m r start is (Item.ext n t) rest 0xc8 ObjectType.ext
        (big_bytes 2 n ++ t ∷ []) (memory host 2 n ++ t ∷ [])
        (λ d o. set_ext_type (get_or d 2 0) (set_u32 host (load host (take 2 d)) o)) (omega arith)
        (omega arith) (ext_size 2 n t) e refl
        (swapped_number16 host n (t ∷ drop 3 m.number_data)
            (λ d o. set_ext_type (get_or d 2 0) (set_u32 host (load host (take 2 d)) o))
            (full 0xc8 ObjectType.ext (big_bytes 2 n ++ t ∷ []) m) is.native refl
          ∙ refilled 2 n t (drop 3 m.number_data)
              (λ d o. set_ext_type (get_or d 2 0) (set_u32 host (load host (take 2 d)) o))
              (full 0xc8 ObjectType.ext (big_bytes 2 n ++ t ∷ []) m))
        (ext-Holds 2 n t (drop 3 m.number_data) h (omega arith))
  decode (Encodes.ext32 n t h ht) _ e =
      decode_long src host m r start is (Item.ext n t) rest 0xc9 ObjectType.ext
        (big_bytes 4 n ++ t ∷ []) (memory host 4 n ++ t ∷ [])
        (λ d o. set_ext_type (get_or d 4 0) (set_u32 host (load host (take 4 d)) o)) (omega arith)
        (omega arith) (ext_size 4 n t) e refl
        (swapped_number32 host n (t ∷ drop 5 m.number_data)
            (λ d o. set_ext_type (get_or d 4 0) (set_u32 host (load host (take 4 d)) o))
            (full 0xc9 ObjectType.ext (big_bytes 4 n ++ t ∷ []) m) is.native refl
          ∙ refilled 4 n t (drop 5 m.number_data)
              (λ d o. set_ext_type (get_or d 4 0) (set_u32 host (load host (take 4 d)) o))
              (full 0xc9 ObjectType.ext (big_bytes 4 n ++ t ∷ []) m))
        (ext-Holds 4 n t (drop 5 m.number_data) h (omega arith))
