-- ===== src/Mpack/Reader/Digits.antt =====
-- Objects whose header has digits: the four ways in which `mpack_process_number` reads them.
use apilib.Base.{ℕ, ◌≤◌, ◌<◌, ◌≡◌, refl, List, ◌∷◌, ◌++◌, drop, take, length, arith, ◌∙◌, ◌^◌}
use apilib.Base.{length-append}
use apilib.Base.Memory.{Host, big_host, little_host, memory, load, big_bytes, length-memory}
use apilib.Mpack.Code.{ObjectType}
use apilib.Mpack.Reader.{Context, ReadFn, Object, receive_format}
use apilib.Mpack.Reader.Format.{process_format_some, await_number, complete}
use apilib.Mpack.Reader.Number.{process_number_some, fill, fill_swapped}
use apilib.Mpack.Reader.Source.{IsSource}
use apilib.Mpack.Reader.Meaning.{Holds, IsReader, Decoded}
use apilib.Mpack.Reader.Union.{load-front, load-byte}
use apilib.Mpack.Reader.Steps.{told, full, receive_short, receive_long, length-refilled}
use apilib.Mpack.Swap.{IsNative, swap16, swap32, swap64}
use apilib.Mpack.Wire.{Item}

module _ {R : Type 0} where
  -- The exchange brings the digits into the machine's order.
  pub swapped_number16 :
      (host : Host) (x : ℕ) (tail : List ℕ) (g : List ℕ → Object → Object) (m : Context R)
      → IsNative m.endian host
      → m.number_data ≡ big_bytes 2 x ++ tail
      → fill_swapped swap16 g m ≡ fill g (record m { number_data = memory host 2 x ++ tail })
  swapped_number16 big_host x tail g m e d = rw e (rw d)
  swapped_number16 little_host x tail g m e d = rw e (rw d)

  pub swapped_number32 :
      (host : Host) (x : ℕ) (tail : List ℕ) (g : List ℕ → Object → Object) (m : Context R)
      → IsNative m.endian host
      → m.number_data ≡ big_bytes 4 x ++ tail
      → fill_swapped swap32 g m ≡ fill g (record m { number_data = memory host 4 x ++ tail })
  swapped_number32 big_host x tail g m e d = rw e (rw d)
  swapped_number32 little_host x tail g m e d = rw e (rw d)

  pub swapped_number64 :
      (host : Host) (x : ℕ) (tail : List ℕ) (g : List ℕ → Object → Object) (m : Context R)
      → IsNative m.endian host
      → m.number_data ≡ big_bytes 8 x ++ tail
      → fill_swapped swap64 g m ≡ fill g (record m { number_data = memory host 8 x ++ tail })
  swapped_number64 big_host x tail g m e d = rw e (rw d)
  swapped_number64 little_host x tail g m e d = rw e (rw d)

module _ {R : Type 0} {fn : ReadFn R} {content : R → List ℕ} (src : IsSource fn content)
    (host : Host) (m : Context R) (r : R) (start : m.status ≡ receive_format)
    (is : IsReader host fn m) (it : Item) (rest : List ℕ) (f : ℕ) (type : ObjectType) where
  abbrev typed : Object
  typed = let o = m.object in record o { type = type }

  -- The first byte says it all.
  pub decode_short :
      (g : Object → Object)
      → content r ≡ f ∷ rest
      → process_format_some host (told f m) ≡ complete type g (told f m)
      → Holds host it (let o = g m.object in record o { type = type })
      → length (g m.object).store ≡ 8
      → Decoded host fn content it rest m r
  decode_short g h pf holds size =
      let (r', e, c) = receive_short src host m r f start is.callback rest _ h pf refl in
      (
        _,
        r',
        e,
        c,
        refl,
        holds,
        record {
          native = is.native;
          callback = is.callback;
          data_size = is.data_size;
          store_size = size;
        },
        refl,
      )

  -- The digits are taken as they come, or as an exchange leaves them.
  pub decode_long :
      (digits digits' : List ℕ) (g : List ℕ → Object → Object)
      → 0 < length digits
      → length digits ≤ 10
      → length digits' ≡ length digits
      → content r ≡ f ∷ digits ++ rest
      → process_format_some host (told f m) ≡ await_number type (length digits) (told f m)
      → (let tail = drop (length digits) m.number_data in
          process_number_some host (full f type digits m)
          ≡ fill g (let m' = full f type digits m in record m' { number_data = digits' ++ tail }))
      → (let tail = drop (length digits) m.number_data in
          Holds host it (g (digits' ++ tail) typed)
          × (length (g (digits' ++ tail) typed).store ≡ 8))
      → Decoded host fn content it rest m r
  decode_long digits digits' g some_digits small same h pf pn (holds, size) =
      let (r', e, c) =
        receive_long src host m r f start is.callback type digits rest _ is.data_size some_digits
          small h pf pn in
      (
        _,
        r',
        e,
        c,
        refl,
        holds,
        record {
          native = is.native;
          callback = is.callback;
          data_size = omega (
            arith,
            is.data_size,
            same,
            length-append digits (drop (length digits) m.number_data),
            length-append digits' (drop (length digits) m.number_data),
            length-refilled digits m.number_data (omega (arith, is.data_size)),
          );
          store_size = size;
        },
        refl,
      )

  -- A number of 1 byte.
  pub decode_number8 :
      (x : ℕ) (put : ℕ → Object → Object)
      → x < 2 ^ 8
      → content r ≡ f ∷ big_bytes 1 x ++ rest
      → process_format_some host (told f m) ≡ await_number type 1 (told f m)
      → process_number_some host (full f type (big_bytes 1 x) m)
        ≡ fill (λ d. put (load host (take 1 d))) (full f type (big_bytes 1 x) m)
      → Holds host it (put x typed)
      → length (put x typed).store ≡ 8
      → Decoded host fn content it rest m r
  decode_number8 x put h e pf pn holds size =
      decode_long (big_bytes 1 x) (big_bytes 1 x) (λ d. put (load host (take 1 d))) (omega arith)
        (omega arith) refl e pf pn (rw (load-byte host x (drop 1 m.number_data) h) (holds, size))

  -- A number of 2 bytes.
  pub decode_number16 :
      (x : ℕ) (put : ℕ → Object → Object)
      → x < 2 ^ 16
      → content r ≡ f ∷ big_bytes 2 x ++ rest
      → process_format_some host (told f m) ≡ await_number type 2 (told f m)
      → process_number_some host (full f type (big_bytes 2 x) m)
        ≡ fill_swapped swap16 (λ d. put (load host (take 2 d))) (full f type (big_bytes 2 x) m)
      → Holds host it (put x typed)
      → length (put x typed).store ≡ 8
      → Decoded host fn content it rest m r
  decode_number16 x put h e pf pn holds size =
      decode_long (big_bytes 2 x) (memory host 2 x) (λ d. put (load host (take 2 d))) (omega arith)
        (omega arith) (length-memory host 2 x) e pf
        (pn
          ∙ swapped_number16 host x (drop 2 m.number_data) (λ d. put (load host (take 2 d)))
              (full f type (big_bytes 2 x) m) is.native refl)
        (rw (load-front host 2 x (drop 2 m.number_data) h) (holds, size))

  -- A number of 4 bytes.
  pub decode_number32 :
      (x : ℕ) (put : ℕ → Object → Object)
      → x < 2 ^ 32
      → content r ≡ f ∷ big_bytes 4 x ++ rest
      → process_format_some host (told f m) ≡ await_number type 4 (told f m)
      → process_number_some host (full f type (big_bytes 4 x) m)
        ≡ fill_swapped swap32 (λ d. put (load host (take 4 d))) (full f type (big_bytes 4 x) m)
      → Holds host it (put x typed)
      → length (put x typed).store ≡ 8
      → Decoded host fn content it rest m r
  decode_number32 x put h e pf pn holds size =
      decode_long (big_bytes 4 x) (memory host 4 x) (λ d. put (load host (take 4 d))) (omega arith)
        (omega arith) (length-memory host 4 x) e pf
        (pn
          ∙ swapped_number32 host x (drop 4 m.number_data) (λ d. put (load host (take 4 d)))
              (full f type (big_bytes 4 x) m) is.native refl)
        (rw (load-front host 4 x (drop 4 m.number_data) h) (holds, size))

  -- A number of 8 bytes.
  pub decode_number64 :
      (x : ℕ) (put : ℕ → Object → Object)
      → x < 2 ^ 64
      → content r ≡ f ∷ big_bytes 8 x ++ rest
      → process_format_some host (told f m) ≡ await_number type 8 (told f m)
      → process_number_some host (full f type (big_bytes 8 x) m)
        ≡ fill_swapped swap64 (λ d. put (load host (take 8 d))) (full f type (big_bytes 8 x) m)
      → Holds host it (put x typed)
      → length (put x typed).store ≡ 8
      → Decoded host fn content it rest m r
  decode_number64 x put h e pf pn holds size =
      decode_long (big_bytes 8 x) (memory host 8 x) (λ d. put (load host (take 8 d))) (omega arith)
        (omega arith) (length-memory host 8 x) e pf
        (pn
          ∙ swapped_number64 host x (drop 8 m.number_data) (λ d. put (load host (take 8 d)))
              (full f type (big_bytes 8 x) m) is.native refl)
        (rw (load-front host 8 x (drop 8 m.number_data) h) (holds, size))
