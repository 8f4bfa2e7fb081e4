-- ===== src/Mpack/Defects.antt =====
-- Where mpack/ does not do what its interface says, each for the whole class of inputs that show
-- it.
use apilib.Base.{
  ℕ, suc, zero, ◌+◌, ◌^◌, ◌<◌, ◌≡◌, refl, some, false, Option, List, ◌∷◌, [], ◌++◌, length, take,
  overwrite, get_or, take-overwrite, arith,
}
use apilib.Base.Memory.{Host}
use apilib.Mpack.Code.{ok, error_invalid_operation, ObjectType}
use apilib.Mpack.Reader
use apilib.Mpack.Reader.{ReadFn, receive_format, u32, set_ext_type}
use apilib.Mpack.Reader.Format.{
  process_format_some, process_format_sized, process_format_tail, process_format_step, await_fixext,
}
use apilib.Mpack.Reader.GetObject.{get_ext_info}
use apilib.Mpack.Reader.Decode.{decode, is_fixext}
use apilib.Mpack.Reader.Meaning.{IsReader, Holds}
use apilib.Mpack.Wire.{Item, Encodes}
use apilib.Mpack.Reader.Number.{
  fill, process_number_some, process_number_int, process_number_tail, process_number_step,
}
use apilib.Mpack.Reader.Receive.{receive_object, stage, receive_object_binary}
use apilib.Mpack.Reader.Source.{IsSource}
use apilib.Mpack.Reader.Steps.{told, served, receive_format_served, receive_number_served}
use apilib.Mpack.Reader.Union.{u32-set_ext_type, ext_type-set_ext_type}
use apilib.Mpack.Stream.Sending.{IsReady}
use apilib.Mpack.Writer
use apilib.Mpack.Writer.{WriteFn, write_object_buffer, send_buffer, write_object_binary}
use apilib.Mpack.Writer.Emit.{write_str}
use apilib.Mpack.Writer.Encode.{build_loads}
use apilib.Mpack.Writer.Builds.{build-Valid}
use apilib.Mpack.Writer.Invariant.{IsValid}
use apilib.Mpack.Writer.Header.{Build, build, header, loaded, str_header}
use apilib.Mpack.Writer.Sink.{IsSink}

module _ {W : Type 0} {fn : WriteFn W} {out : W → List ℕ} (sink : IsSink fn out) where
  -- In a context that is valid, between two objects and of the machine's byte order, over a
  -- stream that takes the one byte it is offered, `mpack_write_str` of an empty string puts its
  -- whole header on the stream and is done, and yet returns `error_invalid_operation`: with no
  -- data to follow, the status is back at the building of objects when
  -- `mpack_write_object_binary` is called.
  pub write_empty_str :
      (host : Host) (m : Writer.Context W) (bytes : Option (List ℕ)) (written : Option ℕ) (w : W)
      → IsReady host fn m
      → (fn w (0xa0 ∷ [])).0 ≡ 1
      → ((write_str host (some m) bytes 0 written w).0 ≡ error_invalid_operation)
        × (out (write_str host (some m) bytes 0 written w).3 ≡ out w ++ 0xa0 ∷ [])
  unfolding write_str write_object_buffer send_buffer write_object_binary build header str_header
  write_empty_str host m bytes written w is one =
      let built = build_loads host (Build.str 0) m is.idle is.native (omega arith) in
      let v : IsValid (loaded (Build.str 0) m) =
        rw built at (build-Valid host (Build.str 0) (some m) is.valid) in
      let all : take 1 (overwrite (0xa0 ∷ []) m.buffer_data) ≡ 0xa0 ∷ [] =
        take-overwrite (0xa0 ∷ []) m.buffer_data (omega (arith, is.valid.size)) in
      ground (arith, built, all, sink.sent w (0xa0 ∷ []))

-- The bytes of data that an object announces.
abbrev pub announced : Item → ℕ
announced (Item.str n) = n
announced (Item.bin n) = n
announced (Item.ext n t) = n
announced _ = 0

first_digit : (t : ℕ) (d : List ℕ) → 0 < length d → get_or (overwrite (t ∷ []) d) 0 0 ≡ t
first_digit t [] h = absurd (omega arith)
first_digit t (x ∷ d) h = refl

module _ {R : Type 0} {fn : ReadFn R} {content : R → List ℕ} (src : IsSource fn content)
    (host : Host) (m : Reader.Context R) (r : R) (start : m.status ≡ receive_format)
    (is : IsReader host fn m) where
  -- The extension of `size` bytes and the type `t` is received, and its data is due, but the size
  -- that is reported is what the union held before.
  abbrev pub StaleSize : ℕ → ℕ → ℕ → ℕ → List ℕ → Type 0
  StaleSize size t old old_type rest =
      (m' : Reader.Context R) × (r' : R) × (receive_object host (some m) r ≡ (ok, some m', r'))
      × (m'.binary_need ≡ size)
      × (get_ext_info host (some m') (some old) (some old_type)
          ≡ (ok, some (u32 host m.object), some t))

  -- One header of an extension of a fixed size, from what the two steps make of it.
  fixext_received :
      (f size t old old_type : ℕ) (rest : List ℕ)
      → content r ≡ f ∷ t ∷ rest
      → process_format_some host (told f m) ≡ await_fixext size (told f m)
      → ((m' : Reader.Context R)
          → m'.format ≡ f
          → process_number_some host m' ≡ fill (λ d. set_ext_type (get_or d 0 0)) m')
      → StaleSize size t old old_type rest
  unfolding receive_object stage process_format_step process_number_step get_ext_info
  fixext_received f size t old old_type rest e pf pn =
      let digits : List ℕ = overwrite (t ∷ []) m.number_data in
      let o : Reader.Object = m.object in
      let r1 : R = (fn r 1).2 in
      let e1 : content r1 ≡ t ∷ rest = (served src r (f ∷ []) (t ∷ rest) e).1 in
      let arrived : Reader.Context R = record (waiting f size) {
        number_data = digits;
        number_read = 1;
        status = Reader.Status.process_number;
      } in
      (
        record m {
          format = f;
          number_need = 1;
          number_read = 1;
          number_data = digits;
          binary_need = size;
          binary_read = 0;
          object = record (set_ext_type t o) { type = ObjectType.ext };
          status = Reader.Status.xchange_object;
        },
        (fn r1 1).2,
        ground (
          arith,
          receive_format_served src m r f (t ∷ rest) is.callback e,
          pf,
          receive_number_served src (waiting f size) r1 (t ∷ []) rest is.callback refl refl
              (omega arith) (omega arith) e1,
          pn arrived refl,
          first_digit t m.number_data (omega (arith, is.data_size)),
        ),
        refl,
        ground (arith, u32-set_ext_type host o t, ext_type-set_ext_type o t is.store_size),
      )
    where
      waiting : ℕ → ℕ → Reader.Context R
      waiting f size =
          let o = m.object in
          record m {
            format = f;
            object = record o { type = ObjectType.ext };
            number_need = 1;
            number_read = 0;
            binary_need = size;
            binary_read = 0;
            status = Reader.Status.receive_number;
          }

  -- In a context that is ready for an object, over a stream that begins with one of the five
  -- headers of an extension of a fixed size, 1, 2, 4, 8 or 16 bytes, and serves it,
  -- `mpack_receive_object` and `mpack_get_ext_info` return `ok` with the right type, but for the
  -- size with what the union happened to hold before: `ext_size` is never assigned, though
  -- `binary_need` has the right size.
  pub fixext_size_stale :
      (i t old old_type : ℕ) (rest : List ℕ)
      → i < 5
      → content r ≡ (0xd4 + i) ∷ t ∷ rest
      → StaleSize (2 ^ i) t old old_type rest
  unfolding process_format_some process_format_sized process_format_tail process_number_some
      process_number_int process_number_tail
  fixext_size_stale zero t old old_type rest h e =
      fixext_received 0xd4 1 t old old_type rest e refl (λ m' f. ground (arith, f))
  fixext_size_stale (suc zero) t old old_type rest h e =
      fixext_received 0xd5 2 t old old_type rest e refl (λ m' f. ground (arith, f))
  fixext_size_stale (suc (suc zero)) t old old_type rest h e =
      fixext_received 0xd6 4 t old old_type rest e refl (λ m' f. ground (arith, f))
  fixext_size_stale (suc (suc (suc zero))) t old old_type rest h e =
      fixext_received 0xd7 8 t old old_type rest e refl (λ m' f. ground (arith, f))
  fixext_size_stale (suc (suc (suc (suc zero)))) t old old_type rest h e =
      fixext_received 0xd8 16 t old old_type rest e refl (λ m' f. ground (arith, f))
  fixext_size_stale (suc (suc (suc (suc (suc i))))) t old old_type rest h e = absurd (omega arith)

  -- In a context that is ready for an object and owes no data, over a stream that begins with a
  -- header of a string, of binary data or of an extension that is not empty, except the five
  -- headers of extensions of a fixed size, and serves it, `mpack_receive_object` returns `ok` and
  -- has the object with its size; and `mpack_receive_object_binary`, for any buffer, returns `ok`
  -- too and reads none of the data, which stay on the stream: `binary_need` is assigned for the
  -- five only.
  pub sized_data_unread :
      {bs : List ℕ} {it : Item} (size : ℕ) (rest buffer : List ℕ)
      → Encodes bs it
      → is_fixext bs ≡ false
      → 0 < announced it
      → m.binary_need ≡ 0
      → content r ≡ bs ++ rest
      → (m' : Reader.Context R) × (r' : R) × (receive_object host (some m) r ≡ (ok, some m', r'))
        × Holds host it m'.object
        × (receive_object_binary (some m') buffer size r' ≡ (ok, some m', buffer, r'))
        × (content r' ≡ rest)
  unfolding receive_object_binary
  sized_data_unread size rest buffer encodes plain some_data none_due e =
      let (m', r', received, left, done, holds, is', due) =
        decode src host m r start is rest encodes plain e in
      (m', r', received, holds, ground (arith, is'.callback, due, none_due), left)
