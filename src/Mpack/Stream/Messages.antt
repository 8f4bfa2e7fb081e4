-- ===== src/Mpack/Stream/Messages.antt =====
-- A client that sends whole objects, strings, binary data and extensions with their data included.
use apilib.Base.{
  ℕ, ◌+◌, ◌-◌, ◌≤◌, ◌≡◌, refl, sym, ◌∙◌, inl, Option, some, List, ◌∷◌, [], ◌++◌, length, arith,
}
use apilib.Base.Memory.{Host}
use apilib.Mpack.Code.{Code, ok}
use apilib.Mpack.Stream.Sending.{IsReady, between_objects}
use apilib.Mpack.Wire.{Encodes}
use apilib.Mpack.Writer.{Context, WriteFn}
use apilib.Mpack.Writer.Builds.{build-Valid}
use apilib.Mpack.Writer.Deliver.{deliver, deliver-sends}
use apilib.Mpack.Writer.Deliver.Steps.{IsSending}
use apilib.Mpack.Writer.Encode.{build_loads}
use apilib.Mpack.Writer.Header.{Build, build, header, item, loaded, InRange}
use apilib.Mpack.Writer.Invariant.{IsValid}
use apilib.Mpack.Writer.Resume.{IsLive}
use apilib.Mpack.Writer.Sink.{IsSink}
use apilib.Mpack.Writer.Standard.{header-Encodes, loaded-fields, pending-loaded}
use mathlib.Core.List.{append-nil, append_assoc}

-- An object and its data, which are none but for a string, binary data and an extension.
abbrev pub Message : Type 0
Message = Build × List ℕ

-- How many bytes of data an object announces.
abbrev pub data_size : Build → ℕ
data_size (Build.str n) = n
data_size (Build.bin n) = n
data_size (Build.ext n t) = n
data_size _ = 0

abbrev pub AreMessages : List Message → Type 0
AreMessages [] = Unit
AreMessages ((b, bytes) ∷ ms) = InRange b × (data_size b ≡ length bytes) × AreMessages ms

-- The client builds each object and has it written with its data; it makes eleven calls and one for
-- each byte of data at most.
unfoldable pub send_messages :
    {W : Type 0} → Host → List Message → Option (Context W) → W → Code × Option (Context W) × W
send_messages host [] p w = (ok, p, w)
send_messages host ((b, bytes) ∷ ms) p w =
    let (c, p1) = build host b p in
    let (c', p2, w2) = deliver (11 + length bytes) p1 bytes w in
    let rest = send_messages host ms p2 w2 in
    elim c [ ok ↦ elim c' [ ok ↦ rest | other ↦ (other, p2, w2) ] | other ↦ (other, p1, w) ]

-- A byte string is the messages one after the other, each a header of its object and its data.
pub data EncodesAll : List ℕ → List Message → Type 0 where
  finished : EncodesAll [] []
  message :
      {head rest bytes : List ℕ} {b : Build} {ms : List Message}
      → Encodes head (item b)
      → EncodesAll rest ms
      → EncodesAll (head ++ (bytes ++ rest)) ((b, bytes) ∷ ms)

-- What a build keeps, and the data that it announces.
loaded-sizes :
    {W : Type 0} (b : Build) (m : Context W)
    → m.binary_amount ≡ m.binary_offset
    → ((loaded b m).fn_write ≡ m.fn_write)
      × ((loaded b m).endian ≡ m.endian)
      × ((loaded b m).binary_amount - (loaded b m).binary_offset ≡ data_size b)
loaded-sizes (Build.int08 z) m e = (refl, refl, omega arith)
loaded-sizes (Build.int16 z) m e = (refl, refl, omega arith)
loaded-sizes (Build.int32 z) m e = (refl, refl, omega arith)
loaded-sizes (Build.int64 z) m e = (refl, refl, omega arith)
loaded-sizes (Build.uint08 z) m e = (refl, refl, omega arith)
loaded-sizes (Build.uint16 z) m e = (refl, refl, omega arith)
loaded-sizes (Build.uint32 z) m e = (refl, refl, omega arith)
loaded-sizes (Build.uint64 z) m e = (refl, refl, omega arith)
loaded-sizes Build.nil m e = (refl, refl, omega arith)
loaded-sizes (Build.bool z) m e = (refl, refl, omega arith)
loaded-sizes (Build.float32 z) m e = (refl, refl, omega arith)
loaded-sizes (Build.float64 z) m e = (refl, refl, omega arith)
loaded-sizes (Build.str n) m e = (refl, refl, omega arith)
loaded-sizes (Build.bin n) m e = (refl, refl, omega arith)
loaded-sizes (Build.array n) m e = (refl, refl, omega arith)
loaded-sizes (Build.map n) m e = (refl, refl, omega arith)
loaded-sizes (Build.ext n t) m e = (refl, refl, omega arith)

module _ {W : Type 0} (host : Host) {fn : WriteFn W} {out : W → List ℕ} (sink : IsSink fn out)
    (live : IsLive fn) where
  -- One object.
  send_message :
      (m : Context W) (w : W) (b : Build) (bytes : List ℕ)
      → IsReady host fn m
      → InRange b
      → data_size b ≡ length bytes
      → (m' : Context W) × (w' : W) × (deliver (11 + length bytes) (some (loaded b m)) bytes w
          ≡ (ok, some m', w'))
        × (out w' ≡ out w ++ (header b ++ bytes))
        × IsReady host fn m'
  send_message m w b bytes is h size =
      let built = build_loads host b m is.idle is.native h in
      let v : IsValid (loaded b m) = rw built at (build-Valid host b (some m) is.valid) in
      let (status, offset, amount, digits) = loaded-fields b m in
      let (callback, endian, left) = loaded-sizes b m (between_objects m is.valid is.idle) in
      let fits : length (header b) ≤ length m.buffer_data =
        omega (arith, v.buffer_cap, amount, is.valid.size) in
      let sending : IsSending fn (loaded b m) bytes = record {
        callback = callback ∙ is.callback;
        valid = v;
        due = inl status;
        left = left ∙ size;
      } in
      let (m', w', e, o, s, v', endian', callback') =
        deliver-sends sink live (11 + length bytes) (loaded b m) bytes w sending
          (omega (arith, v.buffer_cap)) in
      (
        m',
        w',
        e,
        o ∙ rw (pending-loaded b m fits),
        record {
          valid = v';
          idle = s;
          native = rw (endian' ∙ endian) is.native;
          callback = callback' ∙ callback ∙ is.callback;
        },
      )

  send_messages-cons :
      (b : Build) (bytes : List ℕ) (ms : List Message) (p p1 p2 : Option (Context W)) (w w2 : W)
      → build host b p ≡ (ok, p1)
      → deliver (11 + length bytes) p1 bytes w ≡ (ok, p2, w2)
      → send_messages host ((b, bytes) ∷ ms) p w ≡ send_messages host ms p2 w2
  unfolding send_messages
  send_messages-cons b bytes ms p p1 p2 w w2 e r = ground arith

  -- In a context ready for an object, a client that builds a list of objects, each a value of its
  -- parameter's C type and with as many bytes of data as it announces, and calls
  -- `mpack_write_object` with what is left of the data until the object is out, sees `ok`, in
  -- eleven calls and one for each byte of data at most. Over a stream that takes something of
  -- whatever it is offered, what the stream has got is, one after the other, a header of each
  -- object in the sense of the MessagePack format and then its data.
  pub send_messages-Encodes :
      (ms : List Message) (m : Context W) (w : W)
      → IsReady host fn m
      → AreMessages ms
      → (bs : List ℕ) × EncodesAll bs ms
        × ((send_messages host ms (some m) w).0 ≡ ok)
        × (out (send_messages host ms (some m) w).2 ≡ out w ++ bs)
  unfolding send_messages
  send_messages-Encodes [] m w is h = ([], EncodesAll.finished, refl, sym (append-nil (out w)))
  send_messages-Encodes ((b, bytes) ∷ ms) m w is (range, size, h) =
      let (m', w', r, o, is') = send_message m w b bytes is range size in
      let (bs, encoded, ended, o') = send_messages-Encodes ms m' w' is' h in
      let step =
        send_messages-cons b bytes ms _ _ _ w w' (build_loads host b m is.idle is.native range) r in
      (
        header b ++ (bytes ++ bs),
        EncodesAll.message (header-Encodes b range) encoded,
        rw step ended,
        rw step (o' ∙ rw (o, append_assoc, append_assoc)),
      )
