-- ===== src/Mpack/Stream/Receiving.antt =====
-- What a receiver makes of the headers of a list of objects.
use apilib.Base.{ℕ, ◌∙◌, ◌≡◌, refl, Bool, arith, true, false, some, List, ◌∷◌, [], ◌++◌}
use apilib.Base.Memory.{Host}
use apilib.Mpack.Reader.{Context, ReadFn, receive_format}
use apilib.Mpack.Reader.Decode.{decode, is_fixext}
use apilib.Mpack.Reader.Meaning.{IsReader}
use apilib.Mpack.Reader.Receive.{recv_reset}
use apilib.Mpack.Reader.Source.{IsSource}
use apilib.Mpack.Stream.{is_plain, Sendable, headers, items, Receives}
use apilib.Mpack.Wire.{Item, Encodes}
use apilib.Mpack.Writer.Header.{Build, header, item}
use apilib.Mpack.Writer.Standard.{header-Encodes}
use mathlib.Core.List.{append_assoc}

abbrev is_ext : Item → Bool
is_ext (Item.ext n t) = true
is_ext _ = false

-- Only extensions have the headers of extensions.
Encodes-plain : {bs : List ℕ} {it : Item} → Encodes bs it → is_ext it ≡ false → is_fixext bs ≡ false
Encodes-plain (Encodes.nil_byte) e = refl
Encodes-plain (Encodes.false_byte) e = refl
Encodes-plain (Encodes.true_byte) e = refl
Encodes-plain (Encodes.float32 x h) e = refl
Encodes-plain (Encodes.float64 x h) e = refl
Encodes-plain (Encodes.uint8 x h) e = refl
Encodes-plain (Encodes.uint16 x h) e = refl
Encodes-plain (Encodes.uint32 x h) e = refl
Encodes-plain (Encodes.uint64 x h) e = refl
Encodes-plain (Encodes.int8 x h) e = refl
Encodes-plain (Encodes.int16 x h) e = refl
Encodes-plain (Encodes.int32 x h) e = refl
Encodes-plain (Encodes.int64 x h) e = refl
Encodes-plain (Encodes.str8 n h) e = refl
Encodes-plain (Encodes.str16 n h) e = refl
Encodes-plain (Encodes.str32 n h) e = refl
Encodes-plain (Encodes.bin8 n h) e = refl
Encodes-plain (Encodes.bin16 n h) e = refl
Encodes-plain (Encodes.bin32 n h) e = refl
Encodes-plain (Encodes.array16 n h) e = refl
Encodes-plain (Encodes.array32 n h) e = refl
Encodes-plain (Encodes.map16 n h) e = refl
Encodes-plain (Encodes.map32 n h) e = refl
Encodes-plain (Encodes.fixint_positive n h) e = ground arith
Encodes-plain (Encodes.fixint_negative n h) e = ground arith
Encodes-plain (Encodes.fixstr n h) e = ground arith
Encodes-plain (Encodes.fixarray n h) e = ground arith
Encodes-plain (Encodes.fixmap n h) e = ground arith
Encodes-plain (Encodes.fixext1 t h) e = cc
Encodes-plain (Encodes.fixext2 t h) e = cc
Encodes-plain (Encodes.fixext4 t h) e = cc
Encodes-plain (Encodes.fixext8 t h) e = cc
Encodes-plain (Encodes.fixext16 t h) e = cc
Encodes-plain (Encodes.ext8 n t h k) e = cc
Encodes-plain (Encodes.ext16 n t h k) e = cc
Encodes-plain (Encodes.ext32 n t h k) e = cc

item-plain : (b : Build) → is_plain b ≡ true → is_ext (item b) ≡ false
item-plain (Build.ext n t) h = cc
item-plain _ h = refl

module _ {R : Type 0} (host : Host) {fn : ReadFn R} {content : R → List ℕ}
    (src : IsSource fn content) where
  reset-IsReader :
      (m : Context R)
      → IsReader host fn m
      → (m' : Context R) × (recv_reset (some m) ≡ (true, some m'))
        × (m'.status ≡ receive_format)
        × IsReader host fn m'
  unfolding recv_reset
  reset-IsReader m is = (
    _,
    refl,
    refl,
    record {
      native = is.native;
      callback = is.callback;
      data_size = refl;
      store_size = is.store_size;
    },
  )

  -- A stream that begins with the headers of a list of plain objects gives just these objects.
  pub Receives-items :
      (bs : List Build) (m : Context R) (r : R) (rest : List ℕ)
      → IsReader host fn m
      → m.status ≡ receive_format
      → Sendable bs
      → content r ≡ headers bs ++ rest
      → Receives host content (items bs) rest m r
  Receives-items [] m r rest is start h e = e
  Receives-items (b ∷ bs) m r rest is start (range, plain, h) e =
      let (m', r', received, left, done, holds, is', due) =
        decode src host m r start is (headers bs ++ rest) (header-Encodes b range)
          (Encodes-plain (header-Encodes b range) (item-plain b plain))
          (e ∙ append_assoc (header b) (headers bs) rest) in
      let (m'', reset, start'', is'') = reset-IsReader m' is' in
      (m', r', m'', received, holds, reset, Receives-items bs m'' r' rest is'' start'' h left)
