-- ===== src/Mpack/Stream/Sending.antt =====
-- What a list of objects leaves on the stream.
use apilib.Base.{
  ℕ, ◌-◌, ◌<◌, ◌≡◌, refl, sym, ◌∙◌, true, Option, some, List, ◌∷◌, [], ◌++◌, length, arith,
}
use apilib.Base.{take-overwrite}
use apilib.Base.Memory.{Host}
use apilib.Mpack.Code.{ok}
use apilib.Mpack.Stream.{is_plain, transmit, Sendable, headers}
use apilib.Mpack.Swap.{IsNative}
use apilib.Mpack.Wire.{Item, Encodes}
use apilib.Mpack.Writer.{Context, WriteFn, build_buffer}
use apilib.Mpack.Writer.Builds.{build-Valid}
use apilib.Mpack.Writer.Encode.{build_loads}
use apilib.Mpack.Writer.Header.{Build, build, header, loaded, loaded_header, InRange}
use apilib.Mpack.Writer.Invariant.{IsValid}
use apilib.Mpack.Writer.Resume.{resume, IsLive, finished, resume_delivers}
use apilib.Mpack.Writer.Sink.{IsSink, pending}
use apilib.Mpack.Writer.Standard.{header-Encodes}
use mathlib.Core.List.{append-nil, append_assoc}

-- A context that can build the next object.
pub record IsReady {W : Type 0} (host : Host) (fn : WriteFn W) (m : Context W) : Type 0 where
  pub valid : IsValid m
  pub idle : m.status ≡ build_buffer
  pub native : IsNative m.endian host
  pub callback : m.fn_write ≡ some fn

-- A header has a first byte.
Encodes-pos : {bs : List ℕ} {it : Item} → Encodes bs it → 0 < length bs
Encodes-pos (Encodes.fixint_positive n h) = omega arith
Encodes-pos (Encodes.fixint_negative n h) = omega arith
Encodes-pos (Encodes.nil_byte) = omega arith
Encodes-pos (Encodes.false_byte) = omega arith
Encodes-pos (Encodes.true_byte) = omega arith
Encodes-pos (Encodes.float32 x h) = omega arith
Encodes-pos (Encodes.float64 x h) = omega arith
Encodes-pos (Encodes.uint8 x h) = omega arith
Encodes-pos (Encodes.uint16 x h) = omega arith
Encodes-pos (Encodes.uint32 x h) = omega arith
Encodes-pos (Encodes.uint64 x h) = omega arith
Encodes-pos (Encodes.int8 x h) = omega arith
Encodes-pos (Encodes.int16 x h) = omega arith
Encodes-pos (Encodes.int32 x h) = omega arith
Encodes-pos (Encodes.int64 x h) = omega arith
Encodes-pos (Encodes.fixstr n h) = omega arith
Encodes-pos (Encodes.str8 n h) = omega arith
Encodes-pos (Encodes.str16 n h) = omega arith
Encodes-pos (Encodes.str32 n h) = omega arith
Encodes-pos (Encodes.bin8 n h) = omega arith
Encodes-pos (Encodes.bin16 n h) = omega arith
Encodes-pos (Encodes.bin32 n h) = omega arith
Encodes-pos (Encodes.fixext1 t h) = omega arith
Encodes-pos (Encodes.fixext2 t h) = omega arith
Encodes-pos (Encodes.fixext4 t h) = omega arith
Encodes-pos (Encodes.fixext8 t h) = omega arith
Encodes-pos (Encodes.fixext16 t h) = omega arith
Encodes-pos (Encodes.ext8 n t h k) = omega arith
Encodes-pos (Encodes.ext16 n t h k) = omega arith
Encodes-pos (Encodes.ext32 n t h k) = omega arith
Encodes-pos (Encodes.fixarray n h) = omega arith
Encodes-pos (Encodes.array16 n h) = omega arith
Encodes-pos (Encodes.array32 n h) = omega arith
Encodes-pos (Encodes.fixmap n h) = omega arith
Encodes-pos (Encodes.map16 n h) = omega arith
Encodes-pos (Encodes.map32 n h) = omega arith

loaded-plain :
    {W : Type 0} (b : Build) (m : Context W)
    → is_plain b ≡ true
    → loaded b m ≡ loaded_header (header b) m
loaded-plain (Build.int08 z) m h = refl
loaded-plain (Build.int16 z) m h = refl
loaded-plain (Build.int32 z) m h = refl
loaded-plain (Build.int64 z) m h = refl
loaded-plain (Build.uint08 z) m h = refl
loaded-plain (Build.uint16 z) m h = refl
loaded-plain (Build.uint32 z) m h = refl
loaded-plain (Build.uint64 z) m h = refl
loaded-plain (Build.bool z) m h = refl
loaded-plain (Build.float32 z) m h = refl
loaded-plain (Build.float64 z) m h = refl
loaded-plain (Build.array z) m h = refl
loaded-plain (Build.map z) m h = refl
loaded-plain Build.nil m h = refl
loaded-plain (Build.str z) m h = cc
loaded-plain (Build.bin z) m h = cc
loaded-plain (Build.ext z t) m h = cc

pub between_objects :
    {W : Type 0} (m : Context W)
    → IsValid m
    → m.status ≡ build_buffer
    → m.binary_amount ≡ m.binary_offset
between_objects m v s = ground arith

finished-IsValid :
    {W : Type 0} (m : Context W)
    → IsValid m
    → m.binary_amount ≡ m.binary_offset
    → IsValid (finished m)
finished-IsValid m v e = ground arith

module _ {W : Type 0} (host : Host) {fn : WriteFn W} {out : W → List ℕ} (sink : IsSink fn out)
    (live : IsLive fn) where
  loaded-IsValid :
      (m : Context W) (b : Build) → IsReady host fn m → InRange b → IsValid (loaded b m)
  loaded-IsValid m b is h =
      rw (build_loads host b m is.idle is.native h) at (build-Valid host b (some m) is.valid)

  -- One object: the header is put out, and the context is ready again.
  send :
      (m : Context W) (w : W) (b : Build)
      → IsReady host fn m
      → InRange b
      → is_plain b ≡ true
      → (w' : W) × (resume 10 (some (loaded b m)) w
          ≡ (ok, some (finished (loaded_header (header b) m)), w'))
        × (out w' ≡ out w ++ header b)
        × IsReady host fn (finished (loaded_header (header b) m))
  send m w b is h plain =
      let m1 : Context W = loaded_header (header b) m in
      let same : loaded b m ≡ m1 = loaded-plain b m plain in
      let v : IsValid m1 = rw same at (loaded-IsValid m b is h) in
      let some_bytes : 0 < length (header b) = Encodes-pos (header-Encodes b h) in
      let idle : m.binary_amount ≡ m.binary_offset = between_objects m is.valid is.idle in
      let (w', r, o) =
        resume_delivers sink live 10 m1 w is.callback v refl idle some_bytes
          (omega (arith, v.buffer_cap)) in
      let all : pending m1 ≡ header b =
        (let whole : length (header b) - 0 ≡ length (header b) = omega arith in
          rw whole (
            take-overwrite (header b) m.buffer_data
              (omega (arith, v.buffer_cap, is.valid.size)))) in
      (
        w',
        rw same r,
        rw all at o,
        record {
          valid = finished-IsValid m1 v idle;
          idle = refl;
          native = is.native;
          callback = is.callback;
        },
      )

  transmit-cons :
      (b : Build) (bs : List Build) (p p1 p2 : Option (Context W)) (w w2 : W)
      → build host b p ≡ (ok, p1)
      → resume 10 p1 w ≡ (ok, p2, w2)
      → transmit host (b ∷ bs) p w ≡ transmit host bs p2 w2
  unfolding transmit
  transmit-cons b bs p p1 p2 w w2 e r = ground arith

  -- A list of plain objects.
  pub transmit_sends :
      (bs : List Build) (m : Context W) (w : W)
      → IsReady host fn m
      → Sendable bs
      → ((transmit host bs (some m) w).0 ≡ ok)
        × (out (transmit host bs (some m) w).2 ≡ out w ++ headers bs)
  unfolding transmit
  transmit_sends [] m w is h = (refl, sym (append-nil (out w)))
  transmit_sends (b ∷ bs) m w is (range, plain, h) =
      let (w', r, o, is') = send m w b is range plain in
      let (ended, o') = transmit_sends bs (finished (loaded_header (header b) m)) w' is' h in
      rw (transmit-cons b bs _ _ _ w w' (build_loads host b m is.idle is.native range) r)
        (ended, o' ∙ rw (o, append_assoc))
