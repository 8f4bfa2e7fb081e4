-- ===== src/Mpack/Stream.antt =====
-- A writer and a reader at the two ends of a stream: the calls of a client that sends a list of
-- objects, and of one that receives it.
pub mod Sending
pub mod Receiving
pub mod RoundTrip
pub mod Messages
use apilib.Base.{ℕ, ◌≡◌, Bool, true, false, Option, some, List, ◌∷◌, [], ◌++◌}
use apilib.Base.Memory.{Host}
use apilib.Mpack.Code.{Code, ok}
use apilib.Mpack.Reader
use apilib.Mpack.Reader.{ReadFn}
use apilib.Mpack.Reader.Meaning.{Holds}
use apilib.Mpack.Reader.Receive.{receive_object, recv_reset}
use apilib.Mpack.Wire.{Item}
use apilib.Mpack.Writer
use apilib.Mpack.Writer.Header.{Build, build, header, item, InRange, str, bin, ext}
use apilib.Mpack.Writer.Resume.{resume}

-- No data follow the header.
abbrev pub is_plain : Build → Bool
is_plain (str n) = false
is_plain (bin n) = false
is_plain (ext n t) = false
is_plain b = true

-- The sender builds each object and has it written, in ten calls at most.
unfoldable pub transmit :
    {W : Type 0}
    → Host
    → List Build
    → Option (Writer.Context W)
    → W
    → Code × Option (Writer.Context W) × W
transmit host [] p w = (ok, p, w)
transmit host (b ∷ bs) p w =
    let (c, p1) = build host b p in
    let (c', p2, w2) = resume 10 p1 w in
    let rest = transmit host bs p2 w2 in
    elim c [ ok ↦ elim c' [ ok ↦ rest | other ↦ (other, p2, w2) ] | other ↦ (other, p1, w) ]

-- Every object of the list is one that its call can be asked for.
abbrev pub Sendable : List Build → Type 0
Sendable [] = Unit
Sendable (b ∷ bs) = InRange b × (is_plain b ≡ true) × Sendable bs

abbrev pub headers : List Build → List ℕ
headers [] = []
headers (b ∷ bs) = header b ++ headers bs

abbrev pub items : List Build → List Item
items [] = []
items (b ∷ bs) = item b ∷ items bs

-- The receiver asks for an object, finds it in the context, and resets the context for the next;
-- `rest` is what the stream holds at the end.
abbrev pub Receives :
    {R : Type 0} → Host → (R → List ℕ) → List Item → List ℕ → Reader.Context R → R → Type 0
Receives host content [] rest m r = content r ≡ rest
Receives {R} host content (it ∷ its) rest m r =
    (m' : Reader.Context R) × (r' : R) × (m'' : Reader.Context R) × (receive_object host (some m) r
      ≡ (ok, some m', r'))
    × Holds host it m'.object
    × (recv_reset (some m') ≡ (true, some m''))
    × Receives host content its rest m'' r'
