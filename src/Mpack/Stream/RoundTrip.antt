-- ===== src/Mpack/Stream/RoundTrip.antt =====
-- What is sent is what is received.
use apilib.Base.{ℕ, ◌≡◌, sym, ◌∙◌, some, List, []}
use apilib.Base.Memory.{Host}
use apilib.Mpack.Code.{ok}
use apilib.Mpack.Reader
use apilib.Mpack.Reader.{ReadFn, receive_format}
use apilib.Mpack.Reader.Meaning.{IsReader}
use apilib.Mpack.Reader.Source.{IsSource}
use apilib.Mpack.Stream.{transmit, Sendable, headers, items, Receives}
use apilib.Mpack.Stream.Receiving.{Receives-items}
use apilib.Mpack.Stream.Sending.{IsReady, transmit_sends}
use apilib.Mpack.Writer
use apilib.Mpack.Writer.{WriteFn}
use apilib.Mpack.Writer.Header.{Build}
use apilib.Mpack.Writer.Resume.{IsLive}
use apilib.Mpack.Writer.Sink.{IsSink}
use mathlib.Core.List.{append-nil}

-- A client that builds a list of numbers, floats, booleans, nils, array and map headers, each
-- from a value of its C type, in a context ready for an object, and has each written in at most
-- ten calls, over a stream that takes something of whatever it is offered, sees `ok`; and a
-- reader that is ready at the other end of that stream, which was empty and serves all that it
-- holds, receives exactly these objects, in order, and is left with an empty stream. Each context
-- declares its own machine's byte order, and the two machines may differ in it.
pub round_trip :
    {W R : Type 0} {wfn : WriteFn W} {out : W → List ℕ} {rfn : ReadFn R} {content : R → List ℕ}
    (sender receiver : Host) (bs : List Build) (mw : Writer.Context W) (w : W)
    (mr : Reader.Context R) (r : R)
    → IsSink wfn out
    → IsLive wfn
    → IsReady sender wfn mw
    → Sendable bs
    → out w ≡ []
    → IsSource rfn content
    → IsReader receiver rfn mr
    → mr.status ≡ receive_format
    → content r ≡ out (transmit sender bs (some mw) w).2
    → ((transmit sender bs (some mw) w).0 ≡ ok) × Receives receiver content (items bs) [] mr r
round_trip {out} sender receiver bs mw w mr r sink live ready h empty src reader start link =
    let (ended, sent) = transmit_sends sender sink live bs mw w ready h in
    let all : out (transmit sender bs (some mw) w).2 ≡ headers bs = rw empty at sent in
    (
      ended,
      Receives-items receiver src bs mr r [] reader start h
          (link ∙ all ∙ sym (append-nil (headers bs))),
    )
