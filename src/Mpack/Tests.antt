-- ===== src/Mpack/Tests.antt =====
-- Concrete contexts and callbacks for mpack/, with which its theorems are applied.
mod Sender
mod Receiver
mod Both
use apilib.Base.{ℕ, ◌≡◌, refl, true, some, List, ◌∷◌, [], ◌++◌, take, drop, length, min, arith}
use apilib.Base.Int.{negsuc}
use apilib.Base.Memory.{big_host, little_host}
use apilib.Mpack.Reader.Partial.{IsPartialSource}
use apilib.Base.{inl}
use apilib.Mpack.Writer.Deliver.Steps.{IsSending}
use apilib.Mpack.Writer.Invariant.{IsValid}
use apilib.Mpack.Code.{ok, Endian, ObjectType}
use apilib.Mpack.Reader
use apilib.Mpack.Reader.Meaning.{IsReader}
use apilib.Mpack.Reader.Source.{IsSource}
use apilib.Mpack.Stream.{transmit, items, Receives}
use apilib.Mpack.Stream.RoundTrip.{round_trip}
use apilib.Mpack.Stream.Sending.{IsReady}
use apilib.Mpack.Writer
use apilib.Mpack.Writer.Header.{Build}
use apilib.Mpack.Writer.Resume.{IsLive}
use apilib.Mpack.Writer.Sink.{IsSink}

-- A stream that takes two bytes at a time.
abbrev pub narrow_sink : Writer.WriteFn (List ℕ)
narrow_sink w bytes = (min 2 (length bytes), w ++ take (min 2 (length bytes)) bytes)

pub narrow_sink-IsSink : IsSink narrow_sink (λ w. w)
narrow_sink-IsSink = record { count = λ w bytes. omega arith; sent = λ w bytes. refl }

pub narrow_sink-IsLive : IsLive narrow_sink
narrow_sink-IsLive w bytes h = omega arith

-- A stream that serves all that it holds.
abbrev pub memory_source : Reader.ReadFn (List ℕ)
memory_source r n = (min n (length r), take (min n (length r)) r, drop (min n (length r)) r)

pub memory_source-IsSource : IsSource memory_source (λ r. r)
memory_source-IsSource = record {
  count = λ r n. omega arith;
  stored = λ r n. refl;
  left = λ r n. refl;
  full = λ r n h. omega arith;
}

abbrev pub zeros : List ℕ
zeros = 0 ∷ 0 ∷ 0 ∷ 0 ∷ 0 ∷ 0 ∷ 0 ∷ 0 ∷ 0 ∷ 0 ∷ []

abbrev pub writer : Endian → Writer.Context (List ℕ)
writer endian = record {
  endian = endian;
  status = Writer.Status.build_buffer;
  buffer_data = zeros;
  buffer_offset = 0;
  buffer_amount = 0;
  binary_offset = 0;
  binary_amount = 0;
  fn_write = some narrow_sink;
}

abbrev pub reader : Endian → Reader.Context (List ℕ)
reader endian = record {
  endian = endian;
  status = Reader.Status.receive_format;
  format = 0;
  number_data = zeros;
  number_need = 0;
  number_read = 0;
  binary_need = 0;
  binary_read = 0;
  object = record { type = ObjectType.no_type; store = 0 ∷ 0 ∷ 0 ∷ 0 ∷ 0 ∷ 0 ∷ 0 ∷ 0 ∷ [] };
  fn_read = some memory_source;
}

pub writer-IsReady : IsReady big_host narrow_sink (writer Endian.big)
writer-IsReady = record {
  valid = record {
    size = refl;
    buffer_in = omega arith;
    buffer_cap = omega arith;
    binary_in = omega arith;
    binary_cap = omega arith;
    phase = (refl, refl);
  };
  idle = refl;
  native = refl;
  callback = refl;
}

pub reader-IsReader : IsReader little_host memory_source (reader Endian.little)
reader-IsReader = record { native = refl; callback = refl; data_size = refl; store_size = refl }

-- A stream that serves at most one byte at a time.
abbrev pub slow_source : Reader.ReadFn (List ℕ)
slow_source r n =
    (min (min 1 n) (length r), take (min (min 1 n) (length r)) r, drop (min (min 1 n) (length r)) r)

pub slow_source-IsPartialSource : IsPartialSource slow_source (λ r. r)
slow_source-IsPartialSource = record {
  count = λ r n. omega arith;
  held = λ r n. omega arith;
  stored = λ r n. refl;
  left = λ r n. refl;
}

-- A context in the midst of a header of three bytes, of which one was sent.
abbrev pub midway : Writer.Context (List ℕ)
midway = record (writer Endian.big) {
  status = Writer.Status.write_buffer;
  buffer_data = 0xcd ∷ 1 ∷ 44 ∷ 0 ∷ 0 ∷ 0 ∷ 0 ∷ 0 ∷ 0 ∷ 0 ∷ [];
  buffer_offset = 1;
  buffer_amount = 3;
}

pub midway-IsValid : IsValid midway
midway-IsValid = record {
  size = refl;
  buffer_in = omega arith;
  buffer_cap = omega arith;
  binary_in = omega arith;
  binary_cap = omega arith;
  phase = tt;
}

-- The same with two bytes of data to follow.
abbrev pub midway_data : Writer.Context (List ℕ)
midway_data = record midway { binary_amount = 2 }

pub midway_data-IsSending : IsSending narrow_sink midway_data (97 ∷ 98 ∷ [])
midway_data-IsSending = record {
  callback = refl;
  valid = record {
    size = refl;
    buffer_in = omega arith;
    buffer_cap = omega arith;
    binary_in = omega arith;
    binary_cap = omega arith;
    phase = tt;
  };
  due = inl refl;
  left = refl;
}

-- A reader that waits for the last three of four digits.
abbrev pub waiting : Reader.Context (List ℕ)
waiting = record (reader Endian.little) {
  status = Reader.Status.receive_number;
  format = 0xce;
  number_data = 1 ∷ 0 ∷ 0 ∷ 0 ∷ 0 ∷ 0 ∷ 0 ∷ 0 ∷ 0 ∷ 0 ∷ [];
  number_need = 4;
  number_read = 1;
  fn_read = some slow_source;
}

-- A reader that has the number -5.
abbrev pub holding : Reader.Context (List ℕ)
holding = record (reader Endian.little) {
  status = Reader.Status.xchange_object;
  object = record {
    type = ObjectType.int;
    store = 0xfb ∷ 0xff ∷ 0xff ∷ 0xff ∷ 0xff ∷ 0xff ∷ 0xff ∷ 0xff ∷ [];
  };
}
