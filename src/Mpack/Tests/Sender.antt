-- ===== src/Mpack/Tests/Sender.antt =====
-- The theorems about the writer at concrete inputs.
use apilib.Mpack.Tests.{narrow_sink}
use apilib.Base.{length, ◌<◌, ℕ, ◌≤◌, ◌-◌, ◌≡◌, refl, some, none, List, ◌∷◌, [], ◌++◌, arith}
use apilib.Base.Int.{negsuc}
use apilib.Base.Memory.{big_host}
use apilib.Mpack.Code.{ok, Endian}
use apilib.Mpack.Writer
use apilib.Mpack.Wire.{Item, Encodes}
use apilib.Mpack.Writer.Header.{Build, build}
use apilib.Mpack.Tests.{
  narrow_sink-IsSink, narrow_sink-IsLive, writer, writer-IsReady, midway, midway-IsValid,
}
use apilib.Mpack.Writer.{write_object_buffer}
use apilib.Mpack.Writer.Invariant.{Valid, IsValid}
use apilib.Mpack.Writer.Fatal.{run-fatal}
use apilib.Mpack.Writer.Machine.{Call, run, run-Valid}
use apilib.Mpack.Writer.Resume.{finished}
use apilib.Mpack.Writer.Deliver.{deliver, deliver-sends}
use apilib.Mpack.Tests.{midway_data, midway_data-IsSending}
use apilib.Mpack.Writer.Shortest.{build_shortest}
use apilib.Mpack.Writer.Wasteful.{build_wastes}
use apilib.Mpack.Writer.Sink.{pending, write_object_buffer-conserves}
use apilib.Mpack.Writer.Standard.{build_encodes}

build_encodes_example :
    (m' : Writer.Context (List ℕ)) × (build big_host
        (Build.int64 (negsuc 999))
        (some (writer Endian.big))
      ≡ (ok, some m'))
    × (m'.status ≡ Writer.Status.write_buffer)
    × Encodes (pending m') (Item.int (negsuc 999))
build_encodes_example =
    build_encodes big_host (Build.int64 (negsuc 999)) (writer Endian.big) writer-IsReady.valid refl
      refl refl

abbrev calls : List Call
calls =
    Call.write (Build.str 3) (some (97 ∷ 98 ∷ 99 ∷ [])) none
    ∷ Call.object none 0 none
    ∷ Call.object (some (97 ∷ 98 ∷ 99 ∷ [])) 3 (some 0)
    ∷ Call.reset
    ∷ Call.only_build (Build.uint32 70000)
    ∷ []

run-Valid_example : Valid (run big_host calls (some (writer Endian.big)) []).0
run-Valid_example = run-Valid big_host calls (some (writer Endian.big)) [] writer-IsReady.valid

deliver-sends_example :
    (m' : Writer.Context (List ℕ)) × (w' : List ℕ) × (deliver 5
        (some midway_data)
        (97 ∷ 98 ∷ [])
        (0xcd ∷ [])
      ≡ (ok, some m', w'))
    × (w' ≡ (0xcd ∷ []) ++ (pending midway_data ++ 97 ∷ 98 ∷ []))
    × (m'.status ≡ Writer.Status.build_buffer)
    × IsValid m'
    × (m'.endian ≡ Endian.big)
    × (m'.fn_write ≡ some narrow_sink)
deliver-sends_example =
    deliver-sends narrow_sink-IsSink narrow_sink-IsLive 5 midway_data (97 ∷ 98 ∷ []) (0xcd ∷ [])
      midway_data-IsSending (omega arith)

sent_rest :
    write_object_buffer (some midway) (0xcd ∷ []) ≡ (ok, some (finished midway), 0xcd ∷ 1 ∷ 44 ∷ [])
unfolding write_object_buffer Writer.send_buffer
sent_rest = refl

write_object_buffer-conserves_example :
    (0xcd ∷ 1 ∷ 44 ∷ []) ++ pending (finished midway) ≡ (0xcd ∷ []) ++ pending midway
write_object_buffer-conserves_example =
    write_object_buffer-conserves narrow_sink-IsSink midway (0xcd ∷ []) refl midway-IsValid
      sent_rest

build_shortest_example :
    (m' : Writer.Context (List ℕ)) × (build big_host (Build.array 20) (some (writer Endian.big))
      ≡ (ok, some m'))
    × (m'.buffer_amount - m'.buffer_offset ≤ 5)
build_shortest_example =
    build_shortest big_host (Build.array 20) (writer Endian.big) refl refl (omega arith) refl
      (Encodes.array32 20 (omega arith))

build_wastes_example :
    (m' : Writer.Context (List ℕ)) × (bs : List ℕ) × (build big_host
        (Build.str 20)
        (some (writer Endian.big))
      ≡ (ok, some m'))
    × Encodes bs (Item.str 20)
    × (length bs < m'.buffer_amount - m'.buffer_offset)
build_wastes_example =
    build_wastes big_host (Build.str 20) (writer Endian.big) refl refl (omega arith) refl

abbrev broken : Writer.Context (List ℕ)
broken = record midway { status = Writer.Status.fatal_error }

run-fatal_example : run big_host calls (some broken) (0xcd ∷ []) ≡ (some broken, 0xcd ∷ [])
run-fatal_example = run-fatal big_host broken refl calls (0xcd ∷ [])
