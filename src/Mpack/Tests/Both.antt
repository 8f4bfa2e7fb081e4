-- ===== src/Mpack/Tests/Both.antt =====
-- The theorems about the two ends of a stream at concrete inputs.
use apilib.Base.{◌++◌}
use apilib.Base.{false, ◌^◌, ℕ, ◌≡◌, refl, true, some, none, List, ◌∷◌, [], arith}
use apilib.Base.Int.{negsuc}
use apilib.Base.Memory.{big_host, little_host}
use apilib.Mpack.Code.{ok, error_invalid_operation, Endian}
use apilib.Mpack.Reader
use apilib.Mpack.Writer.Header.{Build}
use apilib.Mpack.Tests.{
  narrow_sink-IsSink, narrow_sink-IsLive, memory_source-IsSource, writer, reader, writer-IsReady,
  reader-IsReader,
}
use apilib.Mpack.Stream.{transmit, items, Receives}
use apilib.Mpack.Stream.RoundTrip.{round_trip}
use apilib.Mpack.Stream.Messages.{Message, EncodesAll, send_messages, send_messages-Encodes}
use apilib.Mpack.Swap.{swap16, swap32, swap64, Reverses, Converts, swap-Reverses}
use apilib.Mpack.Defects.{write_empty_str, StaleSize, fixext_size_stale, sized_data_unread}
use apilib.Mpack.Reader.Meaning.{Holds}
use apilib.Mpack.Wire.{Item, Encodes}
use apilib.Mpack.Writer.Emit.{write_str}
use apilib.Mpack.Reader.Receive.{receive_object, receive_object_binary}

abbrev sample : List Build
sample =
    Build.int64 (negsuc 999) ∷ Build.uint16 300 ∷ Build.array 2 ∷ Build.bool true ∷ Build.nil ∷ []

round_trip_example :
    ((transmit big_host sample (some (writer Endian.big)) []).0 ≡ ok)
    × Receives little_host
        (λ r. r)
        (items sample)
        []
        (reader Endian.little)
        (transmit big_host sample (some (writer Endian.big)) []).2
round_trip_example =
    round_trip big_host little_host sample (writer Endian.big) [] (reader Endian.little)
      (transmit big_host sample (some (writer Endian.big)) []).2 narrow_sink-IsSink
      narrow_sink-IsLive writer-IsReady
      (refl, refl, (omega arith, refl, (omega arith, refl, (tt, refl, (tt, refl, tt))))) refl
      memory_source-IsSource reader-IsReader refl refl

swap-Reverses_example :
    Reverses swap16 (1 ∷ 2 ∷ []) (9 ∷ [])
    × Reverses swap32 (1 ∷ 2 ∷ 3 ∷ 4 ∷ []) (9 ∷ [])
    × Reverses swap64 (1 ∷ 2 ∷ 3 ∷ 4 ∷ 5 ∷ 6 ∷ 7 ∷ 8 ∷ []) (9 ∷ [])
    × Converts swap16 2 258 (9 ∷ [])
    × Converts swap32 4 258 (9 ∷ [])
    × Converts swap64 8 258 (9 ∷ [])
    × (swap16 none ≡ (false, none))
    × (swap32 none ≡ (false, none))
    × (swap64 none ≡ (false, none))
swap-Reverses_example = swap-Reverses 258 1 2 3 4 5 6 7 8 (9 ∷ [])

write_empty_str_example :
    ((write_str big_host (some (writer Endian.big)) none 0 none []).0 ≡ error_invalid_operation)
    × ((write_str big_host (some (writer Endian.big)) none 0 none []).3 ≡ 0xa0 ∷ [])
write_empty_str_example =
    write_empty_str narrow_sink-IsSink big_host (writer Endian.big) none none [] writer-IsReady refl

fixext_size_stale_example :
    StaleSize memory_source-IsSource little_host
      (reader Endian.little)
      (0xd6 ∷ 9 ∷ 1 ∷ [])
      refl
      reader-IsReader
      (2 ^ 2)
      9
      5
      6
      (1 ∷ [])
fixext_size_stale_example =
    fixext_size_stale memory_source-IsSource little_host (reader Endian.little) (0xd6 ∷ 9 ∷ 1 ∷ [])
      refl reader-IsReader 2 9 5 6 (1 ∷ []) (omega arith) refl

sized_data_unread_example :
    (m' : Reader.Context (List ℕ)) × (r' : List ℕ) × (receive_object little_host
        (some (reader Endian.little))
        (0xd9 ∷ 2 ∷ 97 ∷ 98 ∷ [])
      ≡ (ok, some m', r'))
    × Holds little_host (Item.str 2) m'.object
    × (receive_object_binary (some m') (0 ∷ 0 ∷ []) 2 r' ≡ (ok, some m', 0 ∷ 0 ∷ [], r'))
    × (r' ≡ 97 ∷ 98 ∷ [])
sized_data_unread_example =
    sized_data_unread memory_source-IsSource little_host (reader Endian.little)
      (0xd9 ∷ 2 ∷ 97 ∷ 98 ∷ []) refl reader-IsReader 2 (97 ∷ 98 ∷ []) (0 ∷ 0 ∷ [])
      (Encodes.str8 2 (omega arith)) refl (omega arith) refl refl

abbrev letter : List Message
letter = (Build.str 3, 97 ∷ 98 ∷ 99 ∷ []) ∷ (Build.uint08 200, []) ∷ (Build.bin 0, []) ∷ []

send_messages-Encodes_example :
    (bs : List ℕ) × EncodesAll bs letter
    × ((send_messages big_host letter (some (writer Endian.big)) []).0 ≡ ok)
    × ((send_messages big_host letter (some (writer Endian.big)) []).2 ≡ [] ++ bs)
send_messages-Encodes_example =
    send_messages-Encodes big_host narrow_sink-IsSink narrow_sink-IsLive letter (writer Endian.big)
      [] writer-IsReady (omega arith, refl, (omega arith, refl, (omega arith, refl, tt)))
