-- ===== src/Mpack/Tests/Receiver.antt =====
-- The theorems about the reader at concrete inputs.
use apilib.Base.{ℕ, ◌<◌, ◌≡◌, ◌⊎◌, refl, true, some, List, ◌∷◌, [], ◌++◌, take, arith, inl}
use apilib.Base.Int.{pos, negsuc}
use apilib.Base.Memory.{little_host}
use apilib.Mpack.Code.{ok, error_not_enough_data, Endian}
use apilib.Mpack.Reader
use apilib.Mpack.Wire.{Item, Encodes}
use apilib.Mpack.Tests.{
  memory_source, memory_source-IsSource, reader, reader-IsReader, slow_source-IsPartialSource,
  waiting, holding,
}
use apilib.Mpack.Code.{error_buffer_too_small}
use apilib.Mpack.Reader.Decode.{decode}
use apilib.Mpack.Reader.Format.{process_format_step}
use apilib.Mpack.Reader.Formats.{digits_of, agrees, process_format-digits}
use apilib.Mpack.Reader.GetInt.{
  get_int_as_int08, get_int_as_int16, get_int_as_int32, get_int_as_int64,
}
use apilib.Mpack.Reader.GetInt.{
  get_int_as_uint08, get_int_as_uint16, get_int_as_uint32, get_int_as_uint64,
}
use apilib.Mpack.Reader.Meaning.{Decoded}
use apilib.Mpack.Reader.Partial.{receive_number_resumes, receive_binary_resumes}
use apilib.Mpack.Reader.Receive.{receive_number_step, receive_object_binary}
use apilib.Mpack.Reader.Steps.{told}
use apilib.Mpack.Reader.Values.{get_int_values}

decode_example :
    Decoded little_host memory_source
      (λ r. r)
      (Item.int (pos 300))
      (7 ∷ [])
      (reader Endian.little)
      (0xcd ∷ 1 ∷ 44 ∷ 7 ∷ [])
decode_example =
    decode memory_source-IsSource little_host (reader Endian.little) (0xcd ∷ 1 ∷ 44 ∷ 7 ∷ []) refl
      reader-IsReader (7 ∷ []) (Encodes.uint16 300 (omega arith)) refl refl

abbrev waiting_less : Reader.Context (List ℕ)
waiting_less = record waiting {
  number_data = 1 ∷ 2 ∷ 0 ∷ 0 ∷ 0 ∷ 0 ∷ 0 ∷ 0 ∷ 0 ∷ 0 ∷ [];
  number_read = 2;
}

served_one :
    receive_number_step (some waiting) (2 ∷ 3 ∷ [])
    ≡ (error_not_enough_data, some waiting_less, 3 ∷ [])
unfolding receive_number_step
served_one = refl

receive_number_resumes_example :
    (take waiting_less.number_read waiting_less.number_data ++ 3 ∷ []
      ≡ take waiting.number_read waiting.number_data ++ 2 ∷ 3 ∷ [])
    × (waiting_less.number_need ≡ waiting.number_need)
    × ((error_not_enough_data ≡ ok)
          × (waiting_less.number_read ≡ waiting.number_need)
          × (waiting_less.status ≡ Reader.Status.process_number)
        ⊎ (error_not_enough_data ≡ error_not_enough_data)
          × (waiting_less.number_read < waiting.number_need)
          × (waiting_less.status ≡ Reader.Status.receive_number))
receive_number_resumes_example =
    receive_number_resumes slow_source-IsPartialSource waiting (2 ∷ 3 ∷ []) refl refl refl
      (omega arith) (omega arith) served_one

abbrev owing : Reader.Context (List ℕ)
owing = record waiting { binary_need = 2; binary_read = 1 }

abbrev before : List ℕ
before = 8 ∷ 0 ∷ []

abbrev after : List ℕ
after = 8 ∷ 9 ∷ []

abbrev owing_none : Reader.Context (List ℕ)
owing_none = record owing { binary_read = 2 }

served_last :
    receive_object_binary (some owing) (8 ∷ 0 ∷ []) 2 (9 ∷ [])
    ≡ (ok, some owing_none, 8 ∷ 9 ∷ [], [])
unfolding receive_object_binary
served_last = refl

receive_binary_resumes_example :
    (take owing_none.binary_read after ++ [] ≡ take owing.binary_read before ++ 9 ∷ [])
    × (owing_none.binary_need ≡ owing.binary_need)
    × ((ok ≡ ok) × (owing_none.binary_read ≡ owing.binary_need)
        ⊎ (ok ≡ error_not_enough_data) × (owing_none.binary_read < owing.binary_need))
receive_binary_resumes_example =
    receive_binary_resumes slow_source-IsPartialSource owing (8 ∷ 0 ∷ []) 2 (9 ∷ []) refl
      (omega arith) (omega arith) (omega arith) (omega arith) served_last

get_int_values_example :
    (get_int_as_int08 little_host (some holding) (some (pos 7)) ≡ (ok, some (negsuc 4)))
    × (get_int_as_int16 little_host (some holding) (some (pos 7)) ≡ (ok, some (negsuc 4)))
    × (get_int_as_int32 little_host (some holding) (some (pos 7)) ≡ (ok, some (negsuc 4)))
    × (get_int_as_int64 little_host (some holding) (some (pos 7)) ≡ (ok, some (negsuc 4)))
    × (get_int_as_uint08 little_host (some holding) (some 7) ≡ (error_buffer_too_small, some 7))
    × (get_int_as_uint16 little_host (some holding) (some 7) ≡ (error_buffer_too_small, some 7))
    × (get_int_as_uint32 little_host (some holding) (some 7) ≡ (error_buffer_too_small, some 7))
    × (get_int_as_uint64 little_host (some holding) (some 7) ≡ (error_buffer_too_small, some 7))
get_int_values_example =
    get_int_values little_host holding refl (negsuc 4) (pos 7) 7 (inl (refl, refl)) refl

process_format-digits_example :
    agrees
      (digits_of 0xc9)
      (process_format_step little_host (some (told 0xc9 (reader Endian.little))))
    ≡ true
process_format-digits_example =
    process_format-digits little_host (reader Endian.little) 0xc9 (omega arith)
