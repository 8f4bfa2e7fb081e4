-- ===== src/Mpack/Reader/Meaning.antt =====
-- What it means that the reader has an object, and that it has read it.
use apilib.Base.{ℕ, ◌≡◌, ◌⊎◌, not, ◌==◌}
use apilib.Base.{some, List, take, length}
use apilib.Base.Int.{pos}
use apilib.Base.Memory.{Host, load}
use apilib.Mpack.Code.{ok, ObjectType}
use apilib.Mpack.Reader.{Context, ReadFn, Object, xchange_object}
use apilib.Mpack.Reader.{i64, u64, u32, byte, ext_type}
use apilib.Mpack.Reader.Receive.{receive_object}
use apilib.Mpack.Swap.{IsNative}
use apilib.Mpack.Wire.{Item}

-- The union and its tag stand for the object.
abbrev pub Holds : Host → Item → Object → Type 0
Holds host (Item.int z) o =
    ((o.type ≡ ObjectType.int) × (i64 host o ≡ z))
    ⊎ ((o.type ≡ ObjectType.uint) × (pos (u64 host o) ≡ z))
Holds host Item.nil o = o.type ≡ ObjectType.nil
Holds host (Item.bool b) o = (o.type ≡ ObjectType.bool) × (not (byte o == 0) ≡ b)
Holds host (Item.float x) o = (o.type ≡ ObjectType.float) × (load host (take 4 o.store) ≡ x)
Holds host (Item.double x) o = (o.type ≡ ObjectType.double) × (load host (take 8 o.store) ≡ x)
Holds host (Item.str n) o = (o.type ≡ ObjectType.str) × (u32 host o ≡ n)
Holds host (Item.bin n) o = (o.type ≡ ObjectType.bin) × (u32 host o ≡ n)
Holds host (Item.array n) o = (o.type ≡ ObjectType.array) × (u32 host o ≡ n)
Holds host (Item.map n) o = (o.type ≡ ObjectType.map) × (u32 host o ≡ n)
Holds host (Item.ext n t) o = (o.type ≡ ObjectType.ext) × (u32 host o ≡ n) × (ext_type o ≡ t)

-- What a context keeps from object to object: the machine's byte order, the callback, and the
-- sizes of its two arrays.
pub record IsReader {R : Type 0} (host : Host) (fn : ReadFn R) (m : Context R) : Type 0 where
  pub native : IsNative m.endian host
  pub callback : m.fn_read ≡ some fn
  pub data_size : length m.number_data ≡ 10
  pub store_size : length m.object.store ≡ 8

-- `mpack_receive_object` returned `ok`, took just the header off the stream, left the object, and
-- `binary_need` is what it was.
abbrev pub Decoded :
    {R : Type 0} → Host → ReadFn R → (R → List ℕ) → Item → List ℕ → Context R → R → Type 0
Decoded {R} host fn content it rest m r =
    (m' : Context R) × (r' : R) × (receive_object host (some m) r ≡ (ok, some m', r'))
    × (content r' ≡ rest)
    × (m'.status ≡ xchange_object)
    × Holds host it m'.object
    × IsReader host fn m'
    × (m'.binary_need ≡ m.binary_need)
