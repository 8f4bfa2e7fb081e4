-- ===== src/Mpack/Wire.antt =====
-- What the library promises: the MessagePack objects that a header can stand for, and the byte
-- strings that the format's description gives for each. Nothing here is taken from the code.
use apilib.Base.{ℕ, ◌+◌, ◌-◌, ◌^◌, ◌<◌, Bool, true, false, List, ◌∷◌, [], ◌++◌}
use apilib.Base.Int.{ℤ, pos, negsuc, of_word}
use apilib.Base.Memory.{big_bytes}

-- An object without its elements and without the bytes of a string. A float is its bit pattern.
pub data Item : Type 0 where
  int : ℤ → Item
  nil : Item
  bool : Bool → Item
  float double : ℕ → Item
  str bin array map : ℕ → Item
  ext : ℕ → ℕ → Item

-- `Encodes bs it`: the bytes `bs` are a header of `it`.
pub data Encodes : List ℕ → Item → Type 0 where
  fixint_positive : (n : ℕ) → n < 128 → Encodes (n ∷ []) (int (pos n))
  fixint_negative : (n : ℕ) → n < 32 → Encodes ((0xe0 + n) ∷ []) (int (negsuc (31 - n)))
  nil_byte : Encodes (0xc0 ∷ []) nil
  false_byte : Encodes (0xc2 ∷ []) (bool false)
  true_byte : Encodes (0xc3 ∷ []) (bool true)
  float32 : (x : ℕ) → x < 2 ^ 32 → Encodes (0xca ∷ big_bytes 4 x) (float x)
  float64 : (x : ℕ) → x < 2 ^ 64 → Encodes (0xcb ∷ big_bytes 8 x) (double x)
  uint8 : (x : ℕ) → x < 2 ^ 8 → Encodes (0xcc ∷ big_bytes 1 x) (int (pos x))
  uint16 : (x : ℕ) → x < 2 ^ 16 → Encodes (0xcd ∷ big_bytes 2 x) (int (pos x))
  uint32 : (x : ℕ) → x < 2 ^ 32 → Encodes (0xce ∷ big_bytes 4 x) (int (pos x))
  uint64 : (x : ℕ) → x < 2 ^ 64 → Encodes (0xcf ∷ big_bytes 8 x) (int (pos x))
  int8 : (x : ℕ) → x < 2 ^ 8 → Encodes (0xd0 ∷ big_bytes 1 x) (int (of_word 8 x))
  int16 : (x : ℕ) → x < 2 ^ 16 → Encodes (0xd1 ∷ big_bytes 2 x) (int (of_word 16 x))
  int32 : (x : ℕ) → x < 2 ^ 32 → Encodes (0xd2 ∷ big_bytes 4 x) (int (of_word 32 x))
  int64 : (x : ℕ) → x < 2 ^ 64 → Encodes (0xd3 ∷ big_bytes 8 x) (int (of_word 64 x))
  fixstr : (n : ℕ) → n < 32 → Encodes ((0xa0 + n) ∷ []) (str n)
  str8 : (n : ℕ) → n < 2 ^ 8 → Encodes (0xd9 ∷ big_bytes 1 n) (str n)
  str16 : (n : ℕ) → n < 2 ^ 16 → Encodes (0xda ∷ big_bytes 2 n) (str n)
  str32 : (n : ℕ) → n < 2 ^ 32 → Encodes (0xdb ∷ big_bytes 4 n) (str n)
  bin8 : (n : ℕ) → n < 2 ^ 8 → Encodes (0xc4 ∷ big_bytes 1 n) (bin n)
  bin16 : (n : ℕ) → n < 2 ^ 16 → Encodes (0xc5 ∷ big_bytes 2 n) (bin n)
  bin32 : (n : ℕ) → n < 2 ^ 32 → Encodes (0xc6 ∷ big_bytes 4 n) (bin n)
  fixext1 : (t : ℕ) → t < 256 → Encodes (0xd4 ∷ t ∷ []) (ext 1 t)
  fixext2 : (t : ℕ) → t < 256 → Encodes (0xd5 ∷ t ∷ []) (ext 2 t)
  fixext4 : (t : ℕ) → t < 256 → Encodes (0xd6 ∷ t ∷ []) (ext 4 t)
  fixext8 : (t : ℕ) → t < 256 → Encodes (0xd7 ∷ t ∷ []) (ext 8 t)
  fixext16 : (t : ℕ) → t < 256 → Encodes (0xd8 ∷ t ∷ []) (ext 16 t)
  ext8 : (n t : ℕ) → n < 2 ^ 8 → t < 256 → Encodes (0xc7 ∷ big_bytes 1 n ++ t ∷ []) (ext n t)
  ext16 : (n t : ℕ) → n < 2 ^ 16 → t < 256 → Encodes (0xc8 ∷ big_bytes 2 n ++ t ∷ []) (ext n t)
  ext32 : (n t : ℕ) → n < 2 ^ 32 → t < 256 → Encodes (0xc9 ∷ big_bytes 4 n ++ t ∷ []) (ext n t)
  fixarray : (n : ℕ) → n < 16 → Encodes ((0x90 + n) ∷ []) (array n)
  array16 : (n : ℕ) → n < 2 ^ 16 → Encodes (0xdc ∷ big_bytes 2 n) (array n)
  array32 : (n : ℕ) → n < 2 ^ 32 → Encodes (0xdd ∷ big_bytes 4 n) (array n)
  fixmap : (n : ℕ) → n < 16 → Encodes ((0x80 + n) ∷ []) (map n)
  map16 : (n : ℕ) → n < 2 ^ 16 → Encodes (0xde ∷ big_bytes 2 n) (map n)
  map32 : (n : ℕ) → n < 2 ^ 32 → Encodes (0xdf ∷ big_bytes 4 n) (map n)
