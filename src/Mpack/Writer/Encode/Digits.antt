-- ===== src/Mpack/Writer/Encode/Digits.antt =====
-- The bit masks of the short forms, and the byte order of the digits.
use apilib.Base.{ℕ, ◌+◌, ◌<◌, ◌≡◌, refl, true, ◌&&◌, List, arith}
use apilib.Base.{bit_and, bit_or, ◌==◌, passes_upto, passes_upto_line}
use apilib.Base.Memory.{Host, big_host, little_host, memory, big_bytes}
use apilib.Mpack.Code.{Code}
use apilib.Mpack.Swap.{IsNative, swap16, swap32, swap64}
use apilib.Mpack.Writer.{Context}
use apilib.Mpack.Writer.Guard.{swapped}

-- The short forms: the low bits of the format byte are the size.
short_table :
    passes_upto 16 (λ n.
      bit_or 0xa0 (bit_and n 0x0f) == 0xa0 + n
      && (bit_or 0x90 (bit_and n 0x0f) == 0x90 + n && bit_or 0x80 (bit_and n 0x0f) == 0x80 + n))
    ≡ true
unfolding passes_upto
short_table = refl

pub short_str : (n : ℕ) → n < 16 → bit_or 0xa0 (bit_and n 0x0f) ≡ 0xa0 + n
short_str n h = ground (arith, passes_upto_line 16 _ n short_table h)

pub short_array : (n : ℕ) → n < 16 → bit_or 0x90 (bit_and n 0x0f) ≡ 0x90 + n
short_array n h = ground (arith, passes_upto_line 16 _ n short_table h)

pub short_map : (n : ℕ) → n < 16 → bit_or 0x80 (bit_and n 0x0f) ≡ 0x80 + n
short_map n h = ground (arith, passes_upto_line 16 _ n short_table h)

module _ {W : Type 0} where
  -- Where the declared order is the machine's, the digits come out in big-endian order.
  pub swapped16 :
      (host : Host) (x : ℕ) (m : Context W) (next : List ℕ → Context W → Code × Context W)
      → IsNative m.endian host
      → swapped swap16 (memory host 2 x) m next ≡ next (big_bytes 2 x) m
  swapped16 big_host x m next e = rw e
  swapped16 little_host x m next e = rw e

  pub swapped32 :
      (host : Host) (x : ℕ) (m : Context W) (next : List ℕ → Context W → Code × Context W)
      → IsNative m.endian host
      → swapped swap32 (memory host 4 x) m next ≡ next (big_bytes 4 x) m
  swapped32 big_host x m next e = rw e
  swapped32 little_host x m next e = rw e

  pub swapped64 :
      (host : Host) (x : ℕ) (m : Context W) (next : List ℕ → Context W → Code × Context W)
      → IsNative m.endian host
      → swapped swap64 (memory host 8 x) m next ≡ next (big_bytes 8 x) m
  swapped64 big_host x m next e = rw e
  swapped64 little_host x m next e = rw e
