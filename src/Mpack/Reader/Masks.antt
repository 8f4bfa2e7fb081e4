-- ===== src/Mpack/Reader/Masks.antt =====
-- The short forms, of which the first byte says all: which mask of `mpack_process_format` a byte
-- passes first, and what it holds. Each fact is a table over the bytes of one form.
use apilib.Base.{
  ℕ, ◌+◌, ◌<◌, ◌≡◌, refl, true, ◌&&◌, not, bit_and, ◌==◌, passes_upto, passes_upto_line, arith,
}
use apilib.Base.Int.{of_word}
use apilib.Base.Memory.{Host}
use apilib.Mpack.Code.{int, str, array, map}
use apilib.Mpack.Reader.{Context, set_i64, set_u32}
use apilib.Mpack.Reader.Format.{process_format_some, complete}
use apilib.Mpack.Reader.Steps.{told}

fixint_positive_table : passes_upto 128 (λ n. (bit_and n 0x80 == 0x00)) ≡ true
unfolding passes_upto
fixint_positive_table = refl

pub process-fixint_positive :
    {R : Type 0} (host : Host) (m : Context R) (n : ℕ)
    → n < 128
    → process_format_some host (told n m) ≡ complete int (set_i64 host (of_word 8 n)) (told n m)
unfolding process_format_some
process-fixint_positive host m n h =
    ground (arith, passes_upto_line 128 _ n fixint_positive_table h)

fixint_negative_table :
    passes_upto 32
      (λ n. not (bit_and (0xe0 + n) 0x80 == 0x00) && ((bit_and (0xe0 + n) 0xe0 == 0xe0)))
    ≡ true
unfolding passes_upto
fixint_negative_table = refl

pub process-fixint_negative :
    {R : Type 0} (host : Host) (m : Context R) (n : ℕ)
    → n < 32
    → process_format_some host (told (0xe0 + n) m)
      ≡ complete int (set_i64 host (of_word 8 (0xe0 + n))) (told (0xe0 + n) m)
unfolding process_format_some
process-fixint_negative host m n h = ground (arith, passes_upto_line 32 _ n fixint_negative_table h)

fixarray_table :
    passes_upto 16 (λ n.
      not (bit_and (0x90 + n) 0x80 == 0x00)
      && (not (bit_and (0x90 + n) 0xe0 == 0xe0)
          && ((bit_and (0x90 + n) 0xf0 == 0x90) && ((bit_and (0x90 + n) 0x0f == n)))))
    ≡ true
unfolding passes_upto
fixarray_table = refl

pub process-fixarray :
    {R : Type 0} (host : Host) (m : Context R) (n : ℕ)
    → n < 16
    → process_format_some host (told (0x90 + n) m)
      ≡ complete array (set_u32 host n) (told (0x90 + n) m)
unfolding process_format_some
process-fixarray host m n h = ground (arith, passes_upto_line 16 _ n fixarray_table h)

fixmap_table :
    passes_upto 16 (λ n.
      not (bit_and (0x80 + n) 0x80 == 0x00)
      && (not (bit_and (0x80 + n) 0xe0 == 0xe0)
          && (not (bit_and (0x80 + n) 0xf0 == 0x90)
              && ((bit_and (0x80 + n) 0xf0 == 0x80) && ((bit_and (0x80 + n) 0x0f == n))))))
    ≡ true
unfolding passes_upto
fixmap_table = refl

pub process-fixmap :
    {R : Type 0} (host : Host) (m : Context R) (n : ℕ)
    → n < 16
    → process_format_some host (told (0x80 + n) m)
      ≡ complete map (set_u32 host n) (told (0x80 + n) m)
unfolding process_format_some
process-fixmap host m n h = ground (arith, passes_upto_line 16 _ n fixmap_table h)

fixstr_table :
    passes_upto 32 (λ n.
      not (bit_and (0xa0 + n) 0x80 == 0x00)
      && (not (bit_and (0xa0 + n) 0xe0 == 0xe0)
          && (not (bit_and (0xa0 + n) 0xf0 == 0x90)
              && (not (bit_and (0xa0 + n) 0xf0 == 0x80)
                  && ((bit_and (0xa0 + n) 0xe0 == 0xa0) && ((bit_and (0xa0 + n) 0x1f == n)))))))
    ≡ true
unfolding passes_upto
fixstr_table = refl

pub process-fixstr :
    {R : Type 0} (host : Host) (m : Context R) (n : ℕ)
    → n < 32
    → process_format_some host (told (0xa0 + n) m)
      ≡ complete str (set_u32 host n) (told (0xa0 + n) m)
unfolding process_format_some
process-fixstr host m n h = ground (arith, passes_upto_line 32 _ n fixstr_table h)
