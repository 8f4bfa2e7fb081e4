-- ===== src/Mpack/Reader/Formats.antt =====
-- Which first bytes `mpack_process_format` takes, and how many digits each is to be followed by.
use apilib.Base.{
  ℕ, ◌<◌, ◌≡◌, ◌+◌, ◌-◌, ◌^◌, if◌then◌else◌, refl, Bool, true, false, ◌&&◌, ◌==◌, Option, some,
  none, passes_upto, passes_upto_line, leb,
}
use apilib.Base.Memory.{Host}
use apilib.Mpack.Code.{Code, ok, error_invalid_format}
use apilib.Mpack.Reader.{Context, is_receive_number, is_xchange}
use apilib.Mpack.Reader.Format.{
  process_format_step, process_format_some, process_format_sized, process_format_tail,
}
use apilib.Mpack.Reader.Steps.{told}

-- The number of bytes that stand between the first byte and the data of an object, by the tables of
-- the MessagePack format; none for the byte that is never used.
unfoldable pub digits_of : ℕ → Option ℕ
digits_of f =
    if leb f 0xc0
    then some 0
    else if f == 0xc1
    then none
    else if leb f 0xc3
    then some 0
    else if leb f 0xc6
    then some (2 ^ (f - 0xc4))
    else if leb f 0xc9
    then some (2 ^ (f - 0xc7) + 1)
    else if leb f 0xcb
    then some (2 ^ (f - 0xc8))
    else if leb f 0xcf
    then some (2 ^ (f - 0xcc))
    else if leb f 0xd3
    then some (2 ^ (f - 0xd0))
    else if leb f 0xd8
    then some 1
    else if leb f 0xdb
    then some (2 ^ (f - 0xd9))
    else if leb f 0xdd
    then some (2 ^ (f - 0xdb))
    else if leb f 0xdf
    then some (2 ^ (f - 0xdd))
    else some 0

-- What the reader does next agrees with the table.
abbrev pub agrees : {R : Type 0} → Option ℕ → Code × Option (Context R) → Bool
agrees none (error_invalid_format, some m) = true
agrees (some n) (ok, some m) =
    if n == 0
    then is_xchange m.status
    else is_receive_number m.status && (m.number_need == n && m.number_read == 0)
agrees _ _ = false

formats_table :
    (R : Type 0) (host : Host) (m : Context R)
    → passes_upto 256 (λ f. agrees (digits_of f) (process_format_some host (told f m))) ≡ true
unfolding passes_upto process_format_some process_format_sized process_format_tail digits_of
formats_table R host m = refl

-- On each of the 256 first bytes `mpack_process_format` does what the tables of the MessagePack
-- format say: it refuses the one byte that is never used; it has the object at once where no digits
-- follow; and otherwise it waits, with none read yet, for just the number of digits that follow.
pub process_format-digits :
    {R : Type 0} (host : Host) (m : Context R) (f : ℕ)
    → f < 256
    → agrees (digits_of f) (process_format_step host (some (told f m))) ≡ true
unfolding process_format_step
process_format-digits {R} host m f h = passes_upto_line 256 _ f (formats_table R host m) h
