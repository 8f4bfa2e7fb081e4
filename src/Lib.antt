-- ===== src/Lib.antt =====
-- A verification library for APILIB, a collection of small algorithms in C++.
--
-- Modelled is mpack/, which writes and reads MessagePack objects over a byte stream without owning
-- any memory. A writer (mpack/mpackwrite.cpp) has a context with a buffer of ten bytes: an
-- `mpack_build_*` puts the header of an object there, `mpack_write_object` hands the buffer and then
-- the object's data to the client's callback, which may take them in parts, and an `mpack_write_*`
-- does both at once. A reader (mpack/mpackread.cpp) is a machine of five states: it receives the
-- first byte of an object through its callback, processes it, receives the digits that follow,
-- processes them, and then has the object in a tagged union, from which an `mpack_get_*` takes it.
--
-- Modelled too are the byte procedures of mem/, which stand alone: copying, exchange, filling,
-- comparison and search; and of str/ the characters, the conversion of numbers and of bytes from
-- and to text, and the length, comparison, copying and joining of zero terminated strings. There
-- strnum.hpp reads and writes digits by chrnum.hpp, strcat.hpp finds the end by strlen.hpp and
-- copies by strcpy.hpp, strcmp.hpp compares by chrcmp.hpp, and strhex.hpp uses the classes of
-- chr.hpp.
--
-- Which file models what:
--   Mpack/Code         the enumerations of mpack/mpack.h: codes, byte orders, object types
--   Mpack/Format       the format bytes of mpack/mpack.h
--   Mpack/Limits       the limits of the integer types of include/lib.h, and conversions
--   Mpack/Swap         mpack_swap16, mpack_swap32, mpack_swap64
--   Mpack/Writer       the context of mpack/mpackwrite.h, mpack_write_object with its two halves,
--                      mpack_reset_write_context
--   Mpack/Writer/Guard, Int, Object    the mpack_build_* procedures and what they share
--   Mpack/Writer/Emit  the mpack_write_* procedures
--   Mpack/Reader       the context of mpack/mpackread.h and its union
--   Mpack/Reader/Format, Number, Receive   mpack_process_format, mpack_process_number, and the
--                      receiving procedures, with mpack_receive_object and mpack_recv_reset
--   Mpack/Reader/GetInt, GetObject     the mpack_get_* procedures
--   Mem/Copy           mem/memcpy.cpp and mem/memset.cpp
--   Mem/Compare        mem/memcmp.cpp
--   Mem/Find           mem/memfind.cpp
--   Mem/Elements       mem/memspn.hpp, mem/memsearch.hpp, mem/memreplace.hpp
--   Str/Chr, ChrCmp, ChrNum            str/chr.hpp, str/chrcmp.hpp, str/chrnum.hpp
--   Str/Read           str/strnum.hpp: reading of numbers
--   Str/Print          str/strnum.hpp: writing of numbers
--   Str/Numbers        str/strnum.cpp: the functions of each type
--   Str/Len, Compare, Copy             str/strlen.hpp, str/strcmp.hpp, str/strcpy.hpp, str/strcat.hpp
--   Str/Hex            str/strhex.hpp
--   Str/Search         str/strchr.hpp, str/strspn.hpp, str/strstr.hpp
--   Str/Trim           str/strtrim.hpp
--   Str/Alloc          str/strmem.hpp
--   Str/Encode         str/strenc.hpp, str/strenc.cpp
-- Mem/Exchange has the proofs about memswap, and Mem/Tests the theorems on a small memory.
-- A definition has the name of its C procedure without `mpack_`; the four internal steps of the
-- reader end in `_step`, since their plain names are those of the states. Long procedures are cut
-- into pieces, each with a comment that says which.
--
-- What the code is compared with is written without it: Mpack/Wire has the objects of the format
-- and their headers (`Encodes`), Mpack/Reader/Meaning says when the union holds an object,
-- Mpack/Reader/Formats how many digits follow each first byte, and Mpack/Stream has a sender and a
-- receiver of lists of objects. Mpack/Writer/Header and Mpack/Writer/Machine give the calls of the
-- writer as data. The other files under Mpack/Writer and Mpack/Reader hold proofs, Mpack/Defects the cases in which
-- the code departs from what its interface says, and Mpack/Tests the theorems at concrete inputs.
--
-- How state is passed: a procedure takes the context and returns it with the result code. A pointer
-- is an `Option`, none for NULL; where the procedure stores through it, the result has the new
-- value. A callback is a function on a state of its own (`W` or `R`), which stands for all that it
-- can reach, so it can do anything but touch the context. What it promises is a hypothesis where it
-- is needed: `IsSink` and `IsLive` for writing, `IsSource` and `IsPartialSource` for reading.
--
-- In Mem a pointer is an address in one memory, a list of bytes, so that arguments may overlap; the
-- address 0 is NULL. A loop over an index has the number of rounds left as an argument; the address
-- space does not wrap around.
--
-- In Str a character is its code, without a sign; `CharType` says which of the two types it has where
-- the order of characters matters. A string that is only read is the list of the characters from
-- its pointer on, and `*endptr` is the rest of that list; what lies beyond a list reads as zero. Where a
-- function writes, or compares pointers, strings are addresses in one memory of characters. The
-- functions for `char` and `wchar_t` and, in strnum.hpp, for each width of the number are one
-- template in the code and one definition here. In a definition's name the letters `x`, `a` and `w` of
-- the code's suffixes are left out, so that `strcpy_ln` is `__strcpy_lnx`.
--
-- Numbers: an unsigned integer is a number, a signed one an integer, and every cast and every
-- addition that can wrap has its reduction written out. The bytes of a number in memory depend on
-- `Host`, the byte order of the machine; the contexts' `endian` is what the client declared it to
-- be, and `IsNative` says that the two agree. A float is its bit pattern, and the reader's union is
-- its eight bytes, so that a member can be read after another was written.
--
-- Fuel: only the clients of Mpack/Writer/Resume and Mpack/Writer/Deliver, which repeat a call, have a
-- bound on their calls. As many as there are bytes left are enough, and one more where there may be
-- none; in Mpack/Stream that is ten for a header, the size of the buffer. In Str/Print the loops over
-- the digits of a number of w bits have w + 1 rounds, and in Str/Copy the loop has one round more
-- than the memory has characters, and that of `memreplace` two more than the size of its data; they
-- return `none` if that is too little, and the theorems show that it is not.
--
-- Not modelled: a status, byte order or object type outside its enumeration; a callback that enters
-- the library again; addresses and lifetimes of the client's buffers; a `size_t` that wraps around.
-- Of the other parts, the conversions of str/ that the system does, the table of strhex.hpp and
-- hook/ (splicing of machine code) are not modelled; hde/ is a copy of another project, and ntdll/
-- has declarations only. The allocator that strmem.hpp calls is a parameter of Str/Alloc.
pub mod Base
pub mod Mem
pub mod Mpack
pub mod Str
