-- ===== src/Mem.antt =====
-- mem/: primitives on memory. Memory is a list of bytes whose index is the address, so that two
-- arguments may overlap; the address 0 is NULL.
pub mod Copy
pub mod Exchange
pub mod Compare
pub mod Find
pub mod Elements
mod Tests
use apilib.Base.{ℕ, List, get_or}

abbrev pub Memory : Type 0
Memory = List ℕ

-- The byte at an address.
abbrev pub read : Memory → ℕ → ℕ
read m a = get_or m a 0
