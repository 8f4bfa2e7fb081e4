-- ===== src/Mem/Tests.antt =====
-- The theorems about mem/ on a small memory.
use apilib.Base.{◌≡◌, inl, true, ◌∷◌, [], arith}
use apilib.Mem.{Memory, read}
use apilib.Mem.Compare.{memcmp, Compares, memcmp-Compares}
use apilib.Mem.Copy.{memcpy, memmove, moved}
use apilib.Mem.Copy.{memcpy_moves, memmove_moves}
use apilib.Mem.Exchange.{crossed, memswap_exchanges}
use apilib.Mem.Copy.{memswap}
use apilib.Mem.Find.{memfind, Finds, memfind-Finds}

abbrev bytes : Memory
bytes = 0 ∷ 11 ∷ 12 ∷ 13 ∷ 14 ∷ 12 ∷ 13 ∷ 17 ∷ []

memcpy_moves_example :
    ((memcpy 1 2 4 bytes).0 ≡ true) × (read (memcpy 1 2 4 bytes).1 3 ≡ moved 1 2 4 bytes 3)
memcpy_moves_example =
    memcpy_moves 1 2 4 3 bytes (omega arith) (omega arith) (inl (omega arith)) (omega arith)

memmove_moves_example :
    ((memmove 1 3 4 bytes).0 ≡ true) × (read (memmove 1 3 4 bytes).1 4 ≡ moved 1 3 4 bytes 4)
memmove_moves_example =
    memmove_moves 1 3 4 4 bytes (omega arith) (omega arith) (omega arith) (omega arith)

memswap_exchanges_example :
    ((memswap 1 4 3 bytes).0 ≡ true) × (read (memswap 1 4 3 bytes).1 5 ≡ crossed 0 3 1 4 bytes 5)
memswap_exchanges_example =
    memswap_exchanges 1 4 3 5 bytes (omega arith) (omega arith) (inl (omega arith)) (omega arith)
      (omega arith)

memcmp-Compares_example : Compares 0 3 2 5 bytes (memcmp 2 5 3 bytes)
memcmp-Compares_example = memcmp-Compares 2 5 3 bytes (omega arith) (omega arith)

memfind-Finds_example : Finds 3 8 2 2 bytes (memfind 3 6 2 2 bytes)
memfind-Finds_example =
    memfind-Finds 3 6 2 2 bytes (omega arith) (omega arith) (omega arith) (omega arith)
