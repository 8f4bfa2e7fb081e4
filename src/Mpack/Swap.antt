-- ===== src/Mpack/Swap.antt =====
-- `mpack_swap16`, `mpack_swap32` and `mpack_swap64` of mpack/mpackread.cpp, and the step shared by
-- the writer and the reader: a number is reversed in place on a little-endian machine.
use mathlib.Core.List.{reverse}
use apilib.Base.{
  ℕ, ◌≡◌, refl, Bool, true, false, Option, none, some, List, ◌∷◌, [], ◌++◌, get_or, set,
}
use apilib.Base.Memory.{Host, big_host, little_host, memory}
use apilib.Mpack.Code.{Endian, big, little}

-- `temp = p[i]; p[i] = p[j]; p[j] = temp;`
abbrev pub exchange : ℕ → ℕ → List ℕ → List ℕ
exchange i j p = set (set p i (get_or p j 0)) j (get_or p i 0)

-- The pointer is NULL or leads to the bytes of a number and what lies behind them. The result is
-- the returned flag and the bytes after the call.
abbrev pub swap16 : Option (List ℕ) → Bool × Option (List ℕ)
swap16 none = (false, none)
swap16 (some p) = (true, some (exchange 0 1 p))

abbrev pub swap32 : Option (List ℕ) → Bool × Option (List ℕ)
swap32 none = (false, none)
swap32 (some p) = (true, some (exchange 1 2 (exchange 0 3 p)))

abbrev pub swap64 : Option (List ℕ) → Bool × Option (List ℕ)
swap64 none = (false, none)
swap64 (some p) = (true, some (exchange 3 4 (exchange 2 5 (exchange 1 6 (exchange 0 7 p)))))

abbrev pub Swap : Type 0
Swap = Option (List ℕ) → Bool × Option (List ℕ)

-- The declared byte order is that of the machine.
abbrev pub IsNative : Endian → Host → Type 0
IsNative e big_host = e ≡ big
IsNative e little_host = e ≡ little

-- The bytes `p` are put into reverse order, and back, and what lies behind them stays.
abbrev pub Reverses : Swap → List ℕ → List ℕ → Type 0
Reverses swap p r =
    (swap (some (p ++ r)) ≡ (true, some (reverse p ++ r)))
    × (swap (some (reverse p ++ r)) ≡ (true, some (p ++ r)))

-- A number of `n` bytes as a little-endian machine stores it becomes that of a big-endian one.
abbrev pub Converts : Swap → ℕ → ℕ → List ℕ → Type 0
Converts swap n x r =
    swap (some (memory little_host n x ++ r)) ≡ (true, some (memory big_host n x ++ r))

-- Each procedure puts the bytes of a number of its width, two, four or eight, into reverse order
-- and leaves all behind them alone; so it turns a number stored by a little-endian machine into the
-- same one stored by a big-endian machine, and a second call takes that back. It returns true, and
-- for NULL false.
pub swap-Reverses :
    (x a b c d e f g h : ℕ) (r : List ℕ)
    → Reverses swap16 (a ∷ b ∷ []) r
      × Reverses swap32 (a ∷ b ∷ c ∷ d ∷ []) r
      × Reverses swap64 (a ∷ b ∷ c ∷ d ∷ e ∷ f ∷ g ∷ h ∷ []) r
      × Converts swap16 2 x r
      × Converts swap32 4 x r
      × Converts swap64 8 x r
      × (swap16 none ≡ (false, none))
      × (swap32 none ≡ (false, none))
      × (swap64 none ≡ (false, none))
swap-Reverses x a b c d e f g h r =
    ((refl, refl), (refl, refl), (refl, refl), refl, refl, refl, refl, refl, refl)
