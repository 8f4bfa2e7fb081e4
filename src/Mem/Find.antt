-- ===== src/Mem/Find.antt =====
-- mem/memfind.cpp: the search for a piece of data in a piece of memory.
use apilib.Base.{ℕ, zero, suc, ◌+◌, ◌-◌, ◌≤◌, ◌<◌, ◌≡◌, ◌⊎◌, inl, inr, refl, ◌||◌}
use apilib.Base.{leb, ◌==◌, if◌then◌else◌, arith}
use apilib.Mem.{Memory, read}
use apilib.Mem.Compare.{memequ, memequ-Agree}
use native.Mathlib.Decide.{ℕ_discrete}

-- `while(ptr <= end)`, with `n` addresses left.
unfoldable pub find_up : ℕ → ℕ → ℕ → ℕ → Memory → ℕ
find_up zero ptr data_at data_size m = 0
find_up (suc n) ptr data_at data_size m =
    let rest = find_up n (suc ptr) data_at data_size m in
    if memequ ptr data_at data_size m then ptr else rest

unfoldable pub memfind : ℕ → ℕ → ℕ → ℕ → Memory → ℕ
memfind mem mem_size data_at data_size m =
    if mem == 0 || (mem_size == 0 || (data_at == 0 || data_size == 0))
    then 0
    else if leb data_size mem_size
    then find_up (suc (mem_size - data_size)) mem data_at data_size m
    else 0

-- All the data stand at the address `p`, byte by byte.
abbrev pub StandAt : ℕ → ℕ → ℕ → Memory → Type 0
StandAt p data_at data_size m = (k : ℕ) → k < data_size → read m (p + k) ≡ read m (data_at + k)

-- The data stand at no address from `lo` on and before `hi`.
abbrev pub Missing : ℕ → ℕ → ℕ → ℕ → Memory → Type 0
Missing lo hi data_at data_size m = (p : ℕ) → lo ≤ p → p < hi → ¬ StandAt p data_at data_size m

-- The result is the first address where the data stand, or NULL if there is none.
abbrev pub Finds : ℕ → ℕ → ℕ → ℕ → Memory → ℕ → Type 0
Finds lo hi data_at data_size m r =
    (r ≡ 0) × Missing lo hi data_at data_size m
    ⊎ (lo ≤ r) × (r < hi) × StandAt r data_at data_size m × Missing lo r data_at data_size m

Missing-more :
    (lo hi data_at data_size : ℕ) (m : Memory)
    → ¬ StandAt lo data_at data_size m
    → Missing (suc lo) hi data_at data_size m
    → Missing lo hi data_at data_size m
Missing-more lo hi data_at data_size m e rest p a b = elim (ℕ_discrete p lo) [
  | yes same ↦ rw same e
  | no other ↦ rest p (omega arith) b
]

find_up-Finds :
    (n lo hi data_at data_size : ℕ) (m : Memory)
    → 0 < lo
    → 0 < data_at
    → hi ≡ lo + n
    → Finds lo hi data_at data_size m (find_up n lo data_at data_size m)
unfolding find_up
find_up-Finds zero lo hi data_at data_size m there data_there e =
    inl (refl, λ p a b. absurd (omega arith))
find_up-Finds (suc n) lo hi data_at data_size m there data_there e =
    elim (memequ-Agree lo data_at data_size m there data_there) [
      | inl (here, agree) ↦
          let r : find_up (suc n) lo data_at data_size m ≡ lo = ground (arith, here) in
          rw r (
            inr (
              omega arith,
              omega arith,
              λ k h. agree k (omega arith) h,
              λ p a b. absurd (omega arith),
            ))
      | inr (absent, differ) ↦
          let r : find_up (suc n) lo data_at data_size m ≡ find_up n (suc lo) data_at data_size m =
            ground (arith, absent) in
          let not_here : ¬ StandAt lo data_at data_size m =
            λ stand. differ (λ k lo_k h. stand k h) in
          rw r
            (elim (find_up-Finds n (suc lo) hi data_at data_size m (omega arith) data_there
              (omega arith)) [
                | inl (none_left, missing) ↦
                    inl (none_left, Missing-more lo hi data_at data_size m not_here missing)
                | inr (above, below, found, missing) ↦ inr (
                  omega arith,
                  below,
                  found,
                  Missing-more lo _ data_at data_size m not_here missing,
                )
              ])
    ]

-- Where no argument is zero and the data are no larger than the memory that is searched, `memfind`
-- returns the first address at which the whole data, byte by byte, stand inside that memory, and
-- NULL exactly if there is none.
pub memfind-Finds :
    (mem mem_size data_at data_size : ℕ) (m : Memory)
    → 0 < mem
    → 0 < data_at
    → 0 < data_size
    → data_size ≤ mem_size
    → Finds mem
        (mem + suc (mem_size - data_size))
        data_at
        data_size
        m
        (memfind mem mem_size data_at data_size m)
unfolding memfind
memfind-Finds mem mem_size data_at data_size m p q s fits =
    let r : memfind mem mem_size data_at data_size m
        ≡ find_up (suc (mem_size - data_size)) mem data_at data_size m =
      ground arith in
    rw r (find_up-Finds (suc (mem_size - data_size)) mem _ data_at data_size m p q refl)
