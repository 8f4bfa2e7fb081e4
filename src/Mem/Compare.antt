-- ===== src/Mem/Compare.antt =====
-- mem/memcmp.cpp: comparison of two pieces of memory.
use apilib.Base.{
  ℕ, zero, suc, ◌+◌, ◌≤◌, ◌<◌, ◌≡◌, ◌⊎◌, inl, inr, refl, Bool, true, false, ◌||◌, not,
}
use apilib.Base.{ltb, ◌==◌, if◌then◌else◌, arith}
use apilib.Base.Int.{ℤ, pos, negsuc, leb_ℤ, between}
use native.Mathlib.Decide.{ℕ_discrete}
use apilib.Mem.{Memory, read}

-- The loop, with `n` bytes left.
unfoldable pub compare_up : ℕ → ℕ → ℕ → ℕ → Memory → ℤ
compare_up zero mem1 mem2 i m = pos 0
compare_up (suc n) mem1 mem2 i m =
    let b1 = read m (mem1 + i) in
    let b2 = read m (mem2 + i) in
    let rest = compare_up n mem1 mem2 (suc i) m in
    if ltb b2 b1 then pos 1 else if ltb b1 b2 then negsuc 0 else rest

unfoldable pub memcmp : ℕ → ℕ → ℕ → Memory → ℤ
memcmp mem1 mem2 size m =
    if mem1 == 0
    then negsuc 1
    else if mem2 == 0
    then pos 2
    else if mem1 == mem2
    then pos 0
    else compare_up size mem1 mem2 0 m

unfoldable pub memcmp_s : ℕ → ℕ → ℕ → ℕ → Memory → ℤ
memcmp_s mem1 size1 mem2 size2 m =
    if mem1 == 0 || ltb size1 size2
    then negsuc 1
    else if mem2 == 0 || ltb size2 size1
    then pos 2
    else if mem1 == mem2
    then pos 0
    else compare_up size1 mem1 mem2 0 m

unfoldable pub equal_up : ℕ → ℕ → ℕ → ℕ → Memory → Bool
equal_up zero mem1 mem2 i m = true
equal_up (suc n) mem1 mem2 i m =
    let rest = equal_up n mem1 mem2 (suc i) m in
    if not (read m (mem1 + i) == read m (mem2 + i)) then false else rest

unfoldable pub memequ : ℕ → ℕ → ℕ → Memory → Bool
memequ mem1 mem2 size m =
    if mem1 == 0 || mem2 == 0
    then false
    else if mem1 == mem2
    then true
    else equal_up size mem1 mem2 0 m

unfoldable pub memequ_s : ℕ → ℕ → ℕ → ℕ → Memory → Bool
memequ_s mem1 size1 mem2 size2 m =
    if mem1 == 0 || (mem2 == 0 || not (size1 == size2))
    then false
    else if mem1 == mem2
    then true
    else equal_up size1 mem1 mem2 0 m

-- The bytes from `i` to `j` agree.
abbrev pub Agree : ℕ → ℕ → ℕ → ℕ → Memory → Type 0
Agree i j mem1 mem2 m = (k : ℕ) → i ≤ k → k < j → read m (mem1 + k) ≡ read m (mem2 + k)

-- A result of a comparison: all agree, or the first bytes that differ are in its order.
abbrev pub Compares : ℕ → ℕ → ℕ → ℕ → Memory → ℤ → Type 0
Compares i j mem1 mem2 m r =
    (r ≡ pos 0) × Agree i j mem1 mem2 m
    ⊎ (k : ℕ) × (i ≤ k)
      × (k < j)
      × Agree i k mem1 mem2 m
      × ((r ≡ pos 1) × (read m (mem2 + k) < read m (mem1 + k))
          ⊎ (r ≡ negsuc 0) × (read m (mem1 + k) < read m (mem2 + k)))

no_bytes : (i mem1 mem2 : ℕ) (m : Memory) → Agree i i mem1 mem2 m
no_bytes i mem1 mem2 m k lo hi = absurd (omega arith)

one_more :
    (i j mem1 mem2 : ℕ) (m : Memory)
    → read m (mem1 + i) ≡ read m (mem2 + i)
    → Agree (suc i) j mem1 mem2 m
    → Agree i j mem1 mem2 m
one_more i j mem1 mem2 m e rest k lo hi = elim (ℕ_discrete k i) [
  | yes same ↦ rw same e
  | no other ↦ rest k (omega arith) hi
]

compare_up-Compares :
    (n mem1 mem2 i j : ℕ) (m : Memory)
    → j ≡ i + n
    → Compares i j mem1 mem2 m (compare_up n mem1 mem2 i m)
unfolding compare_up
compare_up-Compares zero mem1 mem2 i j m e = inl (refl, λ k lo hi. absurd (omega arith))
compare_up-Compares (suc n) mem1 mem2 i j m e =
    let b1 : ℕ = read m (mem1 + i) in
    let b2 : ℕ = read m (mem2 + i) in
    elim (ℕ_discrete b1 b2) [
      | yes same ↦ elim (compare_up-Compares n mem1 mem2 (suc i) j m (omega arith)) [
        | inl (r, agree) ↦ inl (ground (arith, r), one_more i j mem1 mem2 m same agree)
        | inr (k, lo, hi, agree, r) ↦
            inr (k, omega arith, hi, one_more i k mem1 mem2 m same agree, ground (arith, r))
      ]
      | no differ ↦ inr (i, omega arith, omega arith, no_bytes i mem1 mem2 m, ground arith)
    ]

-- Where neither address is NULL, `memcmp` returns 0 exactly if all bytes agree, and otherwise 1
-- or -1 as the first pair of bytes that differ is in descending or ascending order.
pub memcmp-Compares :
    (mem1 mem2 size : ℕ) (m : Memory)
    → 0 < mem1
    → 0 < mem2
    → Compares 0 size mem1 mem2 m (memcmp mem1 mem2 size m)
unfolding memcmp
memcmp-Compares mem1 mem2 size m p q = elim (ℕ_discrete mem1 mem2) [
  | yes e ↦ inl (ground arith, λ k lo hi. rw e)
  | no ne ↦
      let r : memcmp mem1 mem2 size m ≡ compare_up size mem1 mem2 0 m = ground arith in
      rw r (compare_up-Compares size mem1 mem2 0 size m (omega arith))
]

equal_up-Agree :
    (n mem1 mem2 i j : ℕ) (m : Memory)
    → j ≡ i + n
    → (equal_up n mem1 mem2 i m ≡ true) × Agree i j mem1 mem2 m
      ⊎ (equal_up n mem1 mem2 i m ≡ false) × ¬ Agree i j mem1 mem2 m
unfolding equal_up
equal_up-Agree zero mem1 mem2 i j m e = inl (refl, λ k lo hi. absurd (omega arith))
equal_up-Agree (suc n) mem1 mem2 i j m e =
    elim (ℕ_discrete (read m (mem1 + i)) (read m (mem2 + i))) [
      | yes same ↦ elim (equal_up-Agree n mem1 mem2 (suc i) j m (omega arith)) [
        | inl (r, agree) ↦ inl (ground (arith, r, same), one_more i j mem1 mem2 m same agree)
        | inr (r, differ) ↦
            inr (ground (arith, r, same), λ all. differ (λ k lo hi. all k (omega arith) hi))
      ]
      | no differ ↦ inr (ground (arith, differ), λ all. differ (all i (omega arith) (omega arith)))
    ]

-- Where neither address is NULL, `memequ` tells whether all bytes agree.
pub memequ-Agree :
    (mem1 mem2 size : ℕ) (m : Memory)
    → 0 < mem1
    → 0 < mem2
    → (memequ mem1 mem2 size m ≡ true) × Agree 0 size mem1 mem2 m
      ⊎ (memequ mem1 mem2 size m ≡ false) × ¬ Agree 0 size mem1 mem2 m
unfolding memequ
memequ-Agree mem1 mem2 size m p q = elim (ℕ_discrete mem1 mem2) [
  | yes e ↦ inl (ground arith, λ k lo hi. rw e)
  | no ne ↦
      let r : memequ mem1 mem2 size m ≡ equal_up size mem1 mem2 0 m = ground arith in
      rw r (equal_up-Agree size mem1 mem2 0 size m (omega arith))
]

equal_up_compare :
    (n mem1 mem2 i : ℕ) (m : Memory)
    → equal_up n mem1 mem2 i m ≡ (
        if leb_ℤ (compare_up n mem1 mem2 i m) (pos 0)
        then leb_ℤ (pos 0) (compare_up n mem1 mem2 i m)
        else false)
unfolding equal_up compare_up
equal_up_compare zero mem1 mem2 i m = refl
equal_up_compare (suc n) mem1 mem2 i m = ground (arith, equal_up_compare n mem1 mem2 (suc i) m)

-- Where neither address is NULL, `memequ` is true exactly if `memcmp` returns 0.
pub memequ-memcmp :
    (mem1 mem2 size : ℕ) (m : Memory)
    → 0 < mem1
    → 0 < mem2
    → memequ mem1 mem2 size m ≡ between (pos 0) (pos 0) (memcmp mem1 mem2 size m)
unfolding memequ memcmp
memequ-memcmp mem1 mem2 size m p q = ground (arith, equal_up_compare size mem1 mem2 0 m)

-- The comparisons with two sizes are those with one where the sizes are equal. Otherwise
-- `memequ_s` is false, and `memcmp_s`, unless the first address is NULL, is -2 for a first piece
-- that is smaller and 2 for one that is larger.
pub sized_comparisons :
    (mem1 size1 mem2 size2 : ℕ) (m : Memory)
    → (memequ_s mem1 size1 mem2 size2 m
        ≡ (if size1 == size2 then memequ mem1 mem2 size1 m else false))
      × (memcmp_s mem1 size1 mem2 size2 m ≡ (
          if mem1 == 0
          then negsuc 1
          else if ltb size1 size2
          then negsuc 1
          else if ltb size2 size1
          then pos 2
          else memcmp mem1 mem2 size1 m))
unfolding memequ memequ_s memcmp memcmp_s
sized_comparisons mem1 size1 mem2 size2 m = (ground arith, ground arith)
