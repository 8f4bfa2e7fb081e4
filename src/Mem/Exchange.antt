-- ===== src/Mem/Exchange.antt =====
-- `memswap` of mem/memcpy.cpp on two pieces of memory that do not overlap.
use apilib.Base.{
  ℕ, zero, suc, ◌+◌, ◌-◌, ◌≤◌, ◌<◌, ◌≡◌, ◌≢◌, ◌⊎◌, inl, inr, ◌∙◌, true, ◌&&◌, set, length,
}
use apilib.Base.{
  ltb, leb, ◌==◌, if◌then◌else◌, arith, length-set, get_or-set_same, get_or-set_other,
}
use apilib.Mem.{Memory, read}
use apilib.Mem.Copy.{swap_up, memswap}

-- One step of the loop, at the addresses `x` and `y`.
abbrev exchanged : ℕ → ℕ → Memory → Memory
exchanged x y m = set (set m x (read m y)) y (read m x)

exchanged_reads :
    (x y a : ℕ) (m : Memory)
    → x ≢ y
    → x < length m
    → y < length m
    → read (exchanged x y m) a
      ≡ (if a == y then read m x else if a == x then read m y else read m a)
exchanged_reads x y a m apart hx hy = ground (
  arith,
  length-set m x (read m y),
  get_or-set_same m x (read m y) 0,
  get_or-set_other m x a (read m y) 0,
  get_or-set_same (set m x (read m y)) y (read m x) 0,
  get_or-set_other (set m x (read m y)) y a (read m x) 0,
)

-- What is read after the pieces from `i` to `i + n` were exchanged.
abbrev pub crossed : ℕ → ℕ → ℕ → ℕ → Memory → ℕ → ℕ
crossed i n mem1 mem2 m a =
    if leb (mem1 + i) a && ltb a (mem1 + (i + n))
    then read m (mem2 + (a - mem1))
    else if leb (mem2 + i) a && ltb a (mem2 + (i + n))
    then read m (mem1 + (a - mem2))
    else read m a

length-exchanged : (x y : ℕ) (m : Memory) → length (exchanged x y m) ≡ length m
length-exchanged x y m = length-set (set m x (read m y)) y (read m x) ∙ length-set m x (read m y)

crossed_step :
    (n mem1 mem2 i a : ℕ) (m : Memory)
    → (mem1 + (i + suc n) ≤ mem2) ⊎ (mem2 + (i + suc n) ≤ mem1)
    → mem1 + (i + suc n) ≤ length m
    → mem2 + (i + suc n) ≤ length m
    → crossed (suc i) n mem1 mem2 (exchanged (mem1 + i) (mem2 + i) m) a
      ≡ crossed i (suc n) mem1 mem2 m a
crossed_step n mem1 mem2 i a m apart fits1 fits2 =
    let x : ℕ = mem1 + i in
    let y : ℕ = mem2 + i in
    let ne : x ≢ y =
      λ e. elim apart [ inl h ↦ absurd (omega arith) | inr h ↦ absurd (omega arith) ] in
    let reads : (b : ℕ)
        → read (exchanged x y m) b
          ≡ (if b == y then read m x else if b == x then read m y else read m b) =
      λ b. exchanged_reads x y b m ne (omega arith) (omega arith) in
    rw (reads a, reads (mem2 + (a - mem1)), reads (mem1 + (a - mem2))) (ground arith)

swap_up_reads :
    (n mem1 mem2 i a : ℕ) (m : Memory)
    → (mem1 + (i + n) ≤ mem2) ⊎ (mem2 + (i + n) ≤ mem1)
    → mem1 + (i + n) ≤ length m
    → mem2 + (i + n) ≤ length m
    → read (swap_up n mem1 mem2 i m) a ≡ crossed i n mem1 mem2 m a
unfolding swap_up
swap_up_reads zero mem1 mem2 i a m apart fits1 fits2 = ground arith
swap_up_reads (suc n) mem1 mem2 i a m apart fits1 fits2 =
    let l : length (exchanged (mem1 + i) (mem2 + i) m) ≡ length m =
      length-exchanged (mem1 + i) (mem2 + i) m in
    let apart' : (mem1 + (suc i + n) ≤ mem2) ⊎ (mem2 + (suc i + n) ≤ mem1) = elim apart [
      | inl h ↦ inl (omega arith)
      | inr h ↦ inr (omega arith)
    ] in
    swap_up_reads n mem1 mem2 (suc i) a (exchanged (mem1 + i) (mem2 + i) m) apart'
      (omega (arith, l)) (omega (arith, l))
    ∙ crossed_step n mem1 mem2 i a m apart fits1 fits2

-- Where neither address is NULL, the bytes fit and the two pieces do not overlap, `memswap` returns
-- true, each piece holds what the other held, and every other byte stays.
pub memswap_exchanges :
    (mem1 mem2 size a : ℕ) (m : Memory)
    → 0 < mem1
    → 0 < mem2
    → (mem1 + size ≤ mem2) ⊎ (mem2 + size ≤ mem1)
    → mem1 + size ≤ length m
    → mem2 + size ≤ length m
    → ((memswap mem1 mem2 size m).0 ≡ true)
      × (read (memswap mem1 mem2 size m).1 a ≡ crossed 0 size mem1 mem2 m a)
unfolding memswap
memswap_exchanges mem1 mem2 size a m p q apart fits1 fits2 =
    ground (arith, swap_up_reads size mem1 mem2 0 a m)
