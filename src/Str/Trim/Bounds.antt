-- ===== src/Str/Trim/Bounds.antt =====
-- str/strtrim.hpp: where the kept part of a string begins and ends.
use apilib.Base.{ℕ, zero, suc, ◌+◌, ◌-◌, ◌≤◌, ◌<◌, ◌≡◌, ◌⊎◌, inl, inr, refl, arith}
use apilib.Base.{List, true, false}
use native.Mathlib.Decide.{ℕ_discrete}
use apilib.Str.{char_at}
use apilib.Str.Trim.{trims, trim_end, trim_start}

-- The characters that count as blanks: blank, tabulator, line feed and carriage return.
abbrev pub IsBlank : ℕ → Type 0
IsBlank c = (c ≡ 32) ⊎ (c ≡ 9) ⊎ (c ≡ 10) ⊎ (c ≡ 13)

trims-IsBlank : (c : ℕ) → (trims c ≡ true) × IsBlank c ⊎ (trims c ≡ false) × ¬ IsBlank c
unfolding trims
trims-IsBlank c = ground arith

-- All characters from `a` to `b` are blanks.
abbrev pub Blank : List ℕ → ℕ → ℕ → ℕ → Type 0
Blank m string a b = (k : ℕ) → a ≤ k → k < b → IsBlank (char_at m (string + k))

abbrev pub EndsAt : List ℕ → ℕ → ℕ → ℕ → Type 0
EndsAt m string length end =
    (end ≤ length)
    × Blank m string end length
    × ((end ≡ 0) ⊎ (¬ IsBlank (char_at m (string + (end - 1)))))

abbrev pub StartsAt : List ℕ → ℕ → ℕ → ℕ → ℕ → Type 0
StartsAt m string from end start =
    (from ≤ start)
    × (start ≤ end)
    × Blank m string from start
    × ((start ≡ end) ⊎ (¬ IsBlank (char_at m (string + start))))

Blank-snoc :
    (m : List ℕ) (string a b : ℕ)
    → Blank m string a b
    → IsBlank (char_at m (string + b))
    → Blank m string a (suc b)
Blank-snoc m string a b before last k lo hi = elim (ℕ_discrete k b) [
  | yes e ↦ rw e last
  | no ne ↦ before k lo (omega arith)
]

Blank-cons :
    (m : List ℕ) (string a b : ℕ)
    → IsBlank (char_at m (string + a))
    → Blank m string (suc a) b
    → Blank m string a b
Blank-cons m string a b first rest k lo hi = elim (ℕ_discrete k a) [
  | yes e ↦ rw e first
  | no ne ↦ rest k (omega arith) hi
]

pub trim_end-EndsAt :
    (m : List ℕ) (string length : ℕ) → EndsAt m string length (trim_end m string length)
unfolding trim_end
trim_end-EndsAt m string zero = (omega arith, λ k lo hi. absurd (omega arith), inl refl)
trim_end-EndsAt m string (suc last) =
    let e : suc last - 1 ≡ last = omega arith in
    elim (trims-IsBlank (char_at m (string + last))) [
      | inl (test, blank) ↦
          let (short, blanks, stop) = trim_end-EndsAt m string last in
          rw (test, trim_end)
            (omega arith, Blank-snoc m string (trim_end m string last) last blanks blank, stop)
      | inr (test, other) ↦
          rw (test, trim_end) (omega arith, λ k lo hi. absurd (omega arith), inr (rw e other))
    ]

pub trim_start-StartsAt :
    (m : List ℕ) (string n offset end : ℕ)
    → end ≡ offset + n
    → StartsAt m string offset end (trim_start m string offset n)
unfolding trim_start
trim_start-StartsAt m string zero offset end h =
    (omega arith, omega arith, λ k lo hi. absurd (omega arith), inl (omega arith))
trim_start-StartsAt m string (suc n) offset end h =
    elim (trims-IsBlank (char_at m (string + offset))) [
      | inl (test, blank) ↦
          let (above, below, blanks, stop) =
            trim_start-StartsAt m string n (suc offset) end (omega arith) in
          rw (test, trim_start)
            (
              omega arith,
              below,
              Blank-cons m string offset (trim_start m string (suc offset) n) blank blanks,
              stop,
            )
      | inr (test, other) ↦
          rw (test, trim_start)
            (omega arith, omega arith, λ k lo hi. absurd (omega arith), inr other)
    ]
