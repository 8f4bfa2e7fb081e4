-- ===== src/Str/Search/Places.antt =====
-- str/strstr.hpp: the loops over the places of a string.
use apilib.Base.{ℕ, zero, suc, ◌+◌, ◌≤◌, ◌<◌, ◌≡◌, ◌⊎◌, inl, inr, refl, arith}
use apilib.Base.{Bool, true, false, Bool-cases}
use native.Mathlib.Decide.{ℕ_discrete}
use apilib.Str.Search.{place_up, place_down}

-- No place from `lo` on and before `hi` passes the test.
abbrev pub NoPlace : (ℕ → Bool) → ℕ → ℕ → Type 0
NoPlace test lo hi = (p : ℕ) → lo ≤ p → p < hi → test p ≡ false

abbrev pub FirstPlace : (ℕ → Bool) → ℕ → ℕ → ℕ → Type 0
FirstPlace test lo hi r =
    (r ≡ 0) × NoPlace test lo hi ⊎ (lo ≤ r) × (r < hi) × (test r ≡ true) × NoPlace test lo r

abbrev pub LastPlace : (ℕ → Bool) → ℕ → ℕ → ℕ → Type 0
LastPlace test lo hi r =
    (r ≡ 0) × NoPlace test lo hi ⊎ (lo ≤ r) × (r < hi) × (test r ≡ true) × NoPlace test (suc r) hi

NoPlace-cons :
    (test : ℕ → Bool) (lo hi : ℕ) → test lo ≡ false → NoPlace test (suc lo) hi → NoPlace test lo hi
NoPlace-cons test lo hi first rest p a b = elim (ℕ_discrete p lo) [
  | yes same ↦ rw same first
  | no other ↦ rest p (omega arith) b
]

NoPlace-snoc :
    (test : ℕ → Bool) (lo hi : ℕ) → NoPlace test lo hi → test hi ≡ false → NoPlace test lo (suc hi)
NoPlace-snoc test lo hi before last p a b = elim (ℕ_discrete p hi) [
  | yes same ↦ rw same last
  | no other ↦ before p a (omega arith)
]

pub place_up-FirstPlace :
    (test : ℕ → Bool) (n lo hi : ℕ) → hi ≡ lo + n → FirstPlace test lo hi (place_up test n lo)
unfolding place_up
place_up-FirstPlace test zero lo hi e = inl (refl, λ p a b. absurd (omega arith))
place_up-FirstPlace test (suc n) lo hi e = elim (Bool-cases (test lo)) [
  | inl here ↦
      let r : place_up test (suc n) lo ≡ lo = ground (arith, here) in
      rw r (inr (omega arith, omega arith, here, λ p a b. absurd (omega arith)))
  | inr absent ↦
      let r : place_up test (suc n) lo ≡ place_up test n (suc lo) = ground (arith, absent) in
      rw r (elim (place_up-FirstPlace test n (suc lo) hi (omega arith)) [
        | inl (null, none_left) ↦ inl (null, NoPlace-cons test lo hi absent none_left)
        | inr (above, below, found, before) ↦ inr (
          omega arith,
          below,
          found,
          NoPlace-cons test lo (place_up test n (suc lo)) absent before,
        )
      ])
]

pub place_down-LastPlace :
    (test : ℕ → Bool) (lo offset hi : ℕ)
    → hi ≡ suc (lo + offset)
    → LastPlace test lo hi (place_down test lo offset)
unfolding place_down
place_down-LastPlace test lo zero hi e = elim (Bool-cases (test lo)) [
  | inl here ↦
      let r : place_down test lo 0 ≡ lo = ground (arith, here) in
      rw r (inr (omega arith, omega arith, here, λ p a b. absurd (omega arith)))
  | inr absent ↦
      let r : place_down test lo 0 ≡ 0 = ground (arith, absent) in
      rw r (inl (refl, NoPlace-cons test lo hi absent (λ p a b. absurd (omega arith))))
]
place_down-LastPlace test lo (suc offset) hi e =
    let last = lo + suc offset in
    let top : hi ≡ suc last = e in
    elim (Bool-cases (test (lo + suc offset))) [
      | inl here ↦
          let r : place_down test lo (suc offset) ≡ lo + suc offset = ground (arith, here) in
          rw r (inr (omega arith, omega arith, here, λ p a b. absurd (omega arith)))
      | inr absent ↦
          let r : place_down test lo (suc offset) ≡ place_down test lo offset =
            ground (arith, absent) in
          let fewer = place_down-LastPlace test lo offset (lo + suc offset) (omega arith) in
          rw (r, top)
            (elim fewer [
              | inl (null, none_left) ↦ inl (null, NoPlace-snoc test lo last none_left absent)
              | inr (above, below, found, after) ↦ inr (
                above,
                omega arith,
                found,
                NoPlace-snoc test (suc (place_down test lo offset)) last after absent,
              )
            ])
    ]
