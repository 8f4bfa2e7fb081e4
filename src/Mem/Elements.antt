-- ===== src/Mem/Elements.antt =====
-- mem/memspn.hpp, mem/memsearch.hpp and mem/memreplace.hpp: elements of a type `T` in memory. A
-- value of the type is the list of its bytes as they stand in memory, so that its length is
-- `sizeof(T)`.
use apilib.Base.{ℕ, zero, suc, ◌+◌, ◌-◌, ◌/◌, ◌<◌, ◌≡◌, inl, inr, refl, arith, List, [], ◌∷◌}
use apilib.Base.{Bool, true, false, ◌&&◌, ◌==◌, leb, if◌then◌else◌, Option, none, some}
use apilib.Base.{length, overwrite_at, Bool-cases}
use apilib.Mem.{Memory, read}

-- `*ptr == value`
unfoldable pub holds : ℕ → List ℕ → Memory → Bool
holds ptr [] m = true
holds ptr (b ∷ value) m = let rest = holds (suc ptr) value m in read m ptr == b && rest

-- The loop of `__memspn_x`, with `n` whole elements left.
unfoldable pub spn_up : ℕ → ℕ → List ℕ → Memory → ℕ
spn_up zero ptr value m = 0
spn_up (suc n) ptr value m =
    let rest = spn_up n (ptr + length value) value m in if holds ptr value m then suc rest else 0

unfoldable pub memspn : ℕ → ℕ → List ℕ → Memory → ℕ
memspn data_at size value m =
    if data_at == 0
    then 0
    else if leb (length value) size
    then spn_up (size / length value) data_at value m
    else 0

-- The loop of `__memsearch_x`, with `n` addresses left.
unfoldable pub search_up : ℕ → ℕ → List ℕ → Memory → ℕ
search_up zero ptr value m = 0
search_up (suc n) ptr value m =
    let rest = search_up n (suc ptr) value m in if holds ptr value m then ptr else rest

unfoldable pub memsearch : ℕ → ℕ → List ℕ → Memory → ℕ
memsearch data_at size value m =
    if data_at == 0
    then 0
    else if leb (length value) size
    then search_up (suc (size - length value)) data_at value m
    else 0

-- The loop of `__memreplace_x`; `none` if the rounds do not suffice.
unfoldable pub replace_up : ℕ → ℕ → ℕ → List ℕ → List ℕ → ℕ → Memory → Option (ℕ × Memory)
replace_up zero ptr end old_value new_value cnt m = none
replace_up (suc rounds) ptr end old_value new_value cnt m =
    let found =
      replace_up rounds (ptr + length new_value) end old_value new_value (suc cnt)
        (overwrite_at ptr new_value m) in
    let other = replace_up rounds (suc ptr) end old_value new_value cnt m in
    if leb ptr end then if holds ptr old_value m then found else other else some (cnt, m)

unfoldable pub memreplace : ℕ → ℕ → List ℕ → List ℕ → Memory → Option (ℕ × Memory)
memreplace data_at size old_value new_value m =
    if data_at == 0
    then some (0, m)
    else if leb (length old_value) size
    then replace_up (suc (suc size)) data_at (data_at + size - length old_value) old_value new_value
        0 m
    else some (0, m)

replace_up_ends :
    (rounds ptr end cnt : ℕ) (old_value new_value : List ℕ) (m : Memory)
    → 0 < length new_value
    → end < ptr + rounds
    → (r : ℕ × Memory) × (replace_up (suc rounds) ptr end old_value new_value cnt m ≡ some r)
unfolding replace_up
replace_up_ends zero ptr end cnt old_value new_value m pos enough =
    let past : leb ptr end ≡ false = ground (arith, enough) in rw past ((cnt, m), refl)
replace_up_ends (suc rounds) ptr end cnt old_value new_value m pos enough =
    let found =
      replace_up_ends rounds (ptr + length new_value) end (suc cnt) old_value new_value
        (overwrite_at ptr new_value m) pos (omega arith) in
    let other = replace_up_ends rounds (suc ptr) end cnt old_value new_value m pos (omega arith) in
    elim (Bool-cases (leb ptr end)) [
      | inl more ↦ elim (Bool-cases (holds ptr old_value m)) [
        | inl here ↦ rw (more, here) found
        | inr absent ↦ rw (more, absent) other
      ]
      | inr past ↦ rw past ((cnt, m), refl)
    ]

-- The rounds of `memreplace` are enough, for values that are not empty.
pub memreplace_ends :
    (data_at size : ℕ) (old_value new_value : List ℕ) (m : Memory)
    → 0 < length new_value
    → (r : ℕ × Memory) × (memreplace data_at size old_value new_value m ≡ some r)
unfolding memreplace
memreplace_ends data_at size old_value new_value m pos =
    let ends =
      replace_up_ends (suc size) data_at (data_at + size - length old_value) 0 old_value new_value m
        pos (omega arith) in
    elim (Bool-cases (data_at == 0)) [
      | inl null ↦ rw null ((0, m), refl)
      | inr there ↦ elim (Bool-cases (leb (length old_value) size)) [
        | inl fits ↦ rw (there, fits) ends
        | inr large ↦ rw (there, large) ((0, m), refl)
      ]
    ]
