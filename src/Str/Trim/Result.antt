-- ===== src/Str/Trim/Result.antt =====
-- str/strtrim.hpp: what is left of a string that is trimmed.
use apilib.Base.{ℕ, zero, suc, ◌+◌, ◌-◌, ◌≤◌, ◌<◌, ◌≡◌, ◌⊎◌, inl, inr, refl, arith}
use apilib.Base.{List, [], ◌∷◌, false}
use apilib.Base.{◌==◌, Bool-cases, drop, take, length}
use apilib.Str.{char_at}
use apilib.Str.Len.{strlen, contents, strlen-contents}
use apilib.Str.Trim.{trim_end, trim_start, trim, strtrim}
use apilib.Str.Trim.Bounds.{Blank, IsBlank, trim_end-EndsAt, trim_start-StartsAt}
use apilib.Str.Trim.Move.{kept_contents}

-- A string is trimmed: of its contents the part from `offset` to `end` is left, all before and
-- behind it are blanks, tabulators, line feeds or carriage returns, and unless nothing is left it
-- neither begins nor ends with one.
abbrev pub Trimmed : List ℕ → ℕ → ℕ → List ℕ → Type 0
Trimmed m string n m' =
    (offset : ℕ) × (end : ℕ) × (offset ≤ end)
    × (end ≤ length (contents (drop string m)))
    × Blank m string 0 offset
    × Blank m string end (length (contents (drop string m)))
    × ((offset ≡ end)
        ⊎ (¬ IsBlank (char_at m (string + offset))) × (¬ IsBlank (char_at m (string + (end - 1)))))
    × (n ≡ end - offset)
    × (contents (drop string m') ≡ take (end - offset) (drop offset (contents (drop string m))))

both_ends :
    (m : List ℕ) (string offset end : ℕ)
    → offset ≤ end
    → (offset ≡ end) ⊎ (¬ IsBlank (char_at m (string + offset)))
    → (end ≡ 0) ⊎ (¬ IsBlank (char_at m (string + (end - 1))))
    → (offset ≡ end)
      ⊎ (¬ IsBlank (char_at m (string + offset))) × (¬ IsBlank (char_at m (string + (end - 1))))
both_ends m string offset end ordered (inl e) last = inl e
both_ends m string offset end ordered (inr f) (inl z) = inl (omega arith)
both_ends m string offset end ordered (inr f) (inr l) = inr (f, l)

empty_kept : (u : List ℕ) → length u ≡ 0 → (k o : ℕ) → u ≡ take k (drop o u)
empty_kept [] e zero o = refl
empty_kept [] e (suc k) zero = refl
empty_kept [] e (suc k) (suc o) = refl
empty_kept (c ∷ u) e k o = absurd (omega arith)

-- `strtrim` of a string that is not NULL trims its contents, in place, of the blanks,
-- tabulators, line feeds and carriage returns at both ends, and returns the length of what is left.
pub strtrim-Trimmed :
    (string : ℕ) (m : List ℕ)
    → 0 < string
    → Trimmed m string (strtrim string m).0 (strtrim string m).1
unfolding strtrim trim
strtrim-Trimmed string m pos =
    let u : List ℕ = contents (drop string m) in
    let n : strlen (drop string m) ≡ length u = strlen-contents (drop string m) in
    let there : (string == 0) ≡ false = ground (arith, pos) in
    let end : ℕ = trim_end m string (length u) in
    let offset : ℕ = trim_start m string 0 end in
    let (short, behind, last) = trim_end-EndsAt m string (length u) in
    let (zero_le, ordered, before, first) = trim_start-StartsAt m string end 0 end (omega arith) in
    let ends = both_ends m string offset end ordered first last in
    elim (Bool-cases (length u == 0)) [
      | inl z ↦
          let none : length u ≡ 0 = ground (arith, z) in
          rw (there, n, z)
            (
              offset,
              end,
              ordered,
              short,
              before,
              behind,
              ends,
              omega arith,
              empty_kept u none (end - offset) offset,
            )
      | inr nz ↦
          let some_text : 0 < length u = ground (arith, nz) in
          rw (there, n, nz)
            (
              offset,
              end,
              ordered,
              short,
              before,
              behind,
              ends,
              refl,
              kept_contents string offset end m some_text ordered short,
            )
    ]
