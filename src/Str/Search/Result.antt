-- ===== src/Str/Search/Result.antt =====
-- str/strstr.hpp: the searches find the first and the last occurrence.
use apilib.Base.{ℕ, zero, suc, ◌+◌, ◌-◌, ◌≤◌, ◌<◌, ◌≡◌, ◌⊎◌, inl, inr, refl, ap, arith}
use apilib.Base.{List, [], ◌∷◌, Bool, true, false, ◌==◌, ltb, Bool-cases}
use apilib.Base.{length, take, drop, drop-drop}
use apilib.Str.Len.{contents, strlen, strlen-contents}
use apilib.Str.Compare.{strequ_n}
use apilib.Str.Search.{place_up, place_down, strstr, strstr_n, strrstr, strrstr_n}
use apilib.Str.Search.Places.{NoPlace, place_up-FirstPlace, place_down-LastPlace}
use apilib.Str.Search.Text.{strequ_n-contents, contents-drop}

-- The contents of the second string stand in those of the first from the place `i` on.
abbrev pub OccursAt : List ℕ → ℕ → ℕ → ℕ → Type 0
OccursAt m s1 s2 i =
    take (length (contents (drop s2 m))) (drop i (contents (drop s1 m))) ≡ contents (drop s2 m)

-- The result is the address of the first occurrence, or NULL if there is none.
abbrev pub FirstOccurrence : List ℕ → ℕ → ℕ → ℕ → Type 0
FirstOccurrence m s1 s2 r =
    (r ≡ 0) × ((i : ℕ) → ¬ OccursAt m s1 s2 i)
    ⊎ (i : ℕ) × (r ≡ s1 + i) × OccursAt m s1 s2 i × ((j : ℕ) → j < i → ¬ OccursAt m s1 s2 j)

-- The result is the address of the last occurrence, or NULL if there is none.
abbrev pub LastOccurrence : List ℕ → ℕ → ℕ → ℕ → Type 0
LastOccurrence m s1 s2 r =
    (r ≡ 0) × ((i : ℕ) → ¬ OccursAt m s1 s2 i)
    ⊎ (i : ℕ) × (r ≡ s1 + i) × OccursAt m s1 s2 i × ((j : ℕ) → i < j → ¬ OccursAt m s1 s2 j)

take_within : (n : ℕ) (xs : List ℕ) → length (take n xs) ≤ length xs
take_within zero xs = omega arith
take_within (suc n) [] = omega arith
take_within (suc n) (x ∷ xs) = omega (arith, take_within n xs)

take_fits : (i n : ℕ) (xs : List ℕ) → 0 < n → n ≤ length (take n (drop i xs)) → i + n ≤ length xs
take_fits zero n xs pos h = omega (arith, take_within n xs)
take_fits (suc i) (suc n) [] pos h = absurd (omega arith)
take_fits (suc i) zero [] pos h = absurd (omega arith)
take_fits (suc i) n (x ∷ xs) pos h = omega (arith, take_fits i n xs pos h)

module _ (m : List ℕ) (s1 s2 : ℕ) (there1 : 0 < s1) (there2 : 0 < s2)
    (some_text : 0 < length (contents (drop s2 m))) where
  OccursAt-fits :
      (i : ℕ)
      → OccursAt m s1 s2 i
      → i + length (contents (drop s2 m)) ≤ length (contents (drop s1 m))
  OccursAt-fits i h =
      let n = length (contents (drop s2 m)) in
      let same : length (take n (drop i (contents (drop s1 m)))) ≡ n = ap length h in
      take_fits i n (contents (drop s1 m)) some_text (omega (arith, same))

  -- Within the first string, the test of the search says whether there is an occurrence.
  place_test :
      (i : ℕ)
      → i ≤ length (contents (drop s1 m))
      → (strequ_n (s1 + i) s2 (length (contents (drop s2 m))) m ≡ true → OccursAt m s1 s2 i)
        × (strequ_n (s1 + i) s2 (length (contents (drop s2 m))) m ≡ false → ¬ OccursAt m s1 s2 i)
  place_test i h =
      let (to, from) = strequ_n-contents (s1 + i) s2 m (omega arith) there2 some_text in
      let moved : contents (drop (s1 + i) m) ≡ drop i (contents (drop s1 m)) =
        rw (← drop-drop s1 i m) (contents-drop i (drop s1 m) h) in
      (λ e. rw (← moved) (to e), λ e occurs. absurd (ground (arith, e, from (rw moved occurs))))

  no_place :
      (hi i : ℕ)
      → s1 + suc (length (contents (drop s1 m)) - length (contents (drop s2 m))) ≤ hi
      → NoPlace (λ p. strequ_n p s2 (length (contents (drop s2 m))) m) s1 hi
      → ¬ OccursAt m s1 s2 i
  no_place hi i top none_left occurs =
      let fits = OccursAt-fits i occurs in
      (place_test i (omega (arith, fits))).1
        (none_left (s1 + i) (omega arith) (omega (arith, fits))) occurs

  -- A place in the first string that passes the test, as an offset.
  at_offset :
      (r : ℕ)
      → s1 ≤ r
      → r < s1 + suc (length (contents (drop s1 m)) - length (contents (drop s2 m)))
      → strequ_n r s2 (length (contents (drop s2 m))) m ≡ true
      → (r ≡ s1 + (r - s1)) × OccursAt m s1 s2 (r - s1)
  at_offset r above below found =
      let e : r ≡ s1 + (r - s1) = omega arith in
      (e, (place_test (r - s1) (omega arith)).0 (rw (← e) found))

  first_occurrence :
      length (contents (drop s2 m)) ≤ length (contents (drop s1 m))
      → FirstOccurrence m s1 s2 (
          place_up
            (λ p. strequ_n p s2 (length (contents (drop s2 m))) m)
            (suc (length (contents (drop s1 m)) - length (contents (drop s2 m))))
            s1)
  first_occurrence fits =
      let test : ℕ → Bool = λ p. strequ_n p s2 (length (contents (drop s2 m))) m in
      let n = suc (length (contents (drop s1 m)) - length (contents (drop s2 m))) in
      elim (place_up-FirstPlace test n s1 (s1 + n) refl) [
        | inl (null, none_left) ↦ inl (null, λ i. no_place (s1 + n) i (omega arith) none_left)
        | inr (above, below, found, before) ↦
            let r = place_up test n s1 in
            let (e, occurs) = at_offset r above below found in
            inr (
              r - s1,
              e,
              occurs,
              λ j earlier here.
                  (place_test j (omega (arith, OccursAt-fits j here))).1
                    (before (s1 + j) (omega arith) (omega arith)) here,
            )
      ]

  last_occurrence :
      length (contents (drop s2 m)) ≤ length (contents (drop s1 m))
      → LastOccurrence m s1 s2 (
          place_down
            (λ p. strequ_n p s2 (length (contents (drop s2 m))) m)
            s1
            (length (contents (drop s1 m)) - length (contents (drop s2 m))))
  last_occurrence fits =
      let test : ℕ → Bool = λ p. strequ_n p s2 (length (contents (drop s2 m))) m in
      let n = length (contents (drop s1 m)) - length (contents (drop s2 m)) in
      elim (place_down-LastPlace test s1 n (s1 + suc n) (omega arith)) [
        | inl (null, none_left) ↦ inl (null, λ i. no_place (s1 + suc n) i (omega arith) none_left)
        | inr (above, below, found, after) ↦
            let r = place_down test s1 n in
            let (e, occurs) = at_offset r above below found in
            inr (
              r - s1,
              e,
              occurs,
              λ j later here.
                  (place_test j (omega (arith, OccursAt-fits j here))).1
                    (after (s1 + j) (omega arith) (omega (arith, OccursAt-fits j here))) here,
            )
      ]

-- `strstr` finds the first and `strrstr` the last occurrence of a string that is not empty.
pub strstr_occurrences :
    (m : List ℕ) (s1 s2 : ℕ)
    → 0 < s1
    → 0 < s2
    → 0 < length (contents (drop s2 m))
    → FirstOccurrence m s1 s2 (strstr s1 s2 m) × LastOccurrence m s1 s2 (strrstr s1 s2 m)
unfolding strstr strstr_n strrstr strrstr_n
strstr_occurrences m s1 s2 there1 there2 some_text =
    let l1 : strlen (drop s1 m) ≡ length (contents (drop s1 m)) = strlen-contents (drop s1 m) in
    let l2 : strlen (drop s2 m) ≡ length (contents (drop s2 m)) = strlen-contents (drop s2 m) in
    let null1 : (s1 == 0) ≡ false = ground (arith, there1) in
    let null2 : (s2 == 0) ≡ false = ground (arith, there2) in
    elim (Bool-cases (ltb (length (contents (drop s1 m))) (length (contents (drop s2 m))))) [
      | inl short ↦
          let none_fits : (i : ℕ) → ¬ OccursAt m s1 s2 i = λ i occurs.
            ground (arith, short, OccursAt-fits m s1 s2 there1 there2 some_text i occurs) in
          rw (l1, l2, null1, null2, short) (inl (refl, none_fits), inl (refl, none_fits))
      | inr long ↦
          rw (l1, l2, null1, null2, long)
            (
              first_occurrence m s1 s2 there1 there2 some_text (ground (arith, long)),
              last_occurrence m s1 s2 there1 there2 some_text (ground (arith, long)),
            )
    ]
