-- ===== src/Str/Trim/Move.antt =====
-- str/strtrim.hpp: the move of the kept part of a string to its front.
use native.Mathlib.Decide.{ℕ_discrete}
use apilib.Base.{
  ℕ, zero, suc, ◌+◌, ◌-◌, ◌≤◌, ◌<◌, ◌≡◌, ◌≢◌, inl, inr, refl, ap, ap₂, sym, ◌∙◌, arith,
}
use apilib.Base.{List, [], ◌∷◌, false, not}
use apilib.Base.{
  ◌==◌, if◌then◌else◌, Bool-cases, drop, take, length, set, length-set, get_or-set_same,
  get_or-set_other,
}
use apilib.Str.{char_at}
use apilib.Str.Len.{contents}
use apilib.Str.Trim.{move_down}

move_down_outside :
    (string offset i n a : ℕ) (m : List ℕ)
    → a < string + i
    → char_at (move_down string offset i n m) a ≡ char_at m a
unfolding move_down
move_down_outside string offset i zero a m h = refl
move_down_outside string offset i (suc n) a m h =
    let v : ℕ = char_at m (string + (i + offset)) in
    move_down_outside string offset (suc i) n a (set m (string + i) v) (omega arith)
    ∙ get_or-set_other m (string + i) a v 0 (λ e. absurd (omega arith))

move_down_inside :
    (string offset i n a : ℕ) (m : List ℕ)
    → 0 < offset
    → string + i + n ≤ length m
    → string + i ≤ a
    → a < string + i + n
    → char_at (move_down string offset i n m) a ≡ char_at m (a + offset)
unfolding move_down
move_down_inside string offset i zero a m pos room lo hi = absurd (omega arith)
move_down_inside string offset i (suc n) a m pos room lo hi =
    let v : ℕ = char_at m (string + (i + offset)) in
    let m' : List ℕ = set m (string + i) v in
    elim (ℕ_discrete a (string + i)) [
      | yes e ↦
          move_down_outside string offset (suc i) n a m' (omega arith)
          ∙ ap (λ k. char_at m' k) e
          ∙ get_or-set_same m (string + i) v 0 (omega arith)
          ∙ ap (λ k. char_at m k) (omega arith)
      | no ne ↦
          move_down_inside string offset (suc i) n a m' pos
            (omega (arith, length-set m (string + i) v)) (omega arith) (omega arith)
          ∙ get_or-set_other m (string + i) (a + offset) v 0 (λ e. absurd (omega arith))
    ]

pub char_at-drop : (a i : ℕ) (m : List ℕ) → char_at (drop a m) i ≡ char_at m (a + i)
char_at-drop zero i m = ap (λ k. char_at m k) (omega arith)
char_at-drop (suc a) i [] = refl
char_at-drop (suc a) i (c ∷ m) =
    let e : suc a + i ≡ suc (a + i) = omega arith in rw e (char_at-drop a i m)

-- A string is given by its characters and its zero.
contents_at :
    (s t : List ℕ)
    → ((i : ℕ) → i < length t → (char_at s i ≡ char_at t i) × (char_at t i ≢ 0))
    → char_at s (length t) ≡ 0
    → contents s ≡ t
unfolding contents
contents_at [] [] same end = refl
contents_at [] (d ∷ t) same end = absurd ((same 0 (omega arith)).1 (sym (same 0 (omega arith)).0))
contents_at (c ∷ s) [] same end = ground (arith, end)
contents_at (c ∷ s) (d ∷ t) same end =
    let first = same 0 (omega arith) in
    let nonzero : (c == 0) ≡ false = ground (arith, first) in
    rw (nonzero, contents)
      (ap₂ (λ x y. x ∷ y) first.0 (contents_at s t (λ i h. same (suc i) (omega arith)) end))

pub contents_nonzero :
    (s : List ℕ) (i : ℕ)
    → i < length (contents s)
    → (char_at (contents s) i ≡ char_at s i) × (char_at s i ≢ 0)
unfolding contents
contents_nonzero [] i h = absurd (omega arith)
contents_nonzero (c ∷ s) zero h = elim (Bool-cases (c == 0)) [
  | inl z ↦ absurd (ground (arith, z, h))
  | inr nz ↦ rw (nz, contents) (refl, λ e. ground (arith, nz, e))
]
contents_nonzero (c ∷ s) (suc i) h = elim (Bool-cases (c == 0)) [
  | inl z ↦ absurd (ground (arith, z, h))
  | inr nz ↦
      let below : i < length (contents s) = ground (arith, nz, h) in
      rw (nz, contents) (contents_nonzero s i below)
]

length-contents_le : (s : List ℕ) → length (contents s) ≤ length s
unfolding contents
length-contents_le [] = omega arith
length-contents_le (c ∷ s) = ground (arith, length-contents_le s)

char_at-take : (i n : ℕ) (xs : List ℕ) → i < n → char_at (take n xs) i ≡ char_at xs i
char_at-take i zero xs h = absurd (omega arith)
char_at-take i (suc n) [] h = refl
char_at-take zero (suc n) (x ∷ xs) h = refl
char_at-take (suc i) (suc n) (x ∷ xs) h = char_at-take i n xs (omega arith)

-- The character of the memory after trimming, at a place that is kept.
kept_char :
    (string offset end i : ℕ) (m : List ℕ)
    → offset ≤ end
    → string + end ≤ length m
    → i < end - offset
    → let moved : List ℕ =
        if not (offset == 0) then move_down string offset 0 (end - offset) m else m in
      char_at (set moved (string + (end - offset)) 0) (string + i)
      ≡ char_at m (string + (offset + i))
kept_char string offset end i m ordered room h =
    let kept : ℕ = end - offset in
    let moved : List ℕ = if not (offset == 0) then move_down string offset 0 kept m else m in
    let unset : char_at (set moved (string + kept) 0) (string + i) ≡ char_at moved (string + i) =
      get_or-set_other moved (string + kept) (string + i) 0 0 (λ e. absurd (omega arith)) in
    elim (Bool-cases (offset == 0)) [
      | inl z ↦
          let none_cut : offset ≡ 0 = ground (arith, z) in
          unset ∙ rw z (ap (λ k. char_at m k) (omega arith))
      | inr nz ↦
          let some_cut : 0 < offset = ground (arith, nz) in
          let read =
            move_down_inside string offset 0 kept (string + i) m some_cut (omega arith)
              (omega arith) (omega arith) in
          unset ∙ rw nz (read ∙ ap (λ k. char_at m k) (omega arith))
    ]

set_zero : (xs : List ℕ) (i : ℕ) → char_at (set xs i 0) i ≡ 0
set_zero [] i = refl
set_zero (x ∷ xs) zero = refl
set_zero (x ∷ xs) (suc i) = set_zero xs i

drop_room : (a : ℕ) (m : List ℕ) → 0 < length (drop a m) → a + length (drop a m) ≤ length m
drop_room zero m h = omega arith
drop_room (suc a) [] h = absurd (omega arith)
drop_room (suc a) (c ∷ m) h = omega (arith, drop_room a m h)

length-take-drop :
    (n offset : ℕ) (xs : List ℕ) → offset + n ≤ length xs → length (take n (drop offset xs)) ≡ n
length-take-drop zero offset xs h = refl
length-take-drop (suc n) zero [] h = absurd (omega arith)
length-take-drop (suc n) zero (x ∷ xs) h = ap suc (length-take-drop n 0 xs (omega arith))
length-take-drop (suc n) (suc offset) [] h = absurd (omega arith)
length-take-drop (suc n) (suc offset) (x ∷ xs) h = length-take-drop (suc n) offset xs (omega arith)

-- The contents after the kept part has been moved to the front and ended.
pub kept_contents :
    (string offset end : ℕ) (m : List ℕ)
    → let u : List ℕ = contents (drop string m) in
      let moved : List ℕ =
        if not (offset == 0) then move_down string offset 0 (end - offset) m else m in
      0 < length u
      → offset ≤ end
      → end ≤ length u
      → contents (drop string (set moved (string + (end - offset)) 0))
        ≡ take (end - offset) (drop offset u)
kept_contents string offset end m some_text ordered short =
    let s : List ℕ = drop string m in
    let u : List ℕ = contents s in
    let kept : ℕ = end - offset in
    let moved : List ℕ = if not (offset == 0) then move_down string offset 0 kept m else m in
    let m' : List ℕ = set moved (string + kept) 0 in
    let t : List ℕ = take kept (drop offset u) in
    let n : length t ≡ kept = length-take-drop kept offset u (omega arith) in
    let inside : length u ≤ length s = length-contents_le s in
    let room : string + end ≤ length m = omega (arith, drop_room string m (omega arith)) in
    contents_at (drop string m') t
      (λ i h.
        let old = contents_nonzero s (offset + i) (omega (arith, n)) in
        let of_text : char_at t i ≡ char_at s (offset + i) =
          char_at-take i kept (drop offset u) (omega (arith, n))
          ∙ char_at-drop offset i u
          ∙ old.0 in
        let here : char_at (drop string m') i ≡ char_at s (offset + i) =
          char_at-drop string i m'
          ∙ kept_char string offset end i m ordered room (omega (arith, n))
          ∙ sym (char_at-drop string (offset + i) m) in
        (here ∙ sym of_text, λ z. old.1 (sym of_text ∙ z)))
      (char_at-drop string (length t) m'
        ∙ ap (λ k. char_at m' (string + k)) n
        ∙ set_zero moved (string + kept))
