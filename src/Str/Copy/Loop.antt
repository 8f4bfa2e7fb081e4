-- ===== src/Str/Copy/Loop.antt =====
-- str/strcpy.hpp: the loop of the four functions that copy a string.
use apilib.Base.{ℕ, zero, suc, ◌+◌, ◌≤◌, ◌<◌, ◌≡◌, inl, inr, refl, ap, sym, ◌∙◌, arith}
use apilib.Base.{List, [], ◌∷◌, ◌++◌, Bool, true, some}
use apilib.Base.{◌==◌, if◌then◌else◌, drop, length, length-append, Bool-cases}
use mathlib.Core.List.{append-nil, append_assoc}
use apilib.Str.{char_at}
use apilib.Str.Copy.{copy_loop}

-- The characters that are copied: those before the zero and before the loop ends otherwise.
unfoldable pub copied : (ℕ → Bool) → ℕ → List ℕ → List ℕ
copied ends i [] = []
copied ends i (c ∷ string) =
    let rest = copied ends (suc i) string in if ends i then [] else if c == 0 then [] else c ∷ rest

pub length-copied :
    (ends : ℕ → Bool) (i : ℕ) (string : List ℕ) → length (copied ends i string) ≤ length string
unfolding copied
length-copied ends i [] = omega arith
length-copied ends i (c ∷ string) = ground (arith, length-copied ends (suc i) string)

char_at-drop : (a : ℕ) (m : List ℕ) → char_at (drop a m) 0 ≡ char_at m a
char_at-drop zero m = refl
char_at-drop (suc a) [] = refl
char_at-drop (suc a) (c ∷ m) = char_at-drop a m

drop-suc : (a : ℕ) (m : List ℕ) → drop 1 (drop a m) ≡ drop (suc a) m
drop-suc zero [] = refl
drop-suc zero (c ∷ m) = refl
drop-suc (suc a) [] = refl
drop-suc (suc a) (c ∷ m) = drop-suc a m

copied_at :
    (ends : ℕ → Bool) (i a : ℕ) (m : List ℕ)
    → copied ends i (drop a m) ≡ (
        if ends i
        then []
        else if char_at m a == 0
        then []
        else char_at m a ∷ copied ends (suc i) (drop (suc a) m))
unfolding copied
copied_at ends i zero [] = ground arith
copied_at ends i zero (c ∷ m) = refl
copied_at ends i (suc a) [] = ground arith
copied_at ends i (suc a) (c ∷ m) = copied_at ends i a m

-- A loop whose memory after `done` has been copied is `state done`, and at the end `final done`.
-- The source is read as it was as long as no more than `total` characters are copied.
module _ (ends : ℕ → Bool) (close : ℕ → List ℕ → List ℕ) (put : ℕ → ℕ → List ℕ → List ℕ)
    (src total : ℕ) (m : List ℕ) (state final : List ℕ → List ℕ)
    (step : (c i : ℕ) (done : List ℕ)
      → i ≡ length done
      → put i c (state done) ≡ state (done ++ (c ∷ [])))
    (stop : (i : ℕ) (done : List ℕ) → i ≡ length done → put i 0 (state done) ≡ final done)
    (closes : (i : ℕ) (done : List ℕ)
      → i ≡ length done
      → ends i ≡ true
      → close i (state done) ≡ final done)
    (reads : (i : ℕ) (done : List ℕ)
      → i ≡ length done
      → i ≤ total
      → char_at (state done) (src + i) ≡ char_at m (src + i)) where
  pub copy_loop_lem :
      (rounds i : ℕ) (done rest : List ℕ)
      → i ≡ length done
      → rest ≡ copied ends i (drop (src + i) m)
      → length rest < rounds
      → i + length rest ≤ total
      → copy_loop rounds ends close put src i (state done)
        ≡ some (i + length rest, final (done ++ rest))
  unfolding copy_loop
  copy_loop_lem zero i done rest here is_rest enough within = absurd (omega arith)
  copy_loop_lem (suc rounds) i done rest here is_rest enough within =
      let chr : ℕ = char_at m (src + i) in
      let read : char_at (state done) (src + i) ≡ chr = reads i done here (omega arith) in
      let tail : List ℕ = copied ends (suc i) (drop (suc (src + i)) m) in
      let parts = is_rest ∙ copied_at ends i (src + i) m in
      elim (Bool-cases (ends i)) [
        | inl e ↦
            let none_left : rest ≡ [] = parts ∙ ground (arith, e) in
            rw (e, none_left, append-nil, closes i done here e)
              (ap (λ n. some (n, final done)) (omega arith))
        | inr e ↦ elim (Bool-cases (chr == 0)) [
          | inl z ↦
              let zero_read : chr ≡ 0 = ground (arith, z) in
              let none_left : rest ≡ [] = parts ∙ ground (arith, e, z) in
              rw (e, read, zero_read, none_left, append-nil, stop i done here)
                (ap (λ n. some (n, final done)) (omega arith))
          | inr nz ↦
              let more : rest ≡ chr ∷ tail = parts ∙ ground (arith, e, nz) in
              let n : length rest ≡ suc (length tail) = ap length more in
              let next : suc i ≡ length (done ++ (chr ∷ [])) =
                omega (arith, length-append done (chr ∷ [])) in
              let place : suc (src + i) ≡ src + suc i = omega arith in
              let ih =
                copy_loop_lem rounds (suc i) (done ++ (chr ∷ [])) tail next
                  (ap (λ a. copied ends (suc i) (drop a m)) place) (omega (arith, n))
                  (omega (arith, n)) in
              let count : suc i + length tail ≡ i + length rest = omega (arith, n) in
              let whole : (done ++ (chr ∷ [])) ++ tail ≡ done ++ rest =
                append_assoc done (chr ∷ []) tail ∙ ap (λ t. done ++ t) (sym more) in
              rw (e, read, nz, step chr i done here) (ih ∙ rw (count, whole) refl)
        ]
      ]
