-- ===== src/Base/Writes.antt =====
-- Writes of pieces into an array, one behind the other.
use Prim.Native.Nat.{ℕ, zero, suc, ◌+◌, ◌≤◌, ◌<◌}
use mathlib.Core.Path.{◌≡◌, refl, ap}
use mathlib.Core.Logic.{◌⊎◌, inl, inr}
use mathlib.Core.List.{List, [], ◌∷◌, ◌++◌}
use native.Mathlib.Omega.{arith}
use apilib.Base.Lists.{length, get_or, set, take, overwrite_at}

module _ {ℓ} {A : Type ℓ} where
  pub overwrite_at-nil : (start : ℕ) (text : List A) → overwrite_at start [] text ≡ text
  overwrite_at-nil zero text = refl
  overwrite_at-nil (suc start) [] = refl
  overwrite_at-nil (suc start) (x ∷ text) = ap (λ t. x ∷ t) (overwrite_at-nil start text)

  overwrite_at-empty : (start : ℕ) (bs : List A) → overwrite_at start bs [] ≡ []
  overwrite_at-empty zero [] = refl
  overwrite_at-empty zero (b ∷ bs) = refl
  overwrite_at-empty (suc start) bs = refl

  -- Writing a piece behind another one.
  pub overwrite_at-behind :
      (start : ℕ) (front bs text : List A)
      → overwrite_at (start + length front) bs (overwrite_at start front text)
        ≡ overwrite_at start (front ++ bs) text
  overwrite_at-behind start [] bs text =
      let e : start + 0 ≡ start = omega arith in rw (e, overwrite_at-nil start text) refl
  overwrite_at-behind zero (a ∷ front) bs [] = overwrite_at-empty (0 + suc (length front)) bs
  overwrite_at-behind zero (a ∷ front) bs (x ∷ text) =
      let e : 0 + suc (length front) ≡ suc (0 + length front) = omega arith in
      rw e (ap (λ t. a ∷ t) (overwrite_at-behind zero front bs text))
  overwrite_at-behind (suc start) (a ∷ front) bs [] =
      overwrite_at-empty (suc start + suc (length front)) bs
  overwrite_at-behind (suc start) (a ∷ front) bs (x ∷ text) =
      let e : suc start + suc (length front) ≡ suc (start + suc (length front)) = omega arith in
      rw e (ap (λ t. x ∷ t) (overwrite_at-behind start (a ∷ front) bs text))

  pub set-overwrite_at :
      (text : List A) (i : ℕ) (c : A) → set text i c ≡ overwrite_at i (c ∷ []) text
  set-overwrite_at [] zero c = refl
  set-overwrite_at [] (suc i) c = refl
  set-overwrite_at (x ∷ text) zero c = refl
  set-overwrite_at (x ∷ text) (suc i) c = ap (λ t. x ∷ t) (set-overwrite_at text i c)

  -- A piece does not change what stands before it and behind it.
  pub get_or-overwrite_at :
      (start a : ℕ) (bs text : List A) (d : A)
      → (a < start) ⊎ (start + length bs ≤ a)
      → get_or (overwrite_at start bs text) a d ≡ get_or text a d
  get_or-overwrite_at zero a [] text d h = refl
  get_or-overwrite_at zero a (b ∷ bs) [] d h = refl
  get_or-overwrite_at zero a (b ∷ bs) (x ∷ text) d (inl h) = absurd (omega arith)
  get_or-overwrite_at zero zero (b ∷ bs) (x ∷ text) d (inr h) = absurd (omega arith)
  get_or-overwrite_at zero (suc a) (b ∷ bs) (x ∷ text) d (inr h) =
      get_or-overwrite_at zero a bs text d (inr (omega arith))
  get_or-overwrite_at (suc start) a bs [] d h = refl
  get_or-overwrite_at (suc start) zero bs (x ∷ text) d h = refl
  get_or-overwrite_at (suc start) (suc a) bs (x ∷ text) d (inl h) =
      get_or-overwrite_at start a bs text d (inl (omega arith))
  get_or-overwrite_at (suc start) (suc a) bs (x ∷ text) d (inr h) =
      get_or-overwrite_at start a bs text d (inr (omega arith))

  pub take_all : (n : ℕ) (xs : List A) → length xs ≤ n → take n xs ≡ xs
  take_all zero [] h = refl
  take_all zero (x ∷ xs) h = absurd (omega arith)
  take_all (suc n) [] h = refl
  take_all (suc n) (x ∷ xs) h = ap (λ t. x ∷ t) (take_all n xs (omega arith))

  pub take-append_full : (n : ℕ) (xs ys : List A) → n ≤ length xs → take n (xs ++ ys) ≡ take n xs
  take-append_full zero xs ys h = refl
  take-append_full (suc n) [] ys h = absurd (omega arith)
  take-append_full (suc n) (x ∷ xs) ys h = ap (λ t. x ∷ t) (take-append_full n xs ys (omega arith))
