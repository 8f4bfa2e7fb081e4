-- ===== src/Base/Lists.antt =====
-- Byte arrays as lists with native indices, and writes into them.
use Prim.Native.Nat.{ℕ, zero, suc, ◌+◌, ◌-◌, ◌≤◌, ◌<◌}
use mathlib.Core.Logic.{◌≢◌}
use mathlib.Core.Path.{◌≡◌, refl, ap}
use mathlib.Core.List.{List, [], ◌∷◌, ◌++◌}
use native.Mathlib.Omega.{arith}
use native.Mathlib.Nat.{zero-add}

module _ {ℓ} {A : Type ℓ} where
  abbrev pub length : List A → ℕ
  length [] = 0
  length (x ∷ xs) = suc (length xs)

  abbrev pub get_or : List A → ℕ → A → A
  get_or [] i d = d
  get_or (x ∷ xs) zero d = x
  get_or (x ∷ xs) (suc i) d = get_or xs i d

  -- A write out of bounds changes nothing.
  abbrev pub set : List A → ℕ → A → List A
  set [] i v = []
  set (x ∷ xs) zero v = v ∷ xs
  set (x ∷ xs) (suc i) v = x ∷ set xs i v

  abbrev pub take : ℕ → List A → List A
  take zero xs = []
  take (suc n) [] = []
  take (suc n) (x ∷ xs) = x ∷ take n xs

  abbrev pub drop : ℕ → List A → List A
  drop zero xs = xs
  drop (suc n) [] = []
  drop (suc n) (x ∷ xs) = drop n xs

  -- The bytes `bs` written over the front of an array, as by `p[0] = b0; p[1] = b1; ...`.
  abbrev pub overwrite : List A → List A → List A
  overwrite [] d = d
  overwrite (b ∷ bs) [] = []
  overwrite (b ∷ bs) (x ∷ d) = b ∷ overwrite bs d

  -- The same from index `i` on.
  abbrev pub overwrite_at : ℕ → List A → List A → List A
  overwrite_at zero bs d = overwrite bs d
  overwrite_at (suc i) bs [] = []
  overwrite_at (suc i) bs (x ∷ d) = x ∷ overwrite_at i bs d

  pub length-append : (xs ys : List A) → length (xs ++ ys) ≡ length xs + length ys
  length-append [] ys = omega arith
  length-append (x ∷ xs) ys = omega (arith, length-append xs ys)

  pub length-overwrite : (bs d : List A) → length (overwrite bs d) ≡ length d
  length-overwrite [] d = refl
  length-overwrite (b ∷ bs) [] = refl
  length-overwrite (b ∷ bs) (x ∷ d) = ap suc (length-overwrite bs d)

  pub length-overwrite_at : (i : ℕ) (bs d : List A) → length (overwrite_at i bs d) ≡ length d
  length-overwrite_at zero bs d = length-overwrite bs d
  length-overwrite_at (suc i) bs [] = refl
  length-overwrite_at (suc i) bs (x ∷ d) = ap suc (length-overwrite_at i bs d)

  -- What was written is what is read back.
  pub take-overwrite :
      (bs d : List A) → length bs ≤ length d → take (length bs) (overwrite bs d) ≡ bs
  take-overwrite [] d h = refl
  take-overwrite (b ∷ bs) [] h = absurd (omega arith)
  take-overwrite (b ∷ bs) (x ∷ d) h = ap (λ t. b ∷ t) (take-overwrite bs d (omega arith))

  -- Writes one after the other make up one write.
  pub overwrite_at-append :
      (got bs d : List A) → overwrite_at (length got) bs (overwrite got d) ≡ overwrite (got ++ bs) d
  overwrite_at-append [] bs d = refl
  overwrite_at-append (g ∷ got) bs [] = refl
  overwrite_at-append (g ∷ got) bs (x ∷ d) = ap (λ t. g ∷ t) (overwrite_at-append got bs d)

  pub take-append-drop : (n : ℕ) (xs : List A) → take n xs ++ drop n xs ≡ xs
  take-append-drop zero xs = refl
  take-append-drop (suc n) [] = refl
  take-append-drop (suc n) (x ∷ xs) = ap (λ t. x ∷ t) (take-append-drop n xs)

  pub drop-drop : (m n : ℕ) (xs : List A) → drop n (drop m xs) ≡ drop (m + n) xs
  drop-drop zero n xs = rw zero-add
  drop-drop (suc m) zero [] = let e : suc m + 0 ≡ suc m = omega arith in rw e
  drop-drop (suc m) (suc n) [] = let e : suc m + suc n ≡ suc (m + suc n) = omega arith in rw e
  drop-drop (suc m) n (x ∷ xs) =
      let e : suc m + n ≡ suc (m + n) = omega arith in rw e (drop-drop m n xs)

  pub length-drop : (n : ℕ) (xs : List A) → n ≤ length xs → length (drop n xs) + n ≡ length xs
  length-drop zero xs h = omega arith
  length-drop (suc n) [] h = absurd (omega arith)
  length-drop (suc n) (x ∷ xs) h = omega (arith, length-drop n xs (omega arith))

  pub length-take : (n : ℕ) (xs : List A) → n ≤ length xs → length (take n xs) ≡ n
  length-take zero xs h = refl
  length-take (suc n) [] h = absurd (omega arith)
  length-take (suc n) (x ∷ xs) h = ap suc (length-take n xs (omega arith))

  pub take-take-drop : (m n : ℕ) (xs : List A) → take m xs ++ take n (drop m xs) ≡ take (m + n) xs
  take-take-drop zero n xs = rw zero-add
  take-take-drop (suc m) zero [] = let e : suc m + 0 ≡ suc m = omega arith in rw e
  take-take-drop (suc m) (suc n) [] = let e : suc m + suc n ≡ suc (m + suc n) = omega arith in rw e
  take-take-drop (suc m) n (x ∷ xs) =
      let e : suc m + n ≡ suc (m + n) = omega arith in
      rw e (ap (λ t. x ∷ t) (take-take-drop m n xs))

  take-nil : (n : ℕ) → take n [] ≡ []
  take-nil zero = refl
  take-nil (suc n) = refl

  -- A piece that is sent in two steps.
  pub take_split :
      (n k : ℕ) (xs : List A) → k ≤ n → take k (take n xs) ++ take (n - k) (drop k xs) ≡ take n xs
  take_split n zero xs h = let e : n - 0 ≡ n = omega arith in rw e
  take_split zero (suc k) xs h = absurd (omega arith)
  take_split (suc n) (suc k) [] h = take-nil (suc n - suc k)
  take_split (suc n) (suc k) (x ∷ xs) h =
      let e : suc n - suc k ≡ n - k = omega arith in
      rw e (ap (λ t. x ∷ t) (take_split n k xs (omega arith)))

  pub length-set : (xs : List A) (i : ℕ) (v : A) → length (set xs i v) ≡ length xs
  length-set [] i v = refl
  length-set (x ∷ xs) zero v = refl
  length-set (x ∷ xs) (suc i) v = ap suc (length-set xs i v)

  -- A write is seen at its own index and at no other.
  pub get_or-set_same :
      (xs : List A) (i : ℕ) (v d : A) → i < length xs → get_or (set xs i v) i d ≡ v
  get_or-set_same [] i v d h = absurd (omega arith)
  get_or-set_same (x ∷ xs) zero v d h = refl
  get_or-set_same (x ∷ xs) (suc i) v d h = get_or-set_same xs i v d (omega arith)

  pub get_or-set_other :
      (xs : List A) (i j : ℕ) (v d : A) → i ≢ j → get_or (set xs i v) j d ≡ get_or xs j d
  get_or-set_other [] i j v d h = refl
  get_or-set_other (x ∷ xs) zero zero v d h = absurd (h refl)
  get_or-set_other (x ∷ xs) zero (suc j) v d h = refl
  get_or-set_other (x ∷ xs) (suc i) zero v d h = refl
  get_or-set_other (x ∷ xs) (suc i) (suc j) v d h = get_or-set_other xs i j v d (λ e. h (ap suc e))
