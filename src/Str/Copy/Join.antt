-- ===== src/Str/Copy/Join.antt =====
-- str/strcat.hpp: joining of strings.
use mathlib.Core.Path.{subst}
use apilib.Base.{ℕ, zero, suc, ◌+◌, ◌≤◌, ◌<◌, ◌≡◌, inl, inr, refl, ap, sym, ◌∙◌, arith}
use apilib.Base.{List, [], ◌∷◌, ◌++◌, false, ◌||◌, some}
use apilib.Base.{
  ◌==◌, drop, take, length, length-append, Bool-cases, overwrite, overwrite_at, take_all,
}
use apilib.Str.Len.{strlen, contents, strlen-contents}
use apilib.Str.Copy.{strcat, strcat_n}
use apilib.Str.Copy.Bounded.{Apart}
use apilib.Str.Copy.Result.{strcpy_copies}

drop-overwrite_at :
    (dst k : ℕ) (bs m : List ℕ)
    → drop dst (overwrite_at (dst + k) bs m) ≡ overwrite_at k bs (drop dst m)
drop-overwrite_at zero k bs m = let e : 0 + k ≡ k = omega arith in rw e refl
drop-overwrite_at (suc dst) zero [] [] = let e : suc dst + 0 ≡ suc dst = omega arith in rw e refl
drop-overwrite_at (suc dst) zero (b ∷ bs) [] =
    let e : suc dst + 0 ≡ suc dst = omega arith in rw e refl
drop-overwrite_at (suc dst) (suc k) bs [] =
    let e : suc dst + suc k ≡ suc (dst + suc k) = omega arith in rw e refl
drop-overwrite_at (suc dst) k bs (x ∷ m) =
    let e : suc dst + k ≡ suc (dst + k) = omega arith in rw e (drop-overwrite_at dst k bs m)

-- What is copied from a string, and a zero, over the front of another one.
contents-overwrite :
    (n : ℕ) (string s : List ℕ)
    → length (take n (contents string)) < length s
    → contents (overwrite (take n (contents string) ++ (0 ∷ [])) s) ≡ take n (contents string)
unfolding contents
contents-overwrite n string [] h = absurd (omega arith)
contents-overwrite zero string (x ∷ s) h = refl
contents-overwrite (suc n) [] (x ∷ s) h = refl
contents-overwrite (suc n) (c ∷ string) (x ∷ s) h = elim (Bool-cases (c == 0)) [
  | inl z ↦ rw (z, contents) refl
  | inr nz ↦
      let short : length (take n (contents string)) < length s = ground (arith, nz, h) in
      rw (nz, contents, nz) (ap (λ t. c ∷ t) (contents-overwrite n string s short))
]

-- The same behind the contents of the other string.
contents_join :
    (n : ℕ) (string s : List ℕ)
    → strlen s + length (take n (contents string)) < length s
    → contents (overwrite_at (strlen s) (take n (contents string) ++ (0 ∷ [])) s)
      ≡ contents s ++ take n (contents string)
unfolding contents strlen
contents_join n string [] h = absurd (omega arith)
contents_join n string (c ∷ s) h = elim (Bool-cases (c == 0)) [
  | inl z ↦
      let short : length (take n (contents string)) < length (c ∷ s) = ground (arith, z, h) in
      rw (z, strlen) (contents-overwrite n string (c ∷ s) short)
  | inr nz ↦
      let short : strlen s + length (take n (contents string)) < length s = ground (arith, nz, h) in
      rw (nz, strlen, contents, nz) (ap (λ t. c ∷ t) (contents_join n string s short))
]

length-take_le : (n : ℕ) (xs : List ℕ) → length (take n xs) ≤ length xs
length-take_le zero xs = omega arith
length-take_le (suc n) [] = omega arith
length-take_le (suc n) (x ∷ xs) = omega (arith, length-take_le n xs)

-- The memory after a piece has been joined to the string at `dst`.
abbrev pub joined : ℕ → List ℕ → List ℕ → List ℕ
joined dst text m = overwrite_at (dst + strlen (drop dst m)) (text ++ (0 ∷ [])) m

joined-contents :
    (dst src n : ℕ) (m : List ℕ)
    → let front : List ℕ = take n (contents (drop src m)) in
      strlen (drop dst m) + length front < length (drop dst m)
      → contents (drop dst (joined dst front m)) ≡ contents (drop dst m) ++ front
joined-contents dst src n m room =
    let front : List ℕ = take n (contents (drop src m)) in
    ap contents (drop-overwrite_at dst (strlen (drop dst m)) (front ++ (0 ∷ [])) m)
    ∙ contents_join n (drop src m) (drop dst m) room

-- Where the target has room, no address is NULL and reading the source does not meet what is
-- written, `strcat` and `strcat_n` leave at `dst` the contents of the first string followed by
-- those of the second one, of which `strcat_n` takes the first `maxcnt`, and return the length of
-- that.
pub strcat_joins :
    (dst src maxcnt : ℕ) (m : List ℕ)
    → 0 < dst
    → 0 < src
    → let s : List ℕ = contents (drop dst m) in
      let t : List ℕ = contents (drop src m) in
      Apart (dst + length s) src (length t)
      → Apart (dst + length s) src (length (take maxcnt t))
      → length s + length t < length (drop dst m)
      → (strcat dst src m ≡ some (length (s ++ t), joined dst t m))
        × (contents (drop dst (joined dst t m)) ≡ s ++ t)
        × (strcat_n dst src maxcnt m
            ≡ some (length (s ++ take maxcnt t), joined dst (take maxcnt t) m))
        × (contents (drop dst (joined dst (take maxcnt t) m)) ≡ s ++ take maxcnt t)
unfolding strcat strcat_n
strcat_joins dst src maxcnt m p q apart apart_front room =
    let s : List ℕ = contents (drop dst m) in
    let t : List ℕ = contents (drop src m) in
    let front : List ℕ = take maxcnt t in
    let n : strlen (drop dst m) ≡ length s = strlen-contents (drop dst m) in
    let there : (dst == 0 || src == 0) ≡ false = ground (arith, p, q) in
    let copies =
      strcpy_copies (dst + strlen (drop dst m)) src 0 maxcnt m (omega arith) q
        (subst (λ k. Apart (dst + k) src (length t)) (sym n) apart)
        (subst (λ k. Apart (dst + k) src (length front)) (sym n) apart_front) in
    let all : take (length t) t ≡ t = take_all (length t) t (omega arith) in
    let shorter : length front ≤ length t = length-take_le maxcnt t in
    (
      rw (there, copies.0)
          (ap (λ (k : ℕ). some (k, joined dst t m))
            (ap (λ k. k + length t) n ∙ sym (length-append s t))),
      subst (λ r. contents (drop dst (joined dst r m)) ≡ s ++ r) all
          (joined-contents dst src (length t) m (omega (arith, n, ap length all))),
      rw (there, copies.1)
          (ap (λ (k : ℕ). some (k, joined dst front m))
            (ap (λ k. k + length front) n ∙ sym (length-append s front))),
      joined-contents dst src maxcnt m (omega (arith, n, shorter)),
    )
