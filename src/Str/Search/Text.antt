-- ===== src/Str/Search/Text.antt =====
-- str/strstr.hpp: what a test at one place says of the texts.
use apilib.Base.{ℕ, zero, suc, ◌≤◌, ◌<◌, ◌≡◌, inl, inr, refl, arith, List, [], ◌∷◌}
use apilib.Base.{true, false, ◌==◌, ◌||◌, Bool-cases, length, take, drop}
use apilib.Base.{take_all}
use apilib.Str.Len.{contents}
use apilib.Str.ChrCmp.{chrequ}
use apilib.Str.Compare.{equal_strings_n, strequ_n}

-- `n` characters compare as equal exactly if the first `n` characters of `s` are the contents of
-- `t`.
abbrev Agrees : ℕ → List ℕ → List ℕ → Type 0
Agrees n s t =
    (equal_strings_n chrequ n s t ≡ true → take n (contents s) ≡ contents t)
    × (take n (contents s) ≡ contents t → equal_strings_n chrequ n s t ≡ true)

Agrees-cons :
    (n c d : ℕ) (s t : List ℕ) → (d == 0) ≡ false → Agrees n s t → Agrees (suc n) (c ∷ s) (d ∷ t)
unfolding equal_strings_n chrequ contents
Agrees-cons n c d s t nz (to, from) = (ground (arith, nz, to), ground (arith, nz, from))

Agrees-nil : (n d : ℕ) (t : List ℕ) → (d == 0) ≡ false → Agrees (suc n) [] (d ∷ t)
unfolding equal_strings_n chrequ contents
Agrees-nil n d t nz = (ground (arith, nz), ground (arith, nz))

equal_strings_n-contents : (s t : List ℕ) (n : ℕ) → n ≡ length (contents t) → Agrees n s t
unfolding equal_strings_n chrequ contents
equal_strings_n-contents s [] zero e = (λ h. refl, λ h. refl)
equal_strings_n-contents s [] (suc n) e = absurd (omega arith)
equal_strings_n-contents s (d ∷ t) zero e = (ground (arith, e), λ h. refl)
equal_strings_n-contents [] (d ∷ t) (suc n) e = Agrees-nil n d t (ground (arith, e))
equal_strings_n-contents (c ∷ s) (d ∷ t) (suc n) e =
    Agrees-cons n c d s t (ground (arith, e)) (equal_strings_n-contents s t n (ground (arith, e)))

-- The test of the searches: `strequ_n` for the length of the second string, which is not empty.
pub strequ_n-contents :
    (p s2 : ℕ) (m : List ℕ)
    → 0 < p
    → 0 < s2
    → 0 < length (contents (drop s2 m))
    → (strequ_n p s2 (length (contents (drop s2 m))) m ≡ true
        → take (length (contents (drop s2 m))) (contents (drop p m)) ≡ contents (drop s2 m))
      × (take (length (contents (drop s2 m))) (contents (drop p m)) ≡ contents (drop s2 m)
          → strequ_n p s2 (length (contents (drop s2 m))) m ≡ true)
unfolding strequ_n
strequ_n-contents p s2 m there there2 some_text =
    let n = length (contents (drop s2 m)) in
    let guard : ((p == 0) || ((s2 == 0) || (n == 0))) ≡ false =
      ground (arith, there, there2, some_text) in
    elim (Bool-cases (p == s2)) [
      | inl same ↦
          let e : p ≡ s2 = ground (arith, same) in
          (λ h. rw e (take_all n (contents (drop s2 m)) (omega arith)), λ h. rw same)
      | inr other ↦ rw (other, guard) (equal_strings_n-contents (drop p m) (drop s2 m) n refl)
    ]

-- Within a string, the contents from a later place on are the rest of the contents.
pub contents-drop :
    (i : ℕ) (s : List ℕ) → i ≤ length (contents s) → contents (drop i s) ≡ drop i (contents s)
unfolding contents
contents-drop zero s h = refl
contents-drop (suc i) [] h = absurd (omega arith)
contents-drop (suc i) (c ∷ s) h =
    let rest = contents-drop i s in
    elim (Bool-cases (c == 0)) [
      | inl zero_char ↦ absurd (ground (arith, zero_char, h))
      | inr other ↦ rw other (rest (ground (arith, other, h)))
    ]
