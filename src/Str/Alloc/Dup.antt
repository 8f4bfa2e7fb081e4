-- ===== src/Str/Alloc/Dup.antt =====
-- str/strmem.hpp: the copy of a string in allocated memory.
use apilib.Base.{ℕ, ◌+◌, ◌*◌, ◌<◌, ◌≡◌, ap, ◌∙◌, arith}
use apilib.Base.{List, [], ◌∷◌, ◌++◌, Bool-cases, true, false, some, inl, inr}
use apilib.Base.{◌==◌, drop, take, set, length, overwrite_at, set-overwrite_at, take_all}
use apilib.Str.Len.{contents, strlen, strlen-contents}
use apilib.Str.Copy.{strcpy_n}
use apilib.Str.Copy.Bounded.{Apart}
use apilib.Str.Copy.Result.{strcpy_copies}
use apilib.Str.Alloc.{strdup, strdup_n, stradd, add, copy_some, length_at}

zero_only :
    (a : ℕ) (u m : List ℕ)
    → length u ≡ 0
    → set m (a + length u) 0 ≡ overwrite_at a (u ++ (0 ∷ [])) m
zero_only a [] m e = ap (λ k. set m k 0) (omega arith) ∙ set-overwrite_at m a 0
zero_only a (c ∷ u) m e = absurd (omega arith)

module _ (alloc : ℕ → List ℕ → ℕ × List ℕ) (size_of : ℕ) where
  -- What an allocation for the string at `string` promises: room at an address, and the string
  -- kept.
  abbrev pub Allocates : ℕ → List ℕ → ℕ → List ℕ → Type 0
  Allocates string m allocated m' =
      (alloc ((length (contents (drop string m)) + 1) * size_of) m ≡ (allocated, m'))
      × (0 < allocated)
      × (allocated + length (contents (drop string m)) < length m')
      × Apart allocated string (length (contents (drop string m)))
      × (contents (drop string m') ≡ contents (drop string m))

  -- With such an allocation, `strdup` returns a copy of the string.
  pub strdup_copies :
      (string allocated : ℕ) (m m' : List ℕ)
      → 0 < string
      → Allocates string m allocated m'
      → strdup alloc size_of string m
        ≡ some (allocated, overwrite_at allocated (contents (drop string m) ++ (0 ∷ [])) m')
  unfolding strdup strdup_n
  strdup_copies string allocated m m' there (got, given, room, apart, kept) =
      let t : List ℕ = contents (drop string m) in
      let n : strlen (drop string m) ≡ length t = strlen-contents (drop string m) in
      let null : (string == 0) ≡ false = ground (arith, there) in
      let given' : (allocated == 0) ≡ false = ground (arith, given) in
      let whole : take (length t) (contents (drop string m')) ≡ t =
        rw kept (take_all (length t) t (omega arith)) in
      let got' : alloc ((strlen (drop string m) + 1) * size_of) m ≡ (allocated, m') = rw n got in
      let at : (alloc ((strlen (drop string m) + 1) * size_of) m).0 ≡ allocated =
        ap (λ r. r.0) got' in
      let left : (alloc ((strlen (drop string m) + 1) * size_of) m).1 ≡ m' = ap (λ r. r.1) got' in
      elim (Bool-cases (length t == 0)) [
        | inl z ↦
            rw (null, at, left, given', n, z)
              (ap (λ x. some (allocated, x)) (zero_only allocated t m' (ground (arith, z))))
        | inr nz ↦
            let copies =
              strcpy_copies allocated string 0 (length t) m' given there (rw kept apart)
                (rw whole apart) in
            let copied : strcpy_n allocated string (length t) m'
                ≡ some (length t, overwrite_at allocated (t ++ (0 ∷ [])) m') =
              copies.1
              ∙ ap (λ u. some (length u, overwrite_at allocated (u ++ (0 ∷ [])) m')) whole in
            rw (null, at, left, given', n, nz, copied)
              (ap (λ a. some (a, overwrite_at allocated (t ++ (0 ∷ [])) m')) at)
      ]

  -- Where both strings are empty, `stradd` returns the allocated memory as it is, without a zero.
  pub stradd_empty :
      (dst src allocated : ℕ) (m m' : List ℕ)
      → 0 < src
      → length_at dst m ≡ 0
      → length_at src m ≡ 0
      → alloc (1 * size_of) m ≡ (allocated, m')
      → 0 < allocated
      → stradd alloc size_of (some dst) src m ≡ some (true, some allocated, m')
  unfolding stradd add copy_some
  stradd_empty dst src allocated m m' there none1 none2 got given =
      let null : (src == 0) ≡ false = ground (arith, there) in
      let given' : (allocated == 0) ≡ false = ground (arith, given) in
      let got' : alloc ((length_at dst m + length_at src m + 1) * size_of) m ≡ (allocated, m') =
        rw (none1, none2) got in
      let at : (alloc ((length_at dst m + length_at src m + 1) * size_of) m).0 ≡ allocated =
        ap (λ r. r.0) got' in
      let left : (alloc ((length_at dst m + length_at src m + 1) * size_of) m).1 ≡ m' =
        ap (λ r. r.1) got' in
      rw (null, at, left, given', none1, none2) (ap (λ a. some (true, some a, m')) at)
