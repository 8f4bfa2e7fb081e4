-- ===== src/Str/Copy/Bounded.antt =====
-- str/strcpy.hpp: one round of the loop, where the whole string has room and where it is cut.
use apilib.Base.{ℕ, zero, suc, ◌+◌, ◌-◌, ◌≤◌, ◌<◌, ◌≡◌, ◌⊎◌, inl, inr, refl, ap, sym, ◌∙◌, arith}
use apilib.Base.{List, [], ◌∷◌, ◌++◌, true, false}
use apilib.Base.{
  ◌==◌, ltb, leb, if◌then◌else◌, take, set, length, length-append, Bool-cases, overwrite_at,
  overwrite_at-behind, set-overwrite_at, get_or-overwrite_at, take_all, take-append_full,
  length-take,
}
use apilib.Str.{char_at}
use apilib.Str.Len.{contents}
use apilib.Str.Copy.{put_at, put_below, close_below}
use apilib.Str.Copy.Loop.{copied}

pub copied_all : (i : ℕ) (string : List ℕ) → copied (λ k. false) i string ≡ contents string
unfolding copied contents
copied_all i [] = refl
copied_all i (c ∷ string) = ground (arith, copied_all (suc i) string)

pub copied-take :
    (n i : ℕ) (string : List ℕ) → copied (λ k. leb n k) i string ≡ take (n - i) (contents string)
unfolding copied contents
copied-take n i [] = sym (take_all (n - i) [] (omega arith))
copied-take n i (c ∷ string) =
    let ih = copied-take n (suc i) string in
    elim (Bool-cases (leb n i)) [
      | inl full ↦ let none_left : n - i ≡ 0 = ground (arith, full) in rw (full, none_left) refl
      | inr more ↦
          let left : n - i ≡ suc (n - suc i) = ground (arith, more) in
          rw (more, left) (ground (arith, ih))
    ]

-- A text in `maxlen` characters: cut, and then ended by a zero, where it is too long.
abbrev pub bounded : ℕ → List ℕ → List ℕ
bounded zero text = []
bounded (suc last) text = if leb (length text) last then text else take last text ++ (0 ∷ [])

-- Where copying reads only what it has not written yet.
abbrev pub Apart : ℕ → ℕ → ℕ → Type 0
Apart dst src total = (dst ≤ src) ⊎ (src + total < dst)

pub put_at_step :
    (dst : ℕ) (m : List ℕ) (c i : ℕ) (done : List ℕ)
    → i ≡ length done
    → put_at dst i c (overwrite_at dst done m) ≡ overwrite_at dst (done ++ (c ∷ [])) m
put_at_step dst m c i done here =
    ap (λ k. set (overwrite_at dst done m) (dst + k) c) here
    ∙ set-overwrite_at (overwrite_at dst done m) (dst + length done) c
    ∙ overwrite_at-behind dst done (c ∷ []) m

pub reads_behind :
    (dst src total : ℕ) (m : List ℕ) (i : ℕ) (done : List ℕ)
    → Apart dst src total
    → length done ≤ i
    → i ≤ total
    → char_at (overwrite_at dst done m) (src + i) ≡ char_at m (src + i)
reads_behind dst src total m i done (inl before) short within =
    get_or-overwrite_at dst (src + i) done m 0 (inr (omega arith))
reads_behind dst src total m i done (inr behind) short within =
    get_or-overwrite_at dst (src + i) done m 0 (inl (omega arith))

lt-or-eq-or-gt : (a b : ℕ) → (a < b) ⊎ ((a ≡ b) ⊎ (b < a))
lt-or-eq-or-gt a b = ground arith

pub put_below_step :
    (maxlen dst : ℕ) (m : List ℕ) (c i : ℕ) (done : List ℕ)
    → i ≡ length done
    → put_below maxlen dst i c (overwrite_at dst (bounded maxlen done) m)
      ≡ overwrite_at dst (bounded maxlen (done ++ (c ∷ []))) m
put_below_step zero dst m c i done here = ground arith
put_below_step (suc last) dst m c i done here =
    let n : length (done ++ (c ∷ [])) ≡ suc i = omega (arith, length-append done (c ∷ [])) in
    let end : suc last - 1 ≡ last = omega arith in
    elim (lt-or-eq-or-gt i last) [
      | inl below ↦
          let before : leb (length done) last ≡ true = ground (arith, here, below) in
          let after : leb (suc i) last ≡ true = ground (arith, below) in
          let room : ltb i (suc last) ≡ true = ground (arith, below) in
          let other : (i == last) ≡ false = ground (arith, below) in
          rw (n, before, after, room, end, other) (put_at_step dst m c i done here)
      | inr (inl same) ↦
          let before : leb (length done) last ≡ true = ground (arith, here, same) in
          let after : leb (suc i) last ≡ false = ground (arith, same) in
          let room : ltb i (suc last) ≡ true = ground (arith, same) in
          let cut : take last (done ++ (c ∷ [])) ≡ done =
            take-append_full last done (c ∷ []) (omega arith) ∙ take_all last done (omega arith) in
          let here_last : (i == last) ≡ true = ground (arith, same) in
          rw (n, before, after, room, end, here_last, cut) (put_at_step dst m 0 i done here)
      | inr (inr above) ↦
          let before : leb (length done) last ≡ false = ground (arith, here, above) in
          let after : leb (suc i) last ≡ false = ground (arith, above) in
          let room : ltb i (suc last) ≡ false = ground (arith, above) in
          let cut : take last (done ++ (c ∷ [])) ≡ take last done =
            take-append_full last done (c ∷ []) (omega arith) in
          rw (n, before, after, room, cut) refl
    ]

pub close_below_put :
    (maxlen dst i : ℕ) (m : List ℕ) → close_below maxlen dst i m ≡ put_below maxlen dst i 0 m
close_below_put maxlen dst i m = ground arith

pub length-bounded : (maxlen : ℕ) (text : List ℕ) → length (bounded maxlen text) ≤ length text
length-bounded zero text = omega arith
length-bounded (suc last) text = elim (Bool-cases (leb (length text) last)) [
  | inl fits ↦ rw fits (omega arith)
  | inr cut ↦
      let above : last < length text = ground (arith, cut) in
      rw cut (
        omega (arith, length-append (take last text) (0 ∷ []), length-take last text (omega arith)))
]
