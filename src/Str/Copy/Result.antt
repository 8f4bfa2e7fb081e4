-- ===== src/Str/Copy/Result.antt =====
-- str/strcpy.hpp: what the four functions that copy a string write and return.
use apilib.Base.{ℕ, zero, suc, ◌+◌, ◌≤◌, ◌<◌, ◌≡◌, refl, ap, sym, ◌∙◌, arith}
use apilib.Base.{List, [], ◌∷◌, ◌++◌, Bool, true, false, ◌||◌, some}
use apilib.Base.{◌==◌, leb, drop, take, set, length, overwrite_at, overwrite_at-nil}
use apilib.Str.Len.{contents}
use apilib.Str.Copy.{
  copy_loop, put_at, put_below, close_below, strcpy, strcpy_n, strcpy_l, strcpy_ln,
}
use apilib.Str.Copy.Loop.{copied, length-copied, copy_loop_lem}
use apilib.Str.Copy.Bounded.{
  copied_all, copied-take, bounded, Apart, put_at_step, reads_behind, put_below_step,
  close_below_put, length-bounded,
}

length-drop_le : (a : ℕ) (m : List ℕ) → length (drop a m) ≤ length m
length-drop_le zero m = omega arith
length-drop_le (suc a) [] = omega arith
length-drop_le (suc a) (c ∷ m) = omega (arith, length-drop_le a m)

-- The loop without a bound on the target.
copy_plain :
    (ends : ℕ → Bool) (close : ℕ → List ℕ → List ℕ) (dst src : ℕ) (m t : List ℕ)
    → t ≡ copied ends 0 (drop src m)
    → Apart dst src (length t)
    → ((i : ℕ) (memory : List ℕ) → ends i ≡ true → close i memory ≡ set memory (dst + i) 0)
    → copy_loop (suc (length m)) ends close (put_at dst) src 0 m
      ≡ some (length t, overwrite_at dst (t ++ (0 ∷ [])) m)
copy_plain ends close dst src m t is_copied apart closes =
    let state : List ℕ → List ℕ = λ done. overwrite_at dst done m in
    let final : List ℕ → List ℕ = λ done. overwrite_at dst (done ++ (0 ∷ [])) m in
    let enough : length t < suc (length m) =
      omega (arith, ap length is_copied, length-copied ends 0 (drop src m), length-drop_le src m) in
    let here : src + 0 ≡ src = omega arith in
    let run =
      copy_loop_lem ends close (put_at dst) src (length t) m state final
        (λ c i done e. put_at_step dst m c i done e) (λ i done e. put_at_step dst m 0 i done e)
        (λ i done e stop. closes i (state done) stop ∙ put_at_step dst m 0 i done e)
        (λ i done e within. reads_behind dst src (length t) m i done apart (omega arith) within)
        (suc (length m)) 0 [] t refl (is_copied ∙ ap (λ a. copied ends 0 (drop a m)) (sym here))
        enough (omega arith) in
    ap (copy_loop (suc (length m)) ends close (put_at dst) src 0) (sym (overwrite_at-nil dst m))
    ∙ run
    ∙ ap (λ (n : ℕ). some (n, final t)) (omega arith)

bounded_nil : (maxlen dst : ℕ) (m : List ℕ) → overwrite_at dst (bounded maxlen []) m ≡ m
bounded_nil zero dst m = overwrite_at-nil dst m
bounded_nil (suc last) dst m =
    let fits : leb 0 last ≡ true = ground arith in rw (fits, overwrite_at-nil dst m) refl

-- The loop with a bound on the target.
copy_bounded :
    (ends : ℕ → Bool) (close : ℕ → List ℕ → List ℕ) (dst src maxlen : ℕ) (m t : List ℕ)
    → t ≡ copied ends 0 (drop src m)
    → Apart dst src (length t)
    → ((i : ℕ) (memory : List ℕ) → ends i ≡ true → close i memory ≡ close_below maxlen dst i memory)
    → copy_loop (suc (length m)) ends close (put_below maxlen dst) src 0 m
      ≡ some (length t, overwrite_at dst (bounded maxlen (t ++ (0 ∷ []))) m)
copy_bounded ends close dst src maxlen m t is_copied apart closes =
    let state : List ℕ → List ℕ = λ done. overwrite_at dst (bounded maxlen done) m in
    let final : List ℕ → List ℕ = λ done. state (done ++ (0 ∷ [])) in
    let enough : length t < suc (length m) =
      omega (arith, ap length is_copied, length-copied ends 0 (drop src m), length-drop_le src m) in
    let here : src + 0 ≡ src = omega arith in
    let run =
      copy_loop_lem ends close (put_below maxlen dst) src (length t) m state final
        (λ c i done e. put_below_step maxlen dst m c i done e)
        (λ i done e. put_below_step maxlen dst m 0 i done e)
        (λ i done e stop.
          closes i (state done) stop
          ∙ close_below_put maxlen dst i (state done)
          ∙ put_below_step maxlen dst m 0 i done e)
        (λ i done e within.
          reads_behind dst src (length t) m i (bounded maxlen done) apart
            (omega (arith, length-bounded maxlen done)) within)
        (suc (length m)) 0 [] t refl (is_copied ∙ ap (λ a. copied ends 0 (drop a m)) (sym here))
        enough (omega arith) in
    ap (copy_loop (suc (length m)) ends close (put_below maxlen dst) src 0)
      (sym (bounded_nil maxlen dst m))
    ∙ run
    ∙ ap (λ (n : ℕ). some (n, final t)) (omega arith)

-- Where copying reads only what it has not written yet, and no address is NULL, the four functions
-- return the length of the characters to copy, all before the zero or the first `maxcnt` of these,
-- and write them and a zero at `dst`, and nothing else; with a bound on the target they are cut
-- to `maxlen` characters of which the last is a zero, and for `maxlen` 0 nothing is written.
pub strcpy_copies :
    (dst src maxlen maxcnt : ℕ) (m : List ℕ)
    → 0 < dst
    → 0 < src
    → let t : List ℕ = contents (drop src m) in
      let front : List ℕ = take maxcnt t in
      Apart dst src (length t)
      → Apart dst src (length front)
      → (strcpy dst src m ≡ some (length t, overwrite_at dst (t ++ (0 ∷ [])) m))
        × (strcpy_n dst src maxcnt m ≡ some (length front, overwrite_at dst (front ++ (0 ∷ [])) m))
        × (strcpy_l dst src maxlen m
            ≡ some (length t, overwrite_at dst (bounded maxlen (t ++ (0 ∷ []))) m))
        × (strcpy_ln dst src maxlen maxcnt m
            ≡ some (length front, overwrite_at dst (bounded maxlen (front ++ (0 ∷ []))) m))
unfolding strcpy strcpy_n strcpy_l strcpy_ln
strcpy_copies dst src maxlen maxcnt m p q apart apart_front =
    let string : List ℕ = drop src m in
    let there : (dst == 0 || src == 0) ≡ false = ground (arith, p, q) in
    let t : List ℕ = contents string in
    let front : List ℕ = take maxcnt t in
    let whole : t ≡ copied (λ k. false) 0 string = sym (copied_all 0 string) in
    let part : front ≡ copied (λ k. leb maxcnt k) 0 string =
      ap (λ (n : ℕ). take n t) (omega arith) ∙ sym (copied-take maxcnt 0 string) in
    (
      rw there (copy_plain (λ i. false) (λ i x. x) dst src m t whole apart (λ i x e. absurd (cc))),
      rw there (
          copy_plain (λ i. leb maxcnt i) (λ i x. set x (dst + i) 0) dst src m front part apart_front
            (λ i x e. refl)),
      rw there (
          copy_bounded (λ i. false) (λ i x. x) dst src maxlen m t whole apart
            (λ i x e. absurd (cc))),
      rw there (
          copy_bounded (λ i. leb maxcnt i) (close_below maxlen dst) dst src maxlen m front part
            apart_front (λ i x e. refl)),
    )
