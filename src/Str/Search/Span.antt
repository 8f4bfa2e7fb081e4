-- ===== src/Str/Search/Span.antt =====
-- str/strspn.hpp: what the spans of a string are.
use apilib.Base.{ℕ, zero, suc, ◌+◌, ◌-◌, ◌≤◌, ◌<◌, ◌≡◌, ◌⊎◌, inl, inr, refl, sym, ◌∙◌, ap, arith}
use apilib.Base.{List, [], ◌∷◌, Bool, true, false, not, ◌==◌, ◌||◌, Bool-cases}
use apilib.Base.{length, drop, get_or}
use native.Mathlib.Decide.{ℕ_discrete}
use apilib.Str.{char_at}
use apilib.Str.Len.{contents, strlen, strlen-contents}
use apilib.Str.Trim.Move.{char_at-drop, contents_nonzero}
use apilib.Str.Search.{
  strchr, char_up, outside, inside, span_up, span_down, strspn, strcspn, strrspn, strrcspn,
}

-- The character `c` is among those of `u`.
unfoldable pub has : ℕ → List ℕ → Bool
has c [] = false
has c (d ∷ u) = let rest = has c u in d == c || rest

char_up-has :
    (c p : ℕ) (s : List ℕ) → 0 < c → 0 < p → (char_up c p s == 0) ≡ not (has c (contents s))
unfolding char_up has contents
char_up-has c p [] pos there = ground (arith, pos)
char_up-has c p (d ∷ s) pos there =
    ground (arith, pos, there, char_up-has c (suc p) s pos (omega arith))

outside-has :
    (accept c : ℕ) (m : List ℕ)
    → 0 < accept
    → 0 < c
    → outside accept m c ≡ not (has c (contents (drop accept m)))
unfolding outside strchr
outside-has accept c m there pos =
    ground (arith, there, char_up-has c accept (drop accept m) pos there)

inside-has :
    (reject c : ℕ) (m : List ℕ)
    → 0 < reject
    → 0 < c
    → inside reject m c ≡ not (not (has c (contents (drop reject m))))
unfolding inside strchr
inside-has reject c m there pos =
    ground (arith, there, char_up-has c reject (drop reject m) pos there)

-- `n` characters at the beginning of a list are kept, and the next one, if any, is not.
abbrev pub Leads : (ℕ → Bool) → List ℕ → ℕ → Type 0
Leads keep u n =
    (n ≤ length u)
    × ((k : ℕ) → k < n → keep (get_or u k 0) ≡ true)
    × ((n ≡ length u) ⊎ (keep (get_or u n 0) ≡ false))

-- Of the first `o` characters, the last `n` are kept, and the one before, if any, is not.
abbrev pub Trails : (ℕ → Bool) → List ℕ → ℕ → ℕ → Type 0
Trails keep u o n =
    (n ≤ o)
    × ((k : ℕ) → o ≤ k + n → k < o → keep (get_or u k 0) ≡ true)
    × ((n ≡ o) ⊎ (keep (get_or u (o - suc n) 0) ≡ false))

-- A test that stops a loop at the characters that are not kept.
abbrev Stops : (ℕ → Bool) → (ℕ → Bool) → Type 0
Stops stop keep = (c : ℕ) → 0 < c → stop c ≡ not (keep c)

kept_first :
    (keep : ℕ → Bool) (c n : ℕ) (u : List ℕ)
    → keep c ≡ true
    → ((k : ℕ) → k < n → keep (get_or u k 0) ≡ true)
    → (k : ℕ) → k < suc n
    → keep (get_or (c ∷ u) k 0) ≡ true
kept_first keep c n u kept all zero h = kept
kept_first keep c n u kept all (suc k) h = all k (omega arith)

Leads-cons :
    (keep : ℕ → Bool) (c n : ℕ) (u : List ℕ)
    → keep c ≡ true
    → Leads keep u n
    → Leads keep (c ∷ u) (suc n)
Leads-cons keep c n u kept (short, all, ends) = (
  omega (arith, short),
  kept_first keep c n u kept all,
  elim ends [ inl e ↦ inl (omega arith) | inr f ↦ inr f ],
)

span_up-Leads :
    (stop keep : ℕ → Bool) (s : List ℕ) → Stops stop keep → Leads keep (contents s) (span_up stop s)
unfolding span_up contents
span_up-Leads stop keep [] stops = (omega arith, λ k h. absurd (omega arith), inl refl)
span_up-Leads stop keep (c ∷ s) stops =
    let rest = span_up-Leads stop keep s stops in
    elim (Bool-cases (c == 0)) [
      | inl z ↦ rw z (omega arith, λ k h. absurd (omega arith), inl refl)
      | inr nz ↦
          let e : stop c ≡ not (keep c) = stops c (ground (arith, nz)) in
          elim (Bool-cases (keep c)) [
            | inl kept ↦
                let go : stop c ≡ false = ground (arith, e, kept) in
                rw (nz, go) (Leads-cons keep c (span_up stop s) (contents s) kept rest)
            | inr left ↦
                let halt : stop c ≡ true = ground (arith, e, left) in
                rw (nz, halt) (omega arith, λ k h. absurd (omega arith), inr left)
          ]
    ]

Trails-snoc :
    (keep : ℕ → Bool) (u : List ℕ) (o n : ℕ)
    → keep (get_or u o 0) ≡ true
    → Trails keep u o n
    → Trails keep u (suc o) (suc n)
Trails-snoc keep u o n kept (short, all, ends) = (
  omega (arith, short),
  λ k low high. elim (ℕ_discrete k o) [
    | yes e ↦ rw e kept
    | no ne ↦ all k (omega arith) (omega arith)
  ],
  elim ends [
    | inl e ↦ inl (omega arith)
    | inr f ↦ let same : suc o - suc (suc n) ≡ o - suc n = omega arith in inr (rw same f)
  ],
)

-- The characters of `u` stand in the memory from `string` on and are not zero.
abbrev StandsAt : List ℕ → List ℕ → ℕ → ℕ → Type 0
StandsAt u m string o =
    (k : ℕ) → k < o → (char_at m (string + k) ≡ get_or u k 0) × (0 < get_or u k 0)

span_down-Trails :
    (stop keep : ℕ → Bool) (u m : List ℕ) (string o : ℕ)
    → Stops stop keep
    → StandsAt u m string o
    → Trails keep u o (span_down stop string o m)
unfolding span_down
span_down-Trails stop keep u m string zero stops stands =
    (omega arith, λ k low high. absurd (omega arith), inl refl)
span_down-Trails stop keep u m string (suc o) stops stands =
    let rest = span_down-Trails stop keep u m string o stops (λ k h. stands k (omega arith)) in
    let (here, pos) = stands o (omega arith) in
    let e : stop (char_at m (string + o)) ≡ not (keep (get_or u o 0)) =
      rw here (stops (get_or u o 0) pos) in
    elim (Bool-cases (keep (get_or u o 0))) [
      | inl kept ↦
          let go : stop (char_at m (string + o)) ≡ false = e ∙ ap not kept in
          rw go (Trails-snoc keep u o (span_down stop string o m) kept rest)
      | inr left ↦
          let halt : stop (char_at m (string + o)) ≡ true = e ∙ ap not left in
          let last : suc o - 1 ≡ o = omega arith in
          rw halt (omega arith, λ k low high. absurd (omega arith), inr (rw last left))
    ]

contents-StandsAt :
    (m : List ℕ) (string : ℕ)
    → StandsAt (contents (drop string m)) m string (length (contents (drop string m)))
contents-StandsAt m string k h =
    let (same, nonzero) = contents_nonzero (drop string m) k h in
    let e : char_at m (string + k) ≡ get_or (contents (drop string m)) k 0 =
      sym (char_at-drop string k m) ∙ sym same in
    (
      e,
      elim (ℕ_discrete (get_or (contents (drop string m)) k 0) 0) [
        | yes z ↦ absurd (nonzero (sym same ∙ z))
        | no ne ↦ ground (arith, ne)
      ],
    )

-- The characters of the second string are those that the spans accept or reject; the spans are the
-- longest ones at the beginning and at the end of the first string.
pub strspn_spans :
    (m : List ℕ) (string set : ℕ)
    → 0 < string
    → 0 < set
    → Leads (λ c. has c (contents (drop set m))) (contents (drop string m)) (strspn string set m)
      × Leads
          (λ c. not (has c (contents (drop set m))))
          (contents (drop string m))
          (strcspn string set m)
      × Trails
          (λ c. has c (contents (drop set m)))
          (contents (drop string m))
          (length (contents (drop string m)))
          (strrspn string set m)
      × Trails
          (λ c. not (has c (contents (drop set m))))
          (contents (drop string m))
          (length (contents (drop string m)))
          (strrcspn string set m)
unfolding strspn strcspn strrspn strrcspn
strspn_spans m string set there1 there2 =
    let keep : ℕ → Bool = λ c. has c (contents (drop set m)) in
    let drops : ℕ → Bool = λ c. not (has c (contents (drop set m))) in
    let null1 : (string == 0) ≡ false = ground (arith, there1) in
    let null2 : (set == 0) ≡ false = ground (arith, there2) in
    let n : strlen (drop string m) ≡ length (contents (drop string m)) =
      strlen-contents (drop string m) in
    let out : Stops (outside set m) keep = λ c pos. outside-has set c m there2 pos in
    let ins : Stops (inside set m) drops = λ c pos. inside-has set c m there2 pos in
    let u = contents (drop string m) in
    let stands = contents-StandsAt m string in
    rw (null1, null2, n)
      (
        span_up-Leads (outside set m) keep (drop string m) out,
        span_up-Leads (inside set m) drops (drop string m) ins,
        span_down-Trails (outside set m) keep u m string (length u) out stands,
        span_down-Trails (inside set m) drops u m string (length u) ins stands,
      )
