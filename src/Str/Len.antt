-- ===== src/Str/Len.antt =====
-- str/strlen.hpp: the length of a string.
use apilib.Base.{ℕ, zero, suc, ◌-◌, ◌≡◌, refl, arith, List, [], ◌∷◌}
use apilib.Base.{◌==◌, if◌then◌else◌, length, min}

unfoldable pub strlen : List ℕ → ℕ
strlen [] = 0
strlen (c ∷ string) = let rest = strlen string in if c == 0 then 0 else suc rest

-- The loop of `__strlen_nx`, with `n` characters left before `zindex`.
unfoldable pub strlen_up : ℕ → List ℕ → ℕ
strlen_up zero string = 0
strlen_up (suc n) [] = 0
strlen_up (suc n) (c ∷ string) = let rest = strlen_up n string in if c == 0 then 0 else suc rest

unfoldable pub strlen_n : List ℕ → ℕ → ℕ
strlen_n string maxlen = if maxlen == 0 then 0 else strlen_up (maxlen - 1) string

-- The characters of a string before its zero.
unfoldable pub contents : List ℕ → List ℕ
contents [] = []
contents (c ∷ string) = let rest = contents string in if c == 0 then [] else c ∷ rest

pub strlen-contents : (string : List ℕ) → strlen string ≡ length (contents string)
unfolding strlen contents
strlen-contents [] = refl
strlen-contents (c ∷ string) = ground (arith, strlen-contents string)

pub strlen_up-strlen : (n : ℕ) (string : List ℕ) → strlen_up n string ≡ min n (strlen string)
unfolding strlen_up strlen
strlen_up-strlen zero string = omega arith
strlen_up-strlen (suc n) [] = omega arith
strlen_up-strlen (suc n) (c ∷ string) = ground (arith, strlen_up-strlen n string)

-- `__strlen_nx` is the length of the string, cut to one below `maxlen`.
pub strlen_n-strlen :
    (string : List ℕ) (maxlen : ℕ) → strlen_n string maxlen ≡ min (maxlen - 1) (strlen string)
unfolding strlen_n
strlen_n-strlen string maxlen = ground (arith, strlen_up-strlen (maxlen - 1) string)
