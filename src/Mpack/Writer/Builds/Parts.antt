-- ===== src/Mpack/Writer/Builds/Parts.antt =====
-- What the steps that the `mpack_build_*` procedures share keep of a context.
use apilib.Base.{length-set}
use apilib.Base.{ℕ, ◌^◌, ◌≤◌, ◌<◌, ◌≡◌, refl, ◌∙◌, true, Option, none, some, List, ◌∷◌, [], ◌++◌}
use apilib.Base.{get_or, set, length, length-append, length-overwrite, arith}
use apilib.Base.Memory.{Host, memory, length-memory}
use apilib.Mpack.Code.{Code}
use apilib.Mpack.Swap.{Swap, exchange, swap16, swap32, swap64}
use apilib.Mpack.Writer.{Context}
use apilib.Mpack.Writer.Guard.{guarded, put, put_binary, put_number, swapped}
use apilib.Mpack.Writer.Invariant.{IsValid, Valid}

-- The exchange keeps the number of bytes.
abbrev pub IsExchange : Swap → Type 0
IsExchange swap =
    (p : List ℕ) → (p' : List ℕ) × (swap (some p) ≡ (true, some p')) × (length p' ≡ length p)

pub length-exchange : (i j : ℕ) (p : List ℕ) → length (exchange i j p) ≡ length p
length-exchange i j p =
    length-set (set p i (get_or p j 0)) j (get_or p i 0) ∙ length-set p i (get_or p j 0)

pub swap16-IsExchange : IsExchange swap16
swap16-IsExchange p = (_, refl, length-exchange 0 1 p)

pub swap32-IsExchange : IsExchange swap32
swap32-IsExchange p = (_, refl, length-exchange 1 2 _ ∙ length-exchange 0 3 p)

pub swap64-IsExchange : IsExchange swap64
swap64-IsExchange p = (
  _,
  refl,
  length-exchange 3 4 _ ∙ length-exchange 2 5 _ ∙ length-exchange 1 6 _ ∙ length-exchange 0 7 p,
)

module _ {W : Type 0} where
  -- The body of a build leaves a valid context.
  pub record Keeps (r : Code × Context W) : Type 0 where
    pub kept : IsValid r.1

  pub fail : {c : Code} {m : Context W} → IsValid m → Keeps (c, m)
  fail v = record { kept = v }

  pub put-Keeps :
      (m : Context W) (bytes : List ℕ) → IsValid m → length bytes ≤ 10 → Keeps (put bytes m)
  put-Keeps m bytes v h = ground (arith, length-overwrite bytes m.buffer_data)

  pub put_binary-Keeps :
      (m : Context W) (bytes : List ℕ) (size : ℕ)
      → IsValid m
      → length bytes ≤ 10
      → size < 2 ^ 32
      → Keeps (put_binary bytes size m)
  put_binary-Keeps m bytes size v h k = ground (arith, length-overwrite bytes m.buffer_data)

  pub swapped-Keeps :
      (swap : Swap) (temp : List ℕ) (m : Context W) (next : List ℕ → Context W → Code × Context W)
      → IsExchange swap
      → IsValid m
      → ((bytes : List ℕ) → length bytes ≡ length temp → Keeps (next bytes m))
      → Keeps (swapped swap temp m next)
  swapped-Keeps swap temp m next ex v h =
      let (temp', e, l) = ex temp in ground (arith, h temp refl, h temp' l)

  pub guarded-Valid :
      (p : Option (Context W)) (body : Context W → Code × Context W)
      → Valid p
      → ((m : Context W) → IsValid m → Keeps (body m))
      → Valid (guarded p body).1
  guarded-Valid none body v h = tt
  guarded-Valid (some m) body v h = ground (arith, h m v)

  pub number-Keeps :
      (swap : Swap) (format k x : ℕ) (host : Host) (m : Context W)
      → IsExchange swap
      → k < 10
      → IsValid m
      → Keeps (put_number swap format (memory host k x) m)
  number-Keeps swap format k x host m ex h v =
      swapped-Keeps swap (memory host k x) m (λ digits. put (format ∷ digits)) ex v
        (λ bytes l. put-Keeps m (format ∷ bytes) v (omega (arith, length-memory host k x)))

  pub sized-Keeps :
      (swap : Swap) (format k size : ℕ) (host : Host) (m : Context W)
      → IsExchange swap
      → k < 10
      → IsValid m
      → size < 2 ^ 32
      → Keeps (swapped swap (memory host k size) m (λ digits. put_binary (format ∷ digits) size))
  sized-Keeps swap format k size host m ex h v fits =
      swapped-Keeps swap (memory host k size) m (λ digits. put_binary (format ∷ digits) size) ex v
        (λ bytes l.
          put_binary-Keeps m (format ∷ bytes) size v (omega (arith, length-memory host k size))
            fits)

  pub ext-Keeps :
      (swap : Swap) (format k size type : ℕ) (host : Host) (m : Context W)
      → IsExchange swap
      → k < 9
      → IsValid m
      → size < 2 ^ 32
      → Keeps (
          swapped swap
            (memory host k size)
            m
            (λ digits. put_binary (format ∷ digits ++ type ∷ []) size))
  ext-Keeps swap format k size type host m ex h v fits =
      swapped-Keeps swap (memory host k size) m
        (λ digits. put_binary (format ∷ digits ++ type ∷ []) size) ex v
        (λ bytes l.
          put_binary-Keeps m (format ∷ bytes ++ type ∷ []) size v
            (omega (arith, length-memory host k size, length-append bytes (type ∷ []))) fits)
