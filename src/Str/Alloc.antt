-- ===== src/Str/Alloc.antt =====
-- str/strmem.hpp: strings in allocated memory. The allocator is the client's: `alloc` takes a
-- number of bytes and returns an address, or 0, and the memory it leaves, and `free` returns the
-- memory it leaves. `size_of` is `sizeof(X)`.
pub mod Dup
use apilib.Base.{ℕ, zero, suc, ◌+◌, ◌*◌, List, Bool, true, false, ◌||◌, Option, none, some}
use apilib.Base.{◌==◌, if◌then◌else◌, drop, set}
use apilib.Str.Len.{strlen, strlen_n}
use apilib.Str.Copy.{strcpy_n}

-- `__strlen_x` and `__strlen_nx` of an address
unfoldable pub length_at : ℕ → List ℕ → ℕ
length_at string m = if string == 0 then 0 else strlen (drop string m)

unfoldable pub length_at_n : ℕ → ℕ → List ℕ → ℕ
length_at_n string maxlen m = if string == 0 then 0 else strlen_n (drop string m) maxlen

-- `for(size_t i = 0; i <= length; i++)`, with `n` characters left
unfoldable pub zero_up : ℕ → ℕ → List ℕ → List ℕ
zero_up ptr zero m = m
zero_up ptr (suc n) m = zero_up (suc ptr) n (set m ptr 0)

-- A copy of `length` characters, if there are some.
unfoldable pub copy_some : ℕ → ℕ → ℕ → List ℕ → Option (List ℕ)
copy_some dst src length m =
    if length == 0
    then some m
    else elim (strcpy_n dst src length m) [ none ↦ none | some r ↦ some r.1 ]

unfoldable pub strfree : (ℕ → List ℕ → List ℕ) → ℕ → List ℕ → Bool × List ℕ
strfree free string m = if string == 0 then (false, m) else (true, free string m)

module _ (alloc : ℕ → List ℕ → ℕ × List ℕ) (size_of : ℕ) where
  unfoldable pub stralloc : ℕ → List ℕ → ℕ × List ℕ
  stralloc length m =
      let (allocated, m') = alloc ((length + 1) * size_of) m in
      (allocated, if allocated == 0 then m' else zero_up allocated (length + 1) m')

  unfoldable pub strdup_n : ℕ → ℕ → List ℕ → Option (ℕ × List ℕ)
  strdup_n string length m =
      let (allocated, m') = alloc ((length + 1) * size_of) m in
      if string == 0
      then some (0, m)
      else if allocated == 0
      then some (0, m')
      else if length == 0
      then some (allocated, set m' (allocated + length) 0)
      else elim (strcpy_n allocated string length m') [
        | none ↦ none
        | some r ↦ some (allocated, r.1)
      ]

  unfoldable pub strdup : ℕ → List ℕ → Option (ℕ × List ℕ)
  strdup string m = if string == 0 then some (0, m) else strdup_n string (strlen (drop string m)) m

  -- What both functions do: `dst` is `*dst`, which the result has again behind the success.
  unfoldable pub add : ℕ → ℕ → ℕ → ℕ → List ℕ → Option (Bool × Option ℕ × List ℕ)
  add dst src dst_length src_length m =
      let (allocated, m') = alloc ((dst_length + src_length + 1) * size_of) m in
      if allocated == 0
      then some (false, some dst, m')
      else elim (copy_some allocated dst dst_length m') [
        | none ↦ none
        | some front ↦ elim (copy_some (allocated + dst_length) src src_length front) [
          | none ↦ none
          | some whole ↦ some (true, some allocated, whole)
        ]
      ]

  -- `none` for a `dst` that is NULL.
  unfoldable pub stradd : Option ℕ → ℕ → List ℕ → Option (Bool × Option ℕ × List ℕ)
  stradd none src m = some (false, none, m)
  stradd (some dst) src m =
      if src == 0
      then some (false, some dst, m)
      else add dst src (length_at dst m) (length_at src m) m

  unfoldable pub stradd_n : Option ℕ → ℕ → ℕ → List ℕ → Option (Bool × Option ℕ × List ℕ)
  stradd_n none src maxcnt m = some (false, none, m)
  stradd_n (some dst) src maxcnt m =
      if src == 0
      then some (false, some dst, m)
      else add dst src (length_at dst m) (length_at_n src maxcnt m) m
