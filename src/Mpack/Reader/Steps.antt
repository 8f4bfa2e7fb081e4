-- ===== src/Mpack/Reader/Steps.antt =====
-- One step of the reader over a stream that holds enough bytes.
use apilib.Base.{ℕ, ◌≤◌, ◌<◌, ◌≡◌, refl, ap, ◌∙◌, some, List, ◌∷◌, [], ◌++◌}
use apilib.Base.{take, drop, overwrite, length, length-append, length-overwrite, arith}
use apilib.Base.Memory.{Host}
use apilib.Mpack.Code.{ok, ObjectType}
use apilib.Mpack.Reader.{
  Context, ReadFn, receive_format, process_format, receive_number, process_number,
}
use apilib.Mpack.Reader.{xchange_object}
use apilib.Mpack.Reader.Format.{process_format_some, process_format_step, await_number}
use apilib.Mpack.Reader.Number.{process_number_some, process_number_step}
use apilib.Mpack.Reader.Receive.{receive_object, stage, receive_format_step, receive_number_step}
use apilib.Mpack.Reader.Source.{IsSource}

take-front {ℓ} : {A : Type ℓ} (xs ys : List A) → take (length xs) (xs ++ ys) ≡ xs
take-front [] ys = refl
take-front (x ∷ xs) ys = ap (λ t. x ∷ t) (take-front xs ys)

drop-front {ℓ} : {A : Type ℓ} (xs ys : List A) → drop (length xs) (xs ++ ys) ≡ ys
drop-front [] ys = refl
drop-front (x ∷ xs) ys = drop-front xs ys

-- Bytes that are written over the front of an array, which is long enough, precede its rest.
pub overwrite-eq-append :
    (bs d : List ℕ) → length bs ≤ length d → overwrite bs d ≡ bs ++ drop (length bs) d
overwrite-eq-append [] d h = refl
overwrite-eq-append (b ∷ bs) [] h = absurd (omega arith)
overwrite-eq-append (b ∷ bs) (x ∷ d) h = ap (λ t. b ∷ t) (overwrite-eq-append bs d (omega arith))

module _ {R : Type 0} where
  -- The context that knows the first byte.
  abbrev pub told : ℕ → Context R → Context R
  told f m = record m { format = f; status = process_format }

  -- The context that is about to process its digits.
  abbrev pub full : ℕ → ObjectType → List ℕ → Context R → Context R
  full f type digits m =
      let o = m.object in
      record m {
        format = f;
        object = record o { type = type };
        number_need = length digits;
        number_read = length digits;
        number_data = digits ++ drop (length digits) m.number_data;
        status = process_number;
      }

pub length-refilled :
    (bs d : List ℕ) → length bs ≤ length d → length (bs ++ drop (length bs) d) ≡ length d
length-refilled bs d h = rw (← overwrite-eq-append bs d h) (length-overwrite bs d)

module _ {R : Type 0} {fn : ReadFn R} {content : R → List ℕ} (src : IsSource fn content) where
  -- A request for bytes that the stream begins with.
  pub served :
      (r : R) (bs rest : List ℕ)
      → content r ≡ bs ++ rest
      → (fn r (length bs) ≡ (length bs, bs, (fn r (length bs)).2))
        × (content (fn r (length bs)).2 ≡ rest)
  served r bs rest e =
      let n : ℕ = length bs in
      let long : n ≤ length (content r) = rw e (omega (arith, length-append bs rest)) in
      let all : (fn r n).0 ≡ n = src.full r n long in
      let bytes : (fn r n).1 ≡ bs = src.stored r n ∙ rw (all, e) (take-front bs rest) in
      ((λ i. (all i, bytes i, (fn r n).2)), src.left r n ∙ rw (all, e) (drop-front bs rest))

  pub receive_format_served :
      (m : Context R) (r : R) (f : ℕ) (rest : List ℕ)
      → m.fn_read ≡ some fn
      → content r ≡ f ∷ rest
      → receive_format_step (some m) r
        ≡ (ok, some (record m { format = f; status = process_format }), (fn r 1).2)
  unfolding receive_format_step
  receive_format_served m r f rest e h = ground (arith, (served r (f ∷ []) rest h).0)

  -- The digits arrive in one go: they stand at the front of `number_data`.
  pub receive_number_served :
      (m : Context R) (r : R) (digits rest : List ℕ)
      → m.fn_read ≡ some fn
      → m.number_need ≡ length digits
      → m.number_read ≡ 0
      → 0 < length digits
      → length digits ≤ 10
      → content r ≡ digits ++ rest
      → receive_number_step (some m) r ≡ (
        ok,
        some (record m {
          number_data = overwrite digits m.number_data;
          number_read = length digits;
          status = process_number;
        }),
        (fn r (length digits)).2,
      )
  unfolding receive_number_step
  receive_number_served m r digits rest e need zero_read some_digits small h =
      ground (arith, (served r digits rest h).0)

  module _ (host : Host) (m : Context R) (r : R) (f : ℕ) (start : m.status ≡ receive_format)
      (fn_is : m.fn_read ≡ some fn) where
    -- An object that its first byte says all of.
    pub receive_short :
        (rest : List ℕ) (m' : Context R)
        → content r ≡ f ∷ rest
        → process_format_some host (told f m) ≡ (ok, some m')
        → m'.status ≡ xchange_object
        → (r' : R) × (receive_object host (some m) r ≡ (ok, some m', r')) × (content r' ≡ rest)
    unfolding receive_object stage process_format_step
    receive_short rest m' h pf done = (
      (fn r 1).2,
      ground (arith, receive_format_served m r f rest fn_is h),
      (served r (f ∷ []) rest h).1,
    )

    -- An object whose first byte says how many bytes follow.
    pub receive_long :
        (type : ObjectType) (digits rest : List ℕ) (m' : Context R)
        → length m.number_data ≡ 10
        → 0 < length digits
        → length digits ≤ 10
        → content r ≡ f ∷ digits ++ rest
        → process_format_some host (told f m) ≡ await_number type (length digits) (told f m)
        → process_number_some host (full f type digits m) ≡ (ok, some m')
        → (r' : R) × (receive_object host (some m) r ≡ (ok, some m', r')) × (content r' ≡ rest)
    unfolding receive_object stage process_format_step process_number_step
    receive_long type digits rest m' size some_digits small h pf pn =
        let r1 : R = (fn r 1).2 in
        let h1 : content r1 ≡ digits ++ rest = (served r (f ∷ []) (digits ++ rest) h).1 in
        (
          (fn r1 (length digits)).2,
          ground (
            arith,
            receive_format_served m r f (digits ++ rest) fn_is h,
            receive_number_served (waiting type (length digits)) r1 digits rest fn_is refl refl
                some_digits small h1,
            overwrite-eq-append digits m.number_data (omega arith),
          ),
          (served r1 digits rest h1).1,
        )
      where
        waiting : ObjectType → ℕ → Context R
        waiting type need =
            let o = m.object in
            record m {
              format = f;
              object = record o { type = type };
              number_need = need;
              number_read = 0;
              status = receive_number;
            }
