-- ===== src/Ulid/Sequence.antt =====
-- The identifiers of one generator, call after call.
use ferry_cli.Base.{
  ℕ, ◌^◌, ◌<◌, ◌≡◌, refl, ap, sym, subst, false, Option, none, some, List, [], ◌∷◌, arith,
}
use ferry_cli.Api.Target.{Bytes}
use ferry_cli.Ulid.{Generator, Draw, filled, broken, new_id, fresh, with_id, new_ids}
use ferry_cli.Ulid.Order.{IsRunning, IsRead, value, last_id, new_id-IsNext}

-- The numbers of the identifiers increase strictly.
abbrev pub AreIncreasing : List Bytes → Type 0
AreIncreasing [] = Unit
AreIncreasing (id ∷ []) = Unit
AreIncreasing (id ∷ next ∷ ids) = (value id < value next) × AreIncreasing (next ∷ ids)

-- The instants are below 2^48 milliseconds, and entropy that is read is ten bytes.
abbrev pub AreCalls : List (ℕ × Draw) → Type 0
AreCalls [] = Unit
AreCalls ((ms, d) ∷ ds) = ((ms < 2 ^ 48) × IsRead d) × AreCalls ds

-- The first identifier of the list is above the number, and they increase from there.
abbrev IsAbove : ℕ → List Bytes → Type 0
IsAbove n [] = Unit
IsAbove n (id ∷ ids) = (n < value id) × AreIncreasing (id ∷ ids)

IsAbove-cons :
    (n : ℕ) (id : Bytes) (ids : List Bytes)
    → n < value id
    → IsAbove (value id) ids
    → IsAbove n (id ∷ ids)
IsAbove-cons n id [] h a = (h, tt)
IsAbove-cons n id (next ∷ ids) h a = (h, a)

increasing_cons :
    (id : Bytes) (ids : List Bytes) → IsAbove (value id) ids → AreIncreasing (id ∷ ids)
increasing_cons id [] a = tt
increasing_cons id (next ∷ ids) a = a

with_id_is :
    (o : Option Bytes) (r : Option (List Bytes)) (out : List Bytes)
    → with_id o r ≡ some out
    → (id : Bytes) × (ids : List Bytes) × (o ≡ some id) × (r ≡ some ids) × (id ∷ ids ≡ out)
with_id_is none r out e = absurd (ground arith)
with_id_is (some id) none out e = absurd (ground arith)
with_id_is (some id) (some ids) out e = (id, ids, refl, refl, ground arith)

new_ids_cons :
    (g : Generator) (ms : ℕ) (d : Draw) (ds : List (ℕ × Draw)) (out : List Bytes)
    → new_ids g ((ms, d) ∷ ds) ≡ some out
    → (id : Bytes) × (ids : List Bytes) × (new_id g ms d ≡ ((new_id g ms d).0, some id))
      × (new_ids (new_id g ms d).0 ds ≡ some ids)
      × (id ∷ ids ≡ out)
unfolding new_ids
new_ids_cons g ms d ds out e =
    let (id, ids, o, r, is) = with_id_is (new_id g ms d).1 (new_ids (new_id g ms d).0 ds) out e in
    (id, ids, ap (λ x. ((new_id g ms d).0, x)) o, r, is)

no_ids : (g : Generator) (out : List Bytes) → new_ids g [] ≡ some out → [] ≡ out
unfolding new_ids
no_ids g out e = ground arith

new_ids-IsAbove :
    (g : Generator) (ds : List (ℕ × Draw)) (out : List Bytes)
    → IsRunning g
    → AreCalls ds
    → new_ids g ds ≡ some out
    → IsAbove (value (last_id g)) out
new_ids-IsAbove g [] out r calls e = subst (IsAbove _) (no_ids g out e) tt
new_ids-IsAbove g ((ms, d) ∷ ds) out r ((small, read), calls) e =
    let (id, ids, made, rest, is) = new_ids_cons g ms d ds out e in
    let n = new_id-IsNext g (new_id g ms d).0 ms d id r small read made in
    subst (IsAbove _) is (
      IsAbove-cons _ id ids n.greater (
        subst (λ x. IsAbove (value x) ids) (sym n.is_last)
          (new_ids-IsAbove (new_id g ms d).0 ds ids n.runs calls rest)))

-- The first call of a fresh generator, when it does not refuse.
fresh_call :
    (g : Generator) (ms : ℕ) (d : Draw) (id : Bytes)
    → g.seeded ≡ false
    → ms < 2 ^ 48
    → IsRead d
    → new_id g ms d ≡ ((new_id g ms d).0, some id)
    → IsRunning (new_id g ms d).0 × (id ≡ last_id (new_id g ms d).0)
unfolding new_id
fresh_call g ms (broken bs) id s small read e = absurd (ground arith)
fresh_call g ms (filled bs) id s small read e =
    rw s (record { is_seeded = refl; in_range = small; is_entropy = read }, ground arith)

-- The identifiers of one generator increase strictly, from its first call on and whatever the clock
-- does, as long as no call of `New` refuses. The instants are below 2^48 milliseconds, and the entropy
-- that is read is ten bytes.
pub new_ids-AreIncreasing :
    (bs : Bytes) (ds : List (ℕ × Draw)) (out : List Bytes)
    → AreCalls ds
    → new_ids (fresh bs) ds ≡ some out
    → AreIncreasing out
new_ids-AreIncreasing bs [] out calls e = subst AreIncreasing (no_ids (fresh bs) out e) tt
new_ids-AreIncreasing bs ((ms, d) ∷ ds) out ((small, read), calls) e =
    let (id, ids, made, rest, is) = new_ids_cons (fresh bs) ms d ds out e in
    let (runs, same) = fresh_call (fresh bs) ms d id refl small read made in
    subst AreIncreasing is (
      increasing_cons id ids (
        subst (λ x. IsAbove (value x) ids) (sym same)
          (new_ids-IsAbove (new_id (fresh bs) ms d).0 ds ids runs calls rest)))
