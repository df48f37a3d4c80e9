-- ===== src/Base/Lists.antt =====
-- Lists measured by native numbers, Boolean tests over lists, and association lists with text keys.
use Prim.Native.Nat.{ℕ, zero, suc, ◌+◌}
use Prim.Native.String.{String}
use mathlib.Core.Path.{◌≡◌}
use mathlib.Core.Bool.{Bool, true, false, ◌&&◌, ◌||◌}
use mathlib.Core.Option.{Option, none, some}
use mathlib.Core.List.{List, [], ◌∷◌, ◌++◌}
use native.Mathlib.Omega.{arith}
use text.Mathlib.Text.{◌==◌}
use text.Mathlib.TextEquality.{eq_iff}
use ferry_cli.Base.Tests.{if◌then◌else◌}

module _ {ℓ} {A : Type ℓ} where
  abbrev pub length : List A → ℕ
  length [] = 0
  length (x ∷ xs) = suc (length xs)

  pub length-append : (xs ys : List A) → length (xs ++ ys) ≡ length xs + length ys
  length-append [] ys = omega arith
  length-append (x ∷ xs) ys = omega (arith, length-append xs ys)

  abbrev pub drop : ℕ → List A → List A
  drop zero xs = xs
  drop (suc n) [] = []
  drop (suc n) (x ∷ xs) = drop n xs

  -- Every element passes the test.
  unfoldable pub all : (A → Bool) → List A → Bool
  all p [] = true
  all p (x ∷ xs) = p x && all p xs

-- A predicate of every element, by recursion.
abbrev pub All {ℓ κ} : {A : Type ℓ} → (A → Type κ) → List A → Type κ
All P [] = Unit
All P (x ∷ xs) = P x × All P xs

-- `slices.Contains` for texts.
unfoldable pub contains : String → List String → Bool
contains s [] = false
contains s (t ∷ ts) = s == t || contains s ts

-- A test that every text of a list passes is passed by a text that the list contains.
pub contains-all :
    (p : String → Bool) (s : String) (ts : List String)
    → all p ts ≡ true
    → contains s ts ≡ true
    → p s ≡ true
unfolding all contains
contains-all p s [] h c = ground arith
contains-all p s (t ∷ ts) h c = ground (arith, eq_iff s t, contains-all p s ts)

-- `m[k]` of a map with text keys: the first entry under the key.
module _ {ℓ} {V : Type ℓ} where
  unfoldable pub lookup : String → List (String × V) → Option V
  lookup k [] = none
  lookup k ((j, v) ∷ m) = if j == k then some v else lookup k m

  -- A test that every entry passes is passed by what is found, with its key.
  pub lookup-all :
      (p : String × V → Bool) (k : String) (m : List (String × V)) {v : V}
      → all p m ≡ true
      → lookup k m ≡ some v
      → p (k, v) ≡ true
  unfolding lookup all
  lookup-all p k [] h e = ground arith
  lookup-all p k ((j, w) ∷ m) {v} h e = ground (arith, eq_iff j k, lookup-all p k m {v = v})
