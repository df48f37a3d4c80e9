-- ===== src/Creds/SameBytes.antt =====
-- The equality of texts as lists of bytes.
use ferry_cli.Base.{◌≡◌, refl, ◌∙◌, ap, subst, true, [], ◌∷◌, arith, eqb_iff}
use ferry_cli.Api.Target.{Bytes}
use ferry_cli.Creds.{same_bytes}

pub same_bytes_is : (xs ys : Bytes) → same_bytes xs ys ≡ true → xs ≡ ys
unfolding same_bytes
same_bytes_is [] [] e = refl
same_bytes_is [] (y ∷ ys) e = absurd (ground arith)
same_bytes_is (x ∷ xs) [] e = absurd (ground arith)
same_bytes_is (x ∷ xs) (y ∷ ys) e =
    let head : x ≡ y = ground (arith, eqb_iff x y) in
    let tail = same_bytes_is xs ys (ground arith) in ap (λ z. z ∷ xs) head ∙ ap (λ zs. y ∷ zs) tail

pub same_bytes_refl : (xs : Bytes) → same_bytes xs xs ≡ true
unfolding same_bytes
same_bytes_refl [] = refl
same_bytes_refl (x ∷ xs) = ground (arith, same_bytes_refl xs)

pub same_bytes-sym : (xs ys : Bytes) → same_bytes xs ys ≡ true → same_bytes ys xs ≡ true
same_bytes-sym xs ys e =
    subst (λ z. same_bytes z xs ≡ true) (same_bytes_is xs ys e) (same_bytes_refl xs)
