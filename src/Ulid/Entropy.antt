-- ===== src/Ulid/Entropy.antt =====
-- The step of the entropy as a number, and the order of identifiers by their time.
use ferry_cli.Base.{
  ℕ, suc, ◌+◌, ◌*◌, ◌%◌, ◌<◌, ◌≡◌, refl, ◌∙◌, ap, Bool, true, false, [], ◌∷◌, length, arith, eqb,
  eqb_iff, Bool-cases, inl, inr,
}
use ferry_cli.Api.Target.{Bytes}
use ferry_cli.Ulid.{increment, increment_byte}
use ferry_cli.Ulid.Digits.{number, AreBelow}

-- What the step of the entropy adds: one, to the bytes and the number before them if it runs off them.
abbrev pub carried : ℕ → Bool → ℕ
carried n true = n + 1
carried n false = n

byte_carried :
    (x n : ℕ) → x < 256 → carried n (eqb ((x + 1) % 256) 0) * 256 + (x + 1) % 256 ≡ n * 256 + x + 1
byte_carried x n h = elim (Bool-cases (eqb ((x + 1) % 256) 0)) [
  | inl e ↦ rw e (omega (arith, (eqb_iff ((x + 1) % 256) 0).0 e))
  | inr e ↦ rw e (ground arith)
]

increment_byte-number :
    (x n k : ℕ) (r : Bytes × Bool)
    → x < 256
    → number 256 (carried (n * 256 + x) r.1) r.0 ≡ k
    → number 256 (carried n (increment_byte x r).1) (increment_byte x r).0 ≡ k
increment_byte-number x n k (xs, true) h e = ap (λ m. number 256 m xs) (byte_carried x n h) ∙ e
increment_byte-number x n k (xs, false) h e = e

pub increment-number :
    (xs : Bytes) (n : ℕ)
    → AreBelow 256 xs
    → number 256 (carried n (increment xs).1) (increment xs).0 ≡ number 256 n xs + 1
unfolding increment
increment-number [] n h = refl
increment-number (x ∷ xs) n (hx, h) =
    increment_byte-number x n _ (increment xs) hx (increment-number xs (n * 256 + x) h)

increment_byte-IsBytes :
    (x : ℕ) (r : Bytes × Bool) (k : ℕ)
    → x < 256
    → (length r.0 ≡ k)
    → AreBelow 256 r.0
    → (length (increment_byte x r).0 ≡ suc k) × AreBelow 256 (increment_byte x r).0
increment_byte-IsBytes x (xs, true) k h l a = (ap suc l, (omega arith, a))
increment_byte-IsBytes x (xs, false) k h l a = (ap suc l, (h, a))

pub increment-IsBytes :
    (xs : Bytes)
    → AreBelow 256 xs
    → (length (increment xs).0 ≡ length xs) × AreBelow 256 (increment xs).0
unfolding increment
increment-IsBytes [] h = (refl, tt)
increment-IsBytes (x ∷ xs) (hx, h) =
    let (l, a) = increment-IsBytes xs h in
    increment_byte-IsBytes x (increment xs) (length xs) hx l a

-- A later time, whatever the entropy.
pub later :
    (xs ys : Bytes) (m n : ℕ)
    → length xs ≡ length ys
    → AreBelow 256 xs
    → m < n
    → number 256 m xs < number 256 n ys
later [] [] m n l a p = p
later [] (y ∷ ys) m n l a p = absurd (omega arith)
later (x ∷ xs) [] m n l a p = absurd (omega arith)
later (x ∷ xs) (y ∷ ys) m n l (hx, a) p =
    later xs ys (m * 256 + x) (n * 256 + y) (omega arith) a (omega arith)
