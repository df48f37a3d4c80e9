-- ===== src/Ulid/Bits.antt =====
-- The bit operations of the encoder as quotients and remainders.
use ferry_cli.Base.{
  ℕ, zero, suc, ◌+◌, ◌*◌, ◌/◌, ◌%◌, ◌≤◌, ◌<◌, ◌≡◌, refl, ◌∙◌, ap, Bool, true, ◌&&◌, eqb, eqb_iff,
  arith,
}
use Prim.Native.Nat.{bit_and, bit_or, max, digits, bit_or-bitwise}
use ferry_cli.Ulid.{shift_left, shift_right}

-- A test that every number below a bound passes.
unfoldable pub passes_below : ℕ → (ℕ → Bool) → Bool
passes_below zero p = true
passes_below (suc n) p = p n && passes_below n p

pub passes : (n : ℕ) (p : ℕ → Bool) (x : ℕ) → passes_below n p ≡ true → x < n → p x ≡ true
unfolding passes_below
passes zero p x h lt = absurd (omega arith)
passes (suc n) p x h lt = ground (arith, passes n p x)

-- Two functions that agree on every byte.
agree : (f g : ℕ → ℕ) (x : ℕ) → passes_below 256 (λ y. eqb (f y) (g y)) ≡ true → x < 256 → f x ≡ g x
agree f g x h lt = (eqb_iff (f x) (g x)).0 (passes 256 (λ y. eqb (f y) (g y)) x h lt)

-- The masks of the encoder.
pub record Masks (x : ℕ) : Type 0 where
  pub top3 : shift_right (bit_and x 224) 5 ≡ x / 32
  pub low5 : bit_and x 31 ≡ x % 32
  pub top5 : shift_right (bit_and x 248) 3 ≡ x / 8
  pub low3 : shift_left (bit_and x 7) 2 ≡ x % 8 * 4
  pub top2 : shift_right (bit_and x 192) 6 ≡ x / 64
  pub mid5 : shift_right (bit_and x 62) 1 ≡ x % 64 / 2
  pub low1 : shift_left (bit_and x 1) 4 ≡ x % 2 * 16
  pub top4 : shift_right (bit_and x 240) 4 ≡ x / 16
  pub low4 : shift_left (bit_and x 15) 1 ≡ x % 16 * 2
  pub top1 : shift_right (bit_and x 128) 7 ≡ x / 128
  pub high5 : shift_right (bit_and x 124) 2 ≡ x % 128 / 4
  pub low2 : shift_left (bit_and x 3) 3 ≡ x % 4 * 8

pub masks : (x : ℕ) → x < 256 → Masks x
unfolding passes_below
masks x h = record {
  top3 = agree (λ y. shift_right (bit_and y 224) 5) (λ y. y / 32) x refl h;
  low5 = agree (λ y. bit_and y 31) (λ y. y % 32) x refl h;
  top5 = agree (λ y. shift_right (bit_and y 248) 3) (λ y. y / 8) x refl h;
  low3 = agree (λ y. shift_left (bit_and y 7) 2) (λ y. y % 8 * 4) x refl h;
  top2 = agree (λ y. shift_right (bit_and y 192) 6) (λ y. y / 64) x refl h;
  mid5 = agree (λ y. shift_right (bit_and y 62) 1) (λ y. y % 64 / 2) x refl h;
  low1 = agree (λ y. shift_left (bit_and y 1) 4) (λ y. y % 2 * 16) x refl h;
  top4 = agree (λ y. shift_right (bit_and y 240) 4) (λ y. y / 16) x refl h;
  low4 = agree (λ y. shift_left (bit_and y 15) 1) (λ y. y % 16 * 2) x refl h;
  top1 = agree (λ y. shift_right (bit_and y 128) 7) (λ y. y / 128) x refl h;
  high5 = agree (λ y. shift_right (bit_and y 124) 2) (λ y. y % 128 / 4) x refl h;
  low2 = agree (λ y. shift_left (bit_and y 3) 3) (λ y. y % 4 * 8) x refl h;
}

-- The law of `bit_or` for the lowest digit, from the definition that the operation stands for.
abbrev or_digits : ℕ → ℕ → ℕ → ℕ
or_digits n a b = digits (λ b. b) max n a b

or_digits_fuel : (n m a b : ℕ) → a ≤ n → a ≤ m → or_digits n a b ≡ or_digits m a b
or_digits_fuel zero zero a b p q = refl
or_digits_fuel zero (suc m) zero b p q = refl
or_digits_fuel zero (suc m) (suc a) b p q = absurd (omega arith)
or_digits_fuel (suc n) zero zero b p q = refl
or_digits_fuel (suc n) zero (suc a) b p q = absurd (omega arith)
or_digits_fuel (suc n) (suc m) zero b p q = refl
or_digits_fuel (suc n) (suc m) (suc a) b p q =
    omega (arith, or_digits_fuel n m (suc a / 2) (b / 2) (omega arith) (omega arith))

zero-bit_or : (b : ℕ) → bit_or 0 b ≡ b
zero-bit_or b = bit_or-bitwise 0 b

bit_or_step : (a b : ℕ) → bit_or a b ≡ bit_or (a / 2) (b / 2) * 2 + max (a % 2) (b % 2)
bit_or_step zero b = omega (arith, zero-bit_or b, zero-bit_or (b / 2))
bit_or_step (suc a) b = omega (
  arith,
  bit_or-bitwise (suc a) b,
  bit_or-bitwise (suc a / 2) (b / 2),
  or_digits_fuel a (suc a / 2) (suc a / 2) (b / 2) (omega arith) (omega arith),
)

-- Twice a number, joined with a number: the lowest digit is that of the second.
double-bit_or : (a b : ℕ) → bit_or (a * 2) b ≡ bit_or a (b / 2) * 2 + b % 2
double-bit_or a b =
    let half : a * 2 / 2 ≡ a = omega arith in
    let even : a * 2 % 2 ≡ 0 = omega arith in
    omega (arith, bit_or_step (a * 2) b, ap (λ x. bit_or x (b / 2)) half, even)

bit_or-zero_fuel : (n a : ℕ) → a ≤ n → bit_or a 0 ≡ a
bit_or-zero_fuel n zero h = zero-bit_or 0
bit_or-zero_fuel zero (suc a) h = absurd (omega arith)
bit_or-zero_fuel (suc n) (suc a) h =
    omega (arith, bit_or_step (suc a) 0, bit_or-zero_fuel n (suc a / 2) (omega arith))

-- One step of the above, on a multiple.
halved : (a b c : ℕ) → a ≡ c * 2 → bit_or a b ≡ bit_or c (b / 2) * 2 + b % 2
halved a b c e = ap (λ x. bit_or x b) e ∙ double-bit_or c b

-- A multiple of a power of two joined with a number below it.
pub join2 : (m y : ℕ) → y < 2 → bit_or (m * 2) y ≡ m * 2 + y
join2 m y h =
    let gone : y / 2 ≡ 0 = omega arith in
    omega (arith, halved (m * 2) y m refl, ap (bit_or m) gone, bit_or-zero_fuel m m (omega arith))

pub join4 : (m y : ℕ) → y < 4 → bit_or (m * 4) y ≡ m * 4 + y
join4 m y h = omega (arith, halved (m * 4) y (m * 2) (omega arith), join2 m (y / 2) (omega arith))

pub join8 : (m y : ℕ) → y < 8 → bit_or (m * 8) y ≡ m * 8 + y
join8 m y h = omega (arith, halved (m * 8) y (m * 4) (omega arith), join4 m (y / 2) (omega arith))

pub join16 : (m y : ℕ) → y < 16 → bit_or (m * 16) y ≡ m * 16 + y
join16 m y h = omega (arith, halved (m * 16) y (m * 8) (omega arith), join8 m (y / 2) (omega arith))

pub join32 : (m y : ℕ) → y < 32 → bit_or (m * 32) y ≡ m * 32 + y
join32 m y h =
    omega (arith, halved (m * 32) y (m * 16) (omega arith), join16 m (y / 2) (omega arith))
