-- ===== src/Ulid/Digits.antt =====
-- The digits of an identifier as one number.
use ferry_cli.Base.{
  ℕ, ◌+◌, ◌*◌, ◌/◌, ◌%◌, ◌^◌, ◌<◌, ◌≡◌, refl, ◌∙◌, ap, sym, subst, List, [], ◌∷◌, ◌++◌, All, length,
  arith,
}
use ferry_cli.Api.Target.{Bytes}
use ferry_cli.Ulid.{head_digits, block_digits, blocks, ms_byte, raw_tail, id_digits}
use ferry_cli.Ulid.Bits.{masks, join2, join4, join8, join16}

-- The number with these digits in this base, after the digits of another.
abbrev pub number : ℕ → ℕ → List ℕ → ℕ
number base n [] = n
number base n (d ∷ ds) = number base (n * base + d) ds

abbrev pub AreBelow : ℕ → List ℕ → Type 0
AreBelow bound = All (λ x. x < bound)

-- The eight digits of a block, as quotients and remainders.
abbrev plain_digits : ℕ → ℕ → ℕ → ℕ → ℕ → List ℕ
plain_digits a b c d e =
    (a / 8)
    ∷ (a % 8 * 4 + b / 64)
    ∷ (b % 64 / 2)
    ∷ (b % 2 * 16 + c / 16)
    ∷ (c % 16 * 2 + d / 128)
    ∷ (d % 128 / 4)
    ∷ (d % 4 * 8 + e / 32)
    ∷ (e % 32)
    ∷ []

block_is :
    (a b c d e : ℕ)
    → a < 256
    → b < 256
    → c < 256
    → d < 256
    → e < 256
    → block_digits a b c d e ≡ plain_digits a b c d e
block_is a b c d e ha hb hc hd he =
    let p = masks a ha in
    let q = masks b hb in
    let r = masks c hc in
    let s = masks d hd in
    let t = masks e he in
    rw
      (
        p.top5,
        p.low3,
        q.top2,
        q.mid5,
        q.low1,
        r.top4,
        r.low4,
        s.top1,
        s.high5,
        s.low2,
        t.top3,
        t.low5,
        join4 (a % 8) (b / 64) (omega arith),
        join16 (b % 2) (c / 16) (omega arith),
        join2 (c % 16) (d / 128) (omega arith),
        join8 (d % 4) (e / 32) (omega arith),
      )
      refl

-- The number of a block is that of its bytes.
pub block_number :
    (n a b c d e : ℕ)
    → a < 256
    → b < 256
    → c < 256
    → d < 256
    → e < 256
    → number 32 n (block_digits a b c d e) ≡ number 256 n (a ∷ b ∷ c ∷ d ∷ e ∷ [])
block_number n a b c d e ha hb hc hd he =
    ap (number 32 n) (block_is a b c d e ha hb hc hd he) ∙ omega arith

-- A list that is read in blocks.
abbrev pub IsWhole : List ℕ → Type 0
IsWhole [] = Unit
IsWhole (a ∷ b ∷ c ∷ d ∷ e ∷ rest) = IsWhole rest
IsWhole _ = ⊥

pub number-append :
    (base n : ℕ) (xs ys : List ℕ) → number base n (xs ++ ys) ≡ number base (number base n xs) ys
number-append base n [] ys = refl
number-append base n (x ∷ xs) ys = number-append base (n * base + x) xs ys

blocks-number :
    (bs : List ℕ)
    → IsWhole bs
    → AreBelow 256 bs
    → (n : ℕ) → number 32 n (blocks bs) ≡ number 256 n bs
unfolding blocks
blocks-number [] w h n = refl
blocks-number (a ∷ []) w h n = absurd w
blocks-number (a ∷ b ∷ []) w h n = absurd w
blocks-number (a ∷ b ∷ c ∷ []) w h n = absurd w
blocks-number (a ∷ b ∷ c ∷ d ∷ []) w h n = absurd w
blocks-number (a ∷ b ∷ c ∷ d ∷ e ∷ rest) w (ha, (hb, (hc, (hd, (he, h))))) n =
    number-append 32 n (block_digits a b c d e) (blocks rest)
    ∙ (ap (λ m. number 32 m (blocks rest)) (block_number n a b c d e ha hb hc hd he)
        ∙ blocks-number rest w h _)

-- The six bytes of a time.
pub ms_bytes-number :
    (ms : ℕ)
    → number 256
        (ms_byte ms 40)
        (ms_byte ms 32 ∷ ms_byte ms 24 ∷ ms_byte ms 16 ∷ ms_byte ms 8 ∷ ms_byte ms 0 ∷ [])
      ≡ ms % 2 ^ 48
ms_bytes-number ms = omega arith

pub head-number : (a : ℕ) → a < 256 → number 32 0 (head_digits a) ≡ a
head-number a h = let m = masks a h in omega (arith, m.top3, m.low5)

pub byte_small : (ms n : ℕ) → ms_byte ms n < 256
byte_small ms n = omega arith

-- Ten bytes.
abbrev pub IsEntropy : Bytes → Type 0
IsEntropy e = (length e ≡ 10) × AreBelow 256 e

entropy-IsWhole : (e : Bytes) → length e ≡ 10 → IsWhole e
entropy-IsWhole (a ∷ b ∷ c ∷ d ∷ e ∷ f ∷ g ∷ h ∷ i ∷ j ∷ []) l = tt
entropy-IsWhole e l = absurd (omega arith)

-- The digits of an identifier are those of its time, which is cut to 48 bits, and its entropy.
pub id_digits-number :
    (ms : ℕ) (e : Bytes) → IsEntropy e → number 32 0 (id_digits ms e) ≡ number 256 (ms % 2 ^ 48) e
id_digits-number ms e (l, h) =
    number-append 32 0 (head_digits (ms_byte ms 40)) (blocks (raw_tail ms e))
    ∙ (ap (λ n. number 32 n (blocks (raw_tail ms e)))
          (head-number (ms_byte ms 40) (byte_small ms 40))
        ∙ (blocks-number (raw_tail ms e) (entropy-IsWhole e l)
              (
                byte_small ms 32,
                (byte_small ms 24, (byte_small ms 16, (byte_small ms 8, (byte_small ms 0, h)))),
              )
              (ms_byte ms 40)
            ∙ ap (λ n. number 256 n e) (ms_bytes-number ms)))

below-append : (k : ℕ) (xs ys : List ℕ) → AreBelow k xs → AreBelow k ys → AreBelow k (xs ++ ys)
below-append k [] ys a b = b
below-append k (x ∷ xs) ys (p, a) b = (p, below-append k xs ys a b)

pub block_small :
    (a b c d e : ℕ)
    → a < 256
    → b < 256
    → c < 256
    → d < 256
    → e < 256
    → AreBelow 32 (block_digits a b c d e)
block_small a b c d e ha hb hc hd he =
    subst (AreBelow 32) (sym (block_is a b c d e ha hb hc hd he)) (
      omega arith,
      (
        omega arith,
        (
          omega arith,
          (omega arith, (omega arith, (omega arith, (omega arith, (omega arith, tt))))),
        ),
      ),
    )

blocks_small : (bs : List ℕ) → IsWhole bs → AreBelow 256 bs → AreBelow 32 (blocks bs)
unfolding blocks
blocks_small [] w h = tt
blocks_small (a ∷ []) w h = tt
blocks_small (a ∷ b ∷ []) w h = tt
blocks_small (a ∷ b ∷ c ∷ []) w h = tt
blocks_small (a ∷ b ∷ c ∷ d ∷ []) w h = tt
blocks_small (a ∷ b ∷ c ∷ d ∷ e ∷ rest) w (ha, (hb, (hc, (hd, (he, h))))) =
    below-append 32 (block_digits a b c d e) (blocks rest) (block_small a b c d e ha hb hc hd he)
      (blocks_small rest w h)

blocks-length : (bs : List ℕ) → IsWhole bs → 5 * length (blocks bs) ≡ 8 * length bs
unfolding blocks
blocks-length [] w = refl
blocks-length (a ∷ []) w = absurd w
blocks-length (a ∷ b ∷ []) w = absurd w
blocks-length (a ∷ b ∷ c ∷ []) w = absurd w
blocks-length (a ∷ b ∷ c ∷ d ∷ []) w = absurd w
blocks-length (a ∷ b ∷ c ∷ d ∷ e ∷ rest) w = omega (arith, blocks-length rest w)

-- An identifier has 26 digits, each below 32, the first below 8.
pub record IsDigits (ds : List ℕ) : Type 0 where
  pub all_small : AreBelow 32 ds
  pub has_length : length ds ≡ 26

pub id_digits-IsDigits : (ms : ℕ) (e : Bytes) → IsEntropy e → IsDigits (id_digits ms e)
id_digits-IsDigits ms e (l, h) =
    let m = masks (ms_byte ms 40) (byte_small ms 40) in
    let w = entropy-IsWhole e l in
    let tail : AreBelow 256 (raw_tail ms e) = (
      byte_small ms 32,
      (byte_small ms 24, (byte_small ms 16, (byte_small ms 8, (byte_small ms 0, h)))),
    ) in
    record {
      all_small =
          (omega (arith, m.top3), (omega (arith, m.low5), blocks_small (raw_tail ms e) w tail));
      has_length = omega (arith, blocks-length (raw_tail ms e) w, l);
    }
