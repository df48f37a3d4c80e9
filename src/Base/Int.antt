-- ===== src/Base/Int.antt =====
-- Signed integers: `negsuc n` is -(n + 1). The code only reads, negates and compares them.
use Prim.Native.Nat.{ℕ}

pub data ℤ : Type 0 where
  pos : ℕ → ℤ
  negsuc : ℕ → ℤ
