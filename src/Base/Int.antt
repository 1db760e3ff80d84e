-- ===== src/Base/Int.antt =====
-- C++ `int` and `long long` where the source handles negative values.
use Prim.Native.Nat.{ℕ}

-- `negsuc n` is -(n + 1).
pub data ℤ : Type 0 where
  pos : ℕ → ℤ
  negsuc : ℕ → ℤ
