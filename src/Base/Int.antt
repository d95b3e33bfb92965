-- ===== src/Base/Int.antt =====
-- The integers, as Go's int holds them; none of the values here comes near its bounds.
use Prim.Native.Nat.{ℕ}

-- `negsuc n` is -(n + 1).
pub data ℤ : Type 0 where
  pos : ℕ → ℤ
  negsuc : ℕ → ℤ
