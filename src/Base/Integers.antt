-- ===== src/Base/Integers.antt =====
-- Go's int, where it can be negative.
use Prim.Native.Nat.{ℕ}

pub data ℤ : Type 0 where
  pos negsuc : ℕ → ℤ
