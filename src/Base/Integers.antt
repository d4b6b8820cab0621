-- ===== src/Base/Integers.antt =====
-- Go's int and int64, as far as the program needs them.
use Prim.Native.Nat.{ℕ}

pub data ℤ : Type 0 where
  pos : ℕ → ℤ
  negsuc : ℕ → ℤ
