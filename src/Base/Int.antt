-- ===== src/Base/Int.antt =====
-- Python's integers, as far as a negative argument matters.
use Prim.Native.Nat.{ℕ}

pub data ℤ : Type 0 where
  pos : ℕ → ℤ
  negsuc : ℕ → ℤ
