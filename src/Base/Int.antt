-- ===== src/Base/Int.antt =====
-- Go's `int` where the program uses it for exit codes: signed numbers.
use Prim.Native.Nat.{ℕ}

-- `negsuc n` is -(n + 1).
pub data ℤ : Type 0 where
  pos : ℕ → ℤ
  negsuc : ℕ → ℤ
