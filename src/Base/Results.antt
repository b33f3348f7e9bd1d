-- ===== src/Base/Results.antt =====
-- Rust's `Result`, with its error type first, and `i32`/`i64` values.
use Prim.Native.Nat.{ℕ}

pub data Result {ℓ} (E A : Type ℓ) : Type ℓ where
  ok : A → Result E A
  err : E → Result E A

-- `negsuc n` is -(n + 1).
pub data ℤ : Type 0 where
  pos : ℕ → ℤ
  negsuc : ℕ → ℤ
