-- ===== src/Base/Int.antt =====
-- Python's `int` where a setting or a difference may be negative: only the operations in use.
use Prim.Native.Nat.{ℕ, ◌≤◌, max}
use native.Mathlib.Omega.{arith}

-- `negsuc n` is -(n + 1).
pub data ℤ : Type 0 where
  pos : ℕ → ℤ
  negsuc : ℕ → ℤ

-- max(k, z), for a bound k that is not negative.
abbrev pub at_least : ℕ → ℤ → ℕ
at_least k (pos n) = max k n
at_least k (negsuc n) = k

pub at_least-ge : (k : ℕ) (z : ℤ) → k ≤ at_least k z
at_least-ge k (pos n) = omega arith
at_least-ge k (negsuc n) = omega arith
