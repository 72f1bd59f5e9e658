-- ===== src/Base/Int.antt =====
-- Signed integers over the native numbers, as far as the program clamps and compares them.
use Prim.Native.Nat.{ℕ, suc, ◌≤◌, min}
use native.Mathlib.Omega.{arith}

-- `negsuc n` is -(n + 1).
pub data ℤ : Type 0 where
  pos : ℕ → ℤ
  negsuc : ℕ → ℤ

-- `abs(i)`
abbrev pub nat_abs : ℤ → ℕ
nat_abs (pos n) = n
nat_abs (negsuc n) = suc n

-- `max(0, min(i, top))` for a top that is not negative.
abbrev pub clamp : ℤ → ℕ → ℕ
clamp (pos n) top = min n top
clamp (negsuc n) top = 0

pub clamp-le : (i : ℤ) (top : ℕ) → clamp i top ≤ top
clamp-le (pos n) top = omega arith
clamp-le (negsuc n) top = omega arith
