-- ===== src/Base/Text.antt =====
-- Slices of a text, character by character.
use Prim.Native.Nat.{ℕ, zero, suc, ◌≤◌}
use Prim.Native.String.{String}
use native.Mathlib.Omega.{arith}

-- `s[:n]`
abbrev pub take_chars : ℕ → String → String
take_chars zero s = String.[]
take_chars (suc n) String.[] = String.[]
take_chars (suc n) (String.◌∷◌ c s) = String.◌∷◌ c (take_chars n s)

-- `len(s)`
abbrev pub count_chars : String → ℕ
count_chars String.[] = 0
count_chars (String.◌∷◌ c s) = suc (count_chars s)

pub count-take_chars-le : (n : ℕ) (s : String) → count_chars (take_chars n s) ≤ n
count-take_chars-le zero s = omega arith
count-take_chars-le (suc n) String.[] = omega arith
count-take_chars-le (suc n) (String.◌∷◌ c s) = omega (arith, count-take_chars-le n s)
