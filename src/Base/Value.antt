-- ===== src/Base/Value.antt =====
-- The values of a `Dict[str, Any]`. An object that the code only stores and passes on is known by
-- a number.
use Prim.Native.Nat.{ℕ}
use Prim.Native.String.{String}
use mathlib.Core.Bool.{Bool, true, false}

pub data Value : Type 0 where
  none_value : Value
  str : String → Value
  num : ℕ → Value
  flag : Bool → Value
  object : ℕ → Value

-- `value is None`
abbrev pub is_none : Value → Bool
is_none none_value = true
is_none _ = false
