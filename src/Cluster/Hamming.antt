-- ===== src/Cluster/Hamming.antt =====
-- cerebro/engines/image_formats.py, `hamming_distance`: the ones of `hash1 ^ hash2`, bit by bit.
-- The fuel is the larger hash, which has no more bits than its value.
use backhouse_dff.Base.{
  ℕ, zero, suc, ◌+◌, ◌/◌, ◌%◌, ◌≤◌, max, ◌≡◌, refl, sym, ◌∙◌, arith, if◌then◌else◌, nat_beq,
}

abbrev pub bit : ℕ → ℕ → ℕ
bit a b = if nat_beq (a % 2) (b % 2) then 0 else 1

unfoldable pub hamming_from : ℕ → ℕ → ℕ → ℕ
hamming_from zero a b = 0
hamming_from (suc fuel) a b = elim (a + b) [
  | zero ↦ 0
  | suc _ ↦ bit a b + hamming_from fuel (a / 2) (b / 2)
]

unfoldable pub hamming_distance : ℕ → ℕ → ℕ
hamming_distance a b = hamming_from (max a b) a b

hamming_from-zero : (n : ℕ) → hamming_from n 0 0 ≡ 0
unfolding hamming_from
hamming_from-zero zero = refl
hamming_from-zero (suc n) = refl

hamming_from_step :
    (n a b : ℕ) → hamming_from (suc n) a b ≡ bit a b + hamming_from n (a / 2) (b / 2)
unfolding hamming_from
hamming_from_step n zero zero = omega (arith, hamming_from-zero n)
hamming_from_step n zero (suc b) =
    let s : zero + suc b ≡ suc b = omega arith in rw (s, hamming_from) refl
hamming_from_step n (suc a) b =
    let s : suc a + b ≡ suc (a + b) = omega arith in rw (s, hamming_from) refl

hamming_from_refl : (n a : ℕ) → hamming_from n a a ≡ 0
unfolding hamming_from
hamming_from_refl zero a = refl
hamming_from_refl (suc n) a = ground (arith, hamming_from_step n a a, hamming_from_refl n (a / 2))

hamming_from_symm : (n a b : ℕ) → hamming_from n a b ≡ hamming_from n b a
unfolding hamming_from
hamming_from_symm zero a b = refl
hamming_from_symm (suc n) a b =
    ground
      (arith, hamming_from_step n a b, hamming_from_step n b a, hamming_from_symm n (a / 2) (b / 2))

hamming_from_triangle : (n a b c : ℕ) → hamming_from n a c ≤ hamming_from n a b + hamming_from n b c
unfolding hamming_from
hamming_from_triangle zero a b c = omega arith
hamming_from_triangle (suc n) a b c = ground (
  arith,
  hamming_from_step n a b,
  hamming_from_step n b c,
  hamming_from_step n a c,
  hamming_from_triangle n (a / 2) (b / 2) (c / 2),
)

-- Fuel beyond the two numbers changes nothing.
hamming_from_enough :
    (n m a b : ℕ) → a ≤ n → b ≤ n → a ≤ m → b ≤ m → hamming_from n a b ≡ hamming_from m a b
unfolding hamming_from
hamming_from_enough zero m zero zero an bn am bm = sym (hamming_from-zero m)
hamming_from_enough (suc n) zero zero zero an bn am bm = hamming_from-zero (suc n)
hamming_from_enough (suc n) (suc m) a b an bn am bm = ground (
  arith,
  hamming_from_step n a b,
  hamming_from_step m a b,
  hamming_from_enough n m (a / 2) (b / 2) (omega arith) (omega arith) (omega arith) (omega arith),
)
hamming_from_enough zero m zero (suc b) an bn am bm = absurd (omega arith)
hamming_from_enough zero m (suc a) b an bn am bm = absurd (omega arith)
hamming_from_enough (suc n) zero zero (suc b) an bn am bm = absurd (omega arith)
hamming_from_enough (suc n) zero (suc a) b an bn am bm = absurd (omega arith)

at_fuel : (n a b : ℕ) → a ≤ n → b ≤ n → hamming_distance a b ≡ hamming_from n a b
unfolding hamming_distance
at_fuel n a b an bn = hamming_from_enough (max a b) n a b (omega arith) (omega arith) an bn

-- The distance is symmetric.
pub hamming_distance_symm : (a b : ℕ) → hamming_distance a b ≡ hamming_distance b a
hamming_distance_symm a b =
    at_fuel (max a b) a b (omega arith) (omega arith)
    ∙ hamming_from_symm (max a b) a b
    ∙ sym (at_fuel (max a b) b a (omega arith) (omega arith))

pub hamming_distance_refl : (a : ℕ) → hamming_distance a a ≡ 0
unfolding hamming_distance
hamming_distance_refl a = hamming_from_refl (max a a) a

-- The distance obeys the triangle inequality.
pub hamming_distance_triangle :
    (a b c : ℕ) → hamming_distance a c ≤ hamming_distance a b + hamming_distance b c
hamming_distance_triangle a b c =
    let n = a + b + c in
    omega (
      arith,
      at_fuel n a b (omega arith) (omega arith),
      at_fuel n b c (omega arith) (omega arith),
      at_fuel n a c (omega arith) (omega arith),
      hamming_from_triangle n a b c,
    )
