-- ===== src/Roots/Sort.antt =====
-- The sort of the roots by a key.
use backhouse_dff.Base.{
  ℕ, ◌≤◌, ◌≡◌, refl, ◌∙◌, ap, inl, inr, ◌⊎◌, Bool, true, ◌||◌, List, [], ◌∷◌, arith, leb, KeyEq,
  ◌==◌, contains, Bool-cases,
}
use backhouse_dff.Roots.{place, sorted}

pub or-cases : (a b : Bool) → (a || b) ≡ true → (a ≡ true) ⊎ (b ≡ true)
or-cases a b h = ground arith

module _ {P : Type 0} ⦃e : KeyEq P⦄ (key : P → ℕ) where
  -- No later entry has a smaller key.
  abbrev pub IsSorted : List P → Type 0
  IsSorted [] = Unit
  IsSorted (x ∷ xs) = ((y : P) → contains xs y ≡ true → key x ≤ key y) × IsSorted xs

  contains-place :
      (x : P) (xs : List P) (a : P) → contains (place key x xs) a ≡ ((x == a) || contains xs a)
  contains-place x [] a = refl
  contains-place x (y ∷ ys) a = ground (arith, contains-place x ys a)

  pub contains-sorted : (xs : List P) (a : P) → contains (sorted key xs) a ≡ contains xs a
  contains-sorted [] a = refl
  contains-sorted (x ∷ xs) a =
      contains-place x (sorted key xs) a ∙ ap (λ b. (x == a) || b) (contains-sorted xs a)

  place-IsSorted : (x : P) (xs : List P) → IsSorted xs → IsSorted (place key x xs)
  place-IsSorted x [] h = ((λ y k. ground arith), tt)
  place-IsSorted x (y ∷ ys) h = elim (Bool-cases (leb (key x) (key y))) [
    | inl le ↦ rw le (
      (λ z k. elim (or-cases (y == z) (contains ys z) k) [
        | inl same ↦ rw⁻¹ ((e.eqb_iff y z).0 same) (ground arith)
        | inr later ↦ let step = h.0 z later in ground arith
      ]),
      h,
    )
    | inr gt ↦ rw gt (
      (λ z k. elim (or-cases (x == z) (contains ys z) (rw⁻¹ (contains-place x ys z) k)) [
        | inl same ↦ rw⁻¹ ((e.eqb_iff x z).0 same) (ground arith)
        | inr later ↦ h.0 z later
      ]),
      place-IsSorted x ys h.1,
    )
  ]

  pub sorted-IsSorted : (xs : List P) → IsSorted (sorted key xs)
  sorted-IsSorted [] = tt
  sorted-IsSorted (x ∷ xs) = place-IsSorted x (sorted key xs) (sorted-IsSorted xs)
