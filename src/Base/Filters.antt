-- ===== src/Base/Filters.antt =====
-- List comprehensions and `any`, over a Boolean test.
use Prim.Native.Nat.{ℕ, ◌≤◌}
use mathlib.Core.Path.{◌≡◌, refl, ap}
use mathlib.Core.Bool.{Bool, true, false, ◌&&◌, ◌||◌}
use mathlib.Core.List.{List, [], ◌∷◌, ◌++◌, map}
use mathlib.Core.Logic.{inl, inr}
use native.Mathlib.Omega.{arith}
use backhouse_dff.Base.Tests.{if◌then◌else◌, Bool-cases}
use backhouse_dff.Base.Lists.{length, All, sum_of}

module _ {ℓ} {A : Type ℓ} where
  -- `[x for x in xs if test x]`
  abbrev pub filter : (A → Bool) → List A → List A
  filter p [] = []
  filter p (x ∷ xs) = if p x then x ∷ filter p xs else filter p xs

  -- `any(test x for x in xs)`
  abbrev pub any : (A → Bool) → List A → Bool
  any p [] = false
  any p (x ∷ xs) = p x || any p xs

  pub filter-All : (p : A → Bool) (xs : List A) → All (λ x. p x ≡ true) (filter p xs)
  filter-All p [] = tt
  filter-All p (x ∷ xs) = elim (Bool-cases (p x)) [
    | inl e ↦ rw e (e, filter-All p xs)
    | inr e ↦ rw e (filter-All p xs)
  ]

  pub All-filter {κ} :
      (P : A → Type κ) (p : A → Bool) (xs : List A) → All P xs → All P (filter p xs)
  All-filter P p [] h = tt
  All-filter P p (x ∷ xs) h = elim (Bool-cases (p x)) [
    | inl e ↦ rw e (h.0, All-filter P p xs h.1)
    | inr e ↦ rw e (All-filter P p xs h.1)
  ]

  pub filter-filter :
      (p q r : A → Bool) (xs : List A)
      → ((x : A) → (p x && q x) ≡ r x)
      → filter q (filter p xs) ≡ filter r xs
  filter-filter p q r [] h = refl
  filter-filter p q r (x ∷ xs) h = ground (arith, h x, filter-filter p q r xs h)

  pub length-filter-le : (p : A → Bool) (xs : List A) → length (filter p xs) ≤ length xs
  length-filter-le p [] = omega arith
  length-filter-le p (x ∷ xs) = ground (arith, length-filter-le p xs)

  pub sum_of-filter-le :
      (p : A → Bool) (f : A → ℕ) (xs : List A) → sum_of f (filter p xs) ≤ sum_of f xs
  sum_of-filter-le p f [] = omega arith
  sum_of-filter-le p f (x ∷ xs) = ground (arith, sum_of-filter-le p f xs)

  pub filter-append :
      (p : A → Bool) (xs ys : List A) → filter p (xs ++ ys) ≡ filter p xs ++ filter p ys
  filter-append p [] ys = refl
  filter-append p (x ∷ xs) ys = ground (arith, filter-append p xs ys)

  -- What holds of the entries kept holds of all entries that pass the test.
  pub All-unfilter {κ} :
      (P : A → Type κ) (p : A → Bool) (xs : List A)
      → All P (filter p xs)
      → All (λ x. p x ≡ true → P x) xs
  All-unfilter P p [] h = tt
  All-unfilter P p (x ∷ xs) h = elim (Bool-cases (p x)) [
    | inl e ↦ let k = rw e at h in ((λ _. k.0), All-unfilter P p xs k.1)
    | inr e ↦ ((λ t. absurd (ground (arith, e, t))), All-unfilter P p xs (rw e at h))
  ]

  pub filter-map :
      (p : A → Bool) (f : A → A) (xs : List A)
      → ((x : A) → p (f x) ≡ p x)
      → filter p (map f xs) ≡ map f (filter p xs)
  filter-map p f [] h = refl
  filter-map p f (x ∷ xs) h = elim (Bool-cases (p x)) [
    | inl e ↦ rw (h x, e) (ap (◌∷◌ (f x)) (filter-map p f xs h))
    | inr e ↦ rw (h x, e) (filter-map p f xs h)
  ]
