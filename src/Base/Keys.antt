-- ===== src/Base/Keys.antt =====
-- Equality of keys as an interface, and membership in a set that is kept as a list.
use Prim.Native.Nat.{ℕ}
use Prim.Native.String.{String}
use mathlib.Core.Path.{◌≡◌, refl, ap}
use mathlib.Core.Logic.{◌↔◌, inl, inr}
use mathlib.Core.Bool.{Bool, true, false, ◌||◌, ◌&&◌}
use mathlib.Core.List.{List, [], ◌∷◌, ◌++◌}
use native.Mathlib.Omega.{arith}
use text.Mathlib.Text.{◌==◌ as str_eq}
use text.Mathlib.TextEquality.{eq_iff}
use backhouse_dff.Base.Filters.{filter}
use backhouse_dff.Base.Tests.{nat_beq, nat_beq_iff, if◌then◌else◌, Bool-cases, &&-true}

-- Keys that the code compares by `==`, which tells exactly the equal ones.
pub record KeyEq {ℓ} (K : Type ℓ) : Type ℓ where
  pub eqb : K → K → Bool
  pub eqb_iff : (j k : K) → (eqb j k ≡ true) ↔ (j ≡ k)

instance abbrev pub text_key : KeyEq String
text_key = record { eqb = str_eq; eqb_iff = eq_iff }

instance abbrev pub nat_key : KeyEq ℕ
nat_key = record { eqb = nat_beq; eqb_iff = nat_beq_iff }

infix 50 ◌==◌
abbrev pub ◌==◌ {ℓ} : {K : Type ℓ} ⦃e : KeyEq K⦄ → K → K → Bool
◌==◌ ⦃e⦄ j k = e.eqb j k

module _ {ℓ} {A : Type ℓ} ⦃e : KeyEq A⦄ where
  -- `a in xs`
  abbrev pub contains : List A → A → Bool
  contains [] a = false
  contains (x ∷ xs) a = x == a || contains xs a

  pub eqb_refl : (a : A) → (a == a) ≡ true
  eqb_refl a = (e.eqb_iff a a).1 refl

  pub contains-append :
      (xs ys : List A) (a : A) → contains (xs ++ ys) a ≡ (contains xs a || contains ys a)
  contains-append [] ys a = refl
  contains-append (x ∷ xs) ys a = ground (arith, contains-append xs ys a)

  -- No entry occurs twice.
  abbrev pub Distinct : List A → Type 0
  Distinct [] = Unit
  Distinct (x ∷ xs) = (contains xs x ≡ false) × Distinct xs

  -- `set(xs)`, in the order of last occurrence.
  abbrev pub dedup : List A → List A
  dedup [] = []
  dedup (x ∷ xs) = let rest = dedup xs in if contains rest x then rest else x ∷ rest

  pub contains-dedup : (xs : List A) (a : A) → contains (dedup xs) a ≡ contains xs a
  contains-dedup [] a = refl
  contains-dedup (x ∷ xs) a =
      ground (arith, contains-dedup xs a, contains-dedup xs x, e.eqb_iff x a)

  pub dedup-Distinct : (xs : List A) → Distinct (dedup xs)
  dedup-Distinct [] = tt
  dedup-Distinct (x ∷ xs) = elim (Bool-cases (contains (dedup xs) x)) [
    | inl old ↦ rw old (dedup-Distinct xs)
    | inr new ↦ rw new (new, dedup-Distinct xs)
  ]

  -- A test of a key and its entry in a set agree under a filter.
  pub contains-filter :
      (p : A → Bool) (xs : List A) (a : A) → contains (filter p xs) a ≡ (p a && contains xs a)
  contains-filter p [] a = ground arith
  contains-filter p (x ∷ xs) a = elim (Bool-cases (x == a)) [
    | inl same ↦ let e = (e.eqb_iff x a).0 same in ground (arith, contains-filter p xs a, ap p e)
    | inr other ↦ ground (arith, contains-filter p xs a)
  ]

instance abbrev pub pair_key {ℓ κ} :
    {A : Type ℓ} {B : Type κ} ⦃a : KeyEq A⦄ ⦃b : KeyEq B⦄ → KeyEq (A × B)
pair_key ⦃a⦄ ⦃b⦄ = record {
  eqb = λ x y. a.eqb x.0 y.0 && b.eqb x.1 y.1;
  eqb_iff = λ x y. (
    λ h.
        let both = &&-true (a.eqb x.0 y.0) (b.eqb x.1 y.1) h in
        let left = (a.eqb_iff x.0 y.0).0 both.0 in
        let right = (b.eqb_iff x.1 y.1).0 both.1 in λ i. (left i, right i),
    λ h.
        let left = (a.eqb_iff x.0 y.0).1 (ap (λ z. z.0) h) in
        let right = (b.eqb_iff x.1 y.1).1 (ap (λ z. z.1) h) in rw (left, right) refl,
  );
}
