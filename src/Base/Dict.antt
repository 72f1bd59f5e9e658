-- ===== src/Base/Dict.antt =====
-- A `dict` as an association list in the order of insertion.

use mathlib.Core.Path.{◌≡◌, refl, ap}
use mathlib.Core.Bool.{Bool, true, false, ◌||◌, ◌&&◌, not}
use mathlib.Core.Option.{Option, none, some}
use mathlib.Core.List.{List, [], ◌∷◌, map}
use mathlib.Core.Logic.{inl, inr}
use native.Mathlib.Omega.{arith}
use backhouse_dff.Base.Tests.{if◌then◌else◌, Bool-cases}
use backhouse_dff.Base.Lists.{All}
use backhouse_dff.Base.Keys.{KeyEq, ◌==◌, contains}

module _ {ℓ κ} {K : Type ℓ} {V : Type κ} ⦃e : KeyEq K⦄ where
  -- `d[k] = v`: a new key goes to the end.
  unfoldable pub insert : K → V → List (K × V) → List (K × V)
  insert k v [] = (k, v) ∷ []
  insert k v (entry ∷ d) = if entry.0 == k then (entry.0, v) ∷ d else entry ∷ insert k v d

  -- `d.pop(k, None)`
  unfoldable pub erase : K → List (K × V) → List (K × V)
  erase k [] = []
  erase k (entry ∷ d) = let rest = erase k d in if entry.0 == k then rest else entry ∷ rest

  -- `d.get(k)`
  unfoldable pub lookup : K → List (K × V) → Option V
  lookup k [] = none
  lookup k (entry ∷ d) = if entry.0 == k then some entry.1 else lookup k d

  -- `k in d`
  abbrev pub has : K → List (K × V) → Bool
  has k m = elim (lookup k m) [ none ↦ false | some _ ↦ true ]

  abbrev pub keys : List (K × V) → List K
  keys = map (λ p. p.0)

  abbrev pub values : List (K × V) → List V
  values = map (λ p. p.1)

  -- After a write or a removal, only the key itself reads otherwise.
  pub lookup-insert :
      (w r : K) (v : V) (d : List (K × V))
      → lookup r (insert w v d) ≡ (if w == r then some v else lookup r d)
  unfolding insert lookup
  lookup-insert w r v [] = refl
  lookup-insert w r v (entry ∷ d) =
      ground (arith, lookup-insert w r v d, e.eqb_iff entry.0 w, e.eqb_iff entry.0 r, e.eqb_iff w r)

  pub lookup-erase :
      (w r : K) (d : List (K × V)) → lookup r (erase w d) ≡ (if w == r then none else lookup r d)
  unfolding erase lookup
  lookup-erase w r [] = ground arith
  lookup-erase w r (entry ∷ d) =
      ground (arith, lookup-erase w r d, e.eqb_iff entry.0 w, e.eqb_iff entry.0 r, e.eqb_iff w r)

  pub lookup-eq-none : (k : K) (m : List (K × V)) → contains (keys m) k ≡ false → lookup k m ≡ none
  unfolding lookup
  lookup-eq-none k [] h = refl
  lookup-eq-none k (entry ∷ m) h = ground (arith, lookup-eq-none k m)

  pub has-insert :
      (w r : K) (v : V) (d : List (K × V)) → has r (insert w v d) ≡ ((w == r) || has r d)
  has-insert w r v d =
      rw (lookup-insert w r v d, has)
        (elim (Bool-cases (w == r)) [ inl e ↦ rw e refl | inr e ↦ rw e refl ])

  pub has-erase : (w r : K) (d : List (K × V)) → has r (erase w d) ≡ (not (w == r) && has r d)
  has-erase w r d =
      rw (lookup-erase w r d, has)
        (elim (Bool-cases (w == r)) [ inl e ↦ rw e refl | inr e ↦ rw e refl ])

  -- A property of the values of a dict.
  pub insert-All {μ} :
      (Q : V → Type μ) (k : K) (v : V) (d : List (K × V))
      → Q v
      → All (λ entry. Q entry.1) d
      → All (λ entry. Q entry.1) (insert k v d)
  unfolding insert
  insert-All Q k v [] q h = (q, tt)
  insert-All Q k v (entry ∷ d) q h = elim (Bool-cases (entry.0 == k)) [
    | inl e ↦ rw e (q, h.1)
    | inr e ↦ rw e (h.0, insert-All Q k v d q h.1)
  ]

  pub erase-All {μ} :
      (Q : V → Type μ) (k : K) (d : List (K × V))
      → All (λ entry. Q entry.1) d
      → All (λ entry. Q entry.1) (erase k d)
  unfolding erase
  erase-All Q k [] h = tt
  erase-All Q k (entry ∷ d) h = elim (Bool-cases (entry.0 == k)) [
    | inl e ↦ rw e (erase-All Q k d h.1)
    | inr e ↦ rw e (h.0, erase-All Q k d h.1)
  ]

  pub lookup-All {μ} :
      (Q : V → Type μ) (k : K) (d : List (K × V)) (v : V)
      → All (λ entry. Q entry.1) d
      → lookup k d ≡ some v
      → Q v
  unfolding lookup
  lookup-All Q k [] v h found = ground arith
  lookup-All Q k (entry ∷ d) v h found = elim (Bool-cases (entry.0 == k)) [
    | inl e ↦ let same = ap (λ o. elim o [ none ↦ v | some x ↦ x ]) (rw e at found) in rw⁻¹ same h.0
    | inr e ↦ lookup-All Q k d v h.1 (rw e at found)
  ]
