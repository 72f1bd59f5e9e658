-- ===== src/Base/Best.antt =====
-- `max(xs, key=...)` and `min(xs, key=...)`: the first entry that no other entry beats, with its
-- index. `better new old` says that the key `new` replaces the best key so far.
use mathlib.Core.Bool.{Bool, true, false}
use mathlib.Core.List.{List, [], ◌∷◌}
use mathlib.Core.Logic.{inl, inr}
use mathlib.Core.Option.{Option, none, some}
use mathlib.Core.Path.{◌≡◌, refl}
use Prim.Native.Nat.{ℕ, suc}
use backhouse_dff.Base.Lists.{All, get_elem?}
use backhouse_dff.Base.Tests.{Bool-cases, if◌then◌else◌}

module _ {ℓ} {A : Type ℓ} (better : ℕ → ℕ → Bool) (key : A → ℕ) where
  -- The entry of the list that replaces `b` in the end, if one does.
  unfoldable pub best_from : A → List A → Option (ℕ × A)
  best_from b [] = none
  best_from b (x ∷ xs) = elim (best_from (if better (key x) (key b) then x else b) xs) [
    | some (i, y) ↦ some (suc i, y)
    | none ↦ if better (key x) (key b) then some (0, x) else none
  ]

  abbrev position : Option (ℕ × A) → ℕ
  position none = 0
  position (some (i, y)) = suc i

  -- The index of the best entry; the source calls these on lists that are not empty.
  unfoldable pub best_index : List A → ℕ
  best_index [] = 0
  best_index (x ∷ xs) = position (best_from x xs)

  module _ (R : ℕ → ℕ → Type 0) (R_refl : (a : ℕ) → R a a)
      (R_trans : (a b c : ℕ) → R a b → R b c → R a c) (wins : (a b : ℕ) → better a b ≡ true → R a b)
      (loses : (a b : ℕ) → better a b ≡ false → R b a) where
    -- No entry beats the final one.
    abbrev Final : A → List A → Option (ℕ × A) → Type ℓ
    Final b xs none = All (λ x. R (key b) (key x)) xs × Unit {ℓ}
    Final b xs (some (i, y)) =
        (get_elem? xs i ≡ some y) × R (key y) (key b) × All (λ x. R (key y) (key x)) xs

    Final-cons :
        (b x : A) (xs : List A) (r : Option (ℕ × A))
        → Final (if better (key x) (key b) then x else b) xs r
        → Final b (x ∷ xs) (elim r [
          | some (i, y) ↦ some (suc i, y)
          | none ↦ if better (key x) (key b) then some (0, x) else none
        ])
    Final-cons b x xs none h = elim (Bool-cases (better (key x) (key b))) [
      | inl e ↦ rw e (refl, wins (key x) (key b) e, (R_refl (key x), (rw e at h).0))
      | inr e ↦ rw e ((loses (key x) (key b) e, (rw e at h).0), tt)
    ]
    Final-cons b x xs (some (i, y)) h = elim (Bool-cases (better (key x) (key b))) [
      | inl e ↦
          let k : Final x xs (some (i, y)) = rw e at h in
          (k.0, R_trans _ _ _ k.1 (wins _ _ e), (k.1, k.2))
      | inr e ↦
          let k : Final b xs (some (i, y)) = rw e at h in
          (k.0, k.1, (R_trans _ _ _ k.1 (loses _ _ e), k.2))
    ]

    best_from-Final : (b : A) (xs : List A) → Final b xs (best_from b xs)
    unfolding best_from
    best_from-Final b [] = (tt, tt)
    best_from-Final b (x ∷ xs) =
        Final-cons b x xs _ (best_from-Final (if better (key x) (key b) then x else b) xs)

    Final-position :
        (x : A) (xs : List A) (r : Option (ℕ × A))
        → Final x xs r
        → (y : A) × (get_elem? (x ∷ xs) (position r) ≡ some y)
          × All (λ z. R (key y) (key z)) (x ∷ xs)
    Final-position x xs none h = (x, refl, (R_refl (key x), h.0))
    Final-position x xs (some (i, y)) h = (y, h.0, (h.1, h.2))

    -- The index is that of an entry which is at least as good as every other.
    pub best_index-is_best :
        (x : A) (xs : List A)
        → (y : A) × (get_elem? (x ∷ xs) (best_index (x ∷ xs)) ≡ some y)
          × All (λ z. R (key y) (key z)) (x ∷ xs)
    unfolding best_index
    best_index-is_best x xs = Final-position x xs (best_from x xs) (best_from-Final x xs)
