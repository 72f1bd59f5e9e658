-- ===== src/Base/Sort.antt =====
-- Stable sorts: by any order of two entries, and by a number of each entry, greatest first, as
-- `ORDER BY key DESC` gives it.
use Prim.Native.Nat.{ℕ, ◌≤◌}
use mathlib.Core.Path.{◌≡◌, refl, ◌∙◌, ap}
use mathlib.Core.Logic.{inl, inr}
use mathlib.Core.Bool.{Bool}
use mathlib.Core.List.{List, [], ◌∷◌, map}
use native.Mathlib.Omega.{arith}
use backhouse_dff.Base.Tests.{if◌then◌else◌, Bool-cases, ltb}
use backhouse_dff.Base.Lists.{All, All-map}

module _ {ℓ} {A : Type ℓ} (before : A → A → Bool) where
  -- An entry goes before the first entry that does not go before it.
  unfoldable pub insert_by : A → List A → List A
  insert_by x [] = x ∷ []
  insert_by x (y ∷ ys) = let later = insert_by x ys in if before y x then y ∷ later else x ∷ y ∷ ys

  unfoldable pub sort_by : List A → List A
  sort_by [] = []
  sort_by (x ∷ xs) = insert_by x (sort_by xs)

module _ {ℓ} {A : Type ℓ} (key : A → ℕ) where
  -- An entry goes before those with a smaller key only.
  unfoldable pub insert_desc : A → List A → List A
  insert_desc x [] = x ∷ []
  insert_desc x (y ∷ ys) =
      let later = insert_desc x ys in if ltb (key x) (key y) then y ∷ later else x ∷ y ∷ ys

  unfoldable pub sort_desc : List A → List A
  sort_desc [] = []
  sort_desc (x ∷ xs) = insert_desc x (sort_desc xs)

  -- No entry has a greater key than one before it.
  abbrev pub IsDescending : List A → Type 0
  IsDescending [] = Unit
  IsDescending (x ∷ xs) = All (λ y. key y ≤ key x) xs × IsDescending xs

  pub insert_desc-All {κ} :
      (P : A → Type κ) (x : A) (xs : List A) → P x → All P xs → All P (insert_desc x xs)
  unfolding insert_desc
  insert_desc-All P x [] p h = (p, tt)
  insert_desc-All P x (y ∷ ys) p h = elim (Bool-cases (ltb (key x) (key y))) [
    | inl e ↦ rw e (h.0, insert_desc-All P x ys p h.1)
    | inr e ↦ rw e (p, (h.0, h.1))
  ]

  pub sort_desc-All {κ} : (P : A → Type κ) (xs : List A) → All P xs → All P (sort_desc xs)
  unfolding sort_desc
  sort_desc-All P [] h = tt
  sort_desc-All P (x ∷ xs) h = insert_desc-All P x (sort_desc xs) h.0 (sort_desc-All P xs h.1)

  insert_desc-IsDescending :
      (x : A) (xs : List A) → IsDescending xs → IsDescending (insert_desc x xs)
  unfolding insert_desc
  insert_desc-IsDescending x [] h = (tt, tt)
  insert_desc-IsDescending x (y ∷ ys) h = elim (Bool-cases (ltb (key x) (key y))) [
    | inl e ↦ rw e (
      insert_desc-All (λ z. key z ≤ key y) x ys (ground arith) h.0,
      insert_desc-IsDescending x ys h.1,
    )
    | inr e ↦
        let top : key y ≤ key x = ground arith in
        rw e ((top, All-map _ _ ys (λ z le. omega (arith, le, top)) h.0), h)
  ]

  pub sort_desc-IsDescending : (xs : List A) → IsDescending (sort_desc xs)
  unfolding sort_desc
  sort_desc-IsDescending [] = tt
  sort_desc-IsDescending (x ∷ xs) =
      insert_desc-IsDescending x (sort_desc xs) (sort_desc-IsDescending xs)

  All-insert_desc {κ} :
      (P : A → Type κ) (x : A) (xs : List A) → All P (insert_desc x xs) → P x × All P xs
  unfolding insert_desc
  All-insert_desc P x [] h = h
  All-insert_desc P x (y ∷ ys) h = elim (Bool-cases (ltb (key x) (key y))) [
    | inl e ↦
        let k = rw e at h in let later = All-insert_desc P x ys k.1 in (later.0, (k.0, later.1))
    | inr e ↦ rw e at h
  ]

  pub All-sort_desc {κ} : (P : A → Type κ) (xs : List A) → All P (sort_desc xs) → All P xs
  unfolding sort_desc
  All-sort_desc P [] h = tt
  All-sort_desc P (x ∷ xs) h =
      let both = All-insert_desc P x (sort_desc xs) h in (both.0, All-sort_desc P xs both.1)

  -- A change that keeps the keys may be made before the sort or after it.
  insert_desc-map :
      (f : A → A)
      → ((a : A) → key (f a) ≡ key a)
      → (x : A) (xs : List A) → insert_desc (f x) (map f xs) ≡ map f (insert_desc x xs)
  unfolding insert_desc
  insert_desc-map f h x [] = refl
  insert_desc-map f h x (y ∷ ys) = elim (Bool-cases (ltb (key x) (key y))) [
    | inl e ↦ rw (h x, h y, e) (ap (◌∷◌ (f y)) (insert_desc-map f h x ys))
    | inr e ↦ rw (h x, h y, e) refl
  ]

  pub sort_desc-map :
      (f : A → A)
      → ((a : A) → key (f a) ≡ key a)
      → (xs : List A) → sort_desc (map f xs) ≡ map f (sort_desc xs)
  unfolding sort_desc
  sort_desc-map f h [] = refl
  sort_desc-map f h (x ∷ xs) =
      ap (insert_desc (f x)) (sort_desc-map f h xs) ∙ insert_desc-map f h x (sort_desc xs)
