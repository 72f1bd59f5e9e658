-- ===== src/Turbo/Guard/Strict.antt =====
-- The guard that raises.
use backhouse_dff.Base.{
  ℕ, ◌≡◌, refl, sym, inl, inr, ◌⊎◌, String, true, Option, none, some, List, [], ◌∷◌, ◌++◌, arith,
  text_key, ◌==◌, contains, Distinct, Bool-cases, Option-cases, contains-append,
}
use mathlib.Core.List.{append_assoc, append-nil}
use backhouse_dff.Turbo.Guard.{guard_loop, assert_no_self_duplicates, resolved}
use backhouse_dff.Turbo.Guard.Lenient.{resolved-append, snoc-none, snoc-some, Distinct-snoc}

-- A canonical path that stands in the list twice.
repeats : (xs ys : List String) (c : String) → contains xs c ≡ true → ¬ Distinct (xs ++ c ∷ ys)
repeats [] ys c h d = ground arith
repeats (x ∷ xs) ys c h d = elim (Bool-cases (x == c)) [
  | inl here ↦
      let eq = (text_key.eqb_iff x c).0 here in
      ground (arith, contains-append xs (c ∷ ys) x, d.0, (text_key.eqb_iff c x).1 (sym eq))
  | inr there ↦ repeats xs ys c (rw there at h) d.1
]

module _ {ℓ} {A : Type ℓ} (resolve : A → Option String) where
  -- The strict guard either returns the group, or raises.
  abbrev pub Decides : List A → Option (List A × ℕ) → Type ℓ
  Decides group out =
      (Distinct (resolved resolve group) × (out ≡ some (group, 0)))
      ⊎ ((¬ Distinct (resolved resolve group)) × (out ≡ none))

  guard_loop-Decides :
      (seen group : List A)
      → Distinct (resolved resolve seen)
      → Decides (seen ++ group) (guard_loop resolve true (resolved resolve seen) seen 0 group)
  unfolding guard_loop
  guard_loop-Decides seen [] d = let same = append-nil seen in inl (rw same (d, refl))
  guard_loop-Decides seen (item ∷ group) d =
      let moved = append_assoc seen (item ∷ []) group in
      rw⁻¹ moved (elim (Option-cases (resolve item)) [
        | inl out ↦
            let eq = snoc-none resolve seen item out in
            rw (out, guard_loop) (rw eq at (guard_loop-Decides (seen ++ item ∷ []) group (rw eq d)))
        | inr found ↦ elim (Bool-cases (contains (resolved resolve seen) found.0)) [
          | inl old ↦
              rw (found.1, guard_loop, old)
                (inr (
                  (λ all. repeats (resolved resolve seen) (resolved resolve group) found.0 old (
                      rw (moved, resolved-append resolve seen (item ∷ group), resolved, found.1) at
                        all)),
                  refl,
                ))
          | inr new ↦
              let eq = snoc-some resolve seen item found.0 found.1 in
              rw (found.1, guard_loop, new)
                (rw eq at (
                  guard_loop-Decides (seen ++ item ∷ []) group
                    (rw eq (Distinct-snoc resolve (resolved resolve seen) found.0 d new))))
        ]
      ])

  -- The strict guard returns the whole group where all canonical paths differ, and raises exactly
  -- where two items have the same one.
  pub assert_no_self_duplicates-Decides :
      (group : List A) → Decides group (assert_no_self_duplicates resolve true group)
  unfolding assert_no_self_duplicates
  assert_no_self_duplicates-Decides group = guard_loop-Decides [] group tt
