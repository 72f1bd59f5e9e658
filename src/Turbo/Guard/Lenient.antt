-- ===== src/Turbo/Guard/Lenient.antt =====
-- The guard that drops items.
use backhouse_dff.Base.{
  ℕ, suc, ◌+◌, ◌≡◌, refl, ap, ◌∙◌, sym, inl, inr, String, Bool, true, false, not, if◌then◌else◌,
  Option, none, some, List, [], ◌∷◌, ◌++◌, arith, length, text_key, ◌==◌, contains, Distinct,
  Bool-cases, Option-cases, length-append, contains-append,
}
use mathlib.Core.List.{append_assoc, append-nil}
use backhouse_dff.Turbo.Guard.{guard_loop, assert_no_self_duplicates, resolved}

module _ {ℓ} {A : Type ℓ} (resolve : A → Option String) where
  pub resolved-append :
      (xs ys : List A) → resolved resolve (xs ++ ys) ≡ resolved resolve xs ++ resolved resolve ys
  resolved-append [] ys = refl
  resolved-append (x ∷ xs) ys = elim (Option-cases (resolve x)) [
    | inl out ↦ rw (out, resolved) (resolved-append xs ys)
    | inr found ↦ rw (found.1, resolved) (ap (◌∷◌ found.0) (resolved-append xs ys))
  ]

  pub Distinct-snoc :
      (xs : List String) (x : String)
      → Distinct xs
      → contains xs x ≡ false
      → Distinct (xs ++ x ∷ [])
  Distinct-snoc [] x d h = (refl, tt)
  Distinct-snoc (y ∷ ys) x d h = (
    ground (arith, contains-append ys (x ∷ []) y, text_key.eqb_iff x y, text_key.eqb_iff y x),
    Distinct-snoc ys x d.1 (ground arith),
  )

  -- No item before has the canonical path of this one, or it has none.
  abbrev pub is_first : List A → A → Bool
  is_first before item = elim (resolve item) [
    | none ↦ true
    | some c ↦ not (contains (resolved resolve before) c)
  ]

  -- The items that are first in this sense, after those before.
  unfoldable pub firsts : List A → List A → List A
  firsts before [] = []
  firsts before (item ∷ group) =
      let rest = firsts (before ++ item ∷ []) group in
      if is_first before item then item ∷ rest else rest

  abbrev if_first : List A → A → List A
  if_first before item = if is_first before item then item ∷ [] else []

  firsts-snoc :
      (before xs : List A) (item : A)
      → firsts before (xs ++ item ∷ []) ≡ firsts before xs ++ if_first (before ++ xs) item
  unfolding firsts
  firsts-snoc before [] item = let same = append-nil before in rw same refl
  firsts-snoc before (x ∷ xs) item =
      let rest = firsts-snoc (before ++ x ∷ []) xs item in
      let moved = append_assoc before (x ∷ []) xs in
      elim (Bool-cases (is_first before x)) [
        | inl e ↦ rw e (ap (◌∷◌ x) (rw moved at rest))
        | inr e ↦ rw e (rw moved at rest)
      ]

  -- What the lenient guard makes of a group: the items that are first, with canonical paths that
  -- differ, as many as it does not count as dropped, and no canonical path is lost.
  pub record Guarded (group kept : List A) (regressions : ℕ) : Type ℓ where
    pub counted : length kept + regressions ≡ length group
    pub distinct : Distinct (resolved resolve kept)
    pub exact : kept ≡ firsts [] group
    pub covers :
        (c : String) → contains (resolved resolve kept) c ≡ contains (resolved resolve group) c

  pub snoc-none :
      (xs : List A) (item : A)
      → resolve item ≡ none
      → resolved resolve (xs ++ item ∷ []) ≡ resolved resolve xs
  snoc-none xs item h =
      resolved-append xs (item ∷ []) ∙ rw (h, resolved) (append-nil (resolved resolve xs))

  pub snoc-some :
      (xs : List A) (item : A) (c : String)
      → resolve item ≡ some c
      → resolved resolve (xs ++ item ∷ []) ≡ resolved resolve xs ++ c ∷ []
  snoc-some xs item c h = resolved-append xs (item ∷ []) ∙ rw (h, resolved) refl

  keep_first :
      (seen kept : List A) (item : A)
      → kept ≡ firsts [] seen
      → is_first seen item ≡ true
      → kept ++ item ∷ [] ≡ firsts [] (seen ++ item ∷ [])
  keep_first seen kept item g first =
      ap (λ xs. xs ++ item ∷ []) g ∙ sym (firsts-snoc [] seen item ∙ rw first refl)

  drops :
      (seen : List A) (item : A) (c : String)
      → resolve item ≡ some c
      → contains (resolved resolve seen) c ≡ true
      → if_first seen item ≡ []
  drops seen item c h known = rw (h, if_first, is_first, known) refl

  keep_unresolved :
      (seen kept : List A) (n : ℕ) (item : A)
      → Guarded seen kept n
      → resolve item ≡ none
      → Guarded (seen ++ item ∷ []) (kept ++ item ∷ []) n
  keep_unresolved seen kept n item g h = record {
    counted =
        omega (arith, g.counted, length-append seen (item ∷ []), length-append kept (item ∷ []));
    distinct = rw (snoc-none kept item h) g.distinct;
    exact = keep_first seen kept item g.exact (rw (h, is_first) refl);
    covers = λ c. rw (snoc-none kept item h, snoc-none seen item h) (g.covers c);
  }

  keep_new :
      (seen kept : List A) (n : ℕ) (item : A) (c : String)
      → Guarded seen kept n
      → resolve item ≡ some c
      → contains (resolved resolve kept) c ≡ false
      → Guarded (seen ++ item ∷ []) (kept ++ item ∷ []) n
  keep_new seen kept n item c g h new = record {
    counted =
        omega (arith, g.counted, length-append seen (item ∷ []), length-append kept (item ∷ []));
    distinct =
        rw (snoc-some kept item c h) (Distinct-snoc (resolved resolve kept) c g.distinct new);
    exact =
        keep_first seen kept item g.exact
          (let fresh = sym (g.covers c) ∙ new in rw (h, is_first, fresh) refl);
    covers = λ d.
        rw
          (
            snoc-some kept item c h,
            snoc-some seen item c h,
            contains-append (resolved resolve kept) (c ∷ []) d,
            contains-append (resolved resolve seen) (c ∷ []) d,
            g.covers d,
          )
          refl;
  }

  drop_known :
      (seen kept : List A) (n : ℕ) (item : A) (c : String)
      → Guarded seen kept n
      → resolve item ≡ some c
      → contains (resolved resolve kept) c ≡ true
      → Guarded (seen ++ item ∷ []) kept (suc n)
  drop_known seen kept n item c g h old = record {
    counted = omega (arith, g.counted, length-append seen (item ∷ []));
    distinct = g.distinct;
    exact =
        g.exact
        ∙ sym (
            firsts-snoc [] seen item
            ∙ (let known = sym (g.covers c) ∙ old in
                rw (drops seen item c h known) (append-nil (firsts [] seen))));
    covers = λ d.
        g.covers d
        ∙ (rw (snoc-some seen item c h, contains-append (resolved resolve seen) (c ∷ []) d)
            (elim (Bool-cases (c == d)) [
              | inl here ↦
                  let eq = (text_key.eqb_iff c d).0 here in
                  let back : d ≡ c = sym eq in
                  let seen_d : contains (resolved resolve seen) d ≡ true =
                    sym (g.covers d) ∙ ap (contains (resolved resolve kept)) back ∙ old in
                  rw seen_d refl
              | inr there ↦ rw there (ground arith)
            ]));
  }

  guard_loop-Guarded :
      (seen kept : List A) (regressions : ℕ) (group : List A)
      → Guarded seen kept regressions
      → (kept' : List A) × (n : ℕ) × (guard_loop resolve false
            (resolved resolve kept)
            kept
            regressions
            group
          ≡ some (kept', n))
        × Guarded (seen ++ group) kept' n
  unfolding guard_loop
  guard_loop-Guarded seen kept n [] g = (kept, n, refl, rw (append-nil seen) g)
  guard_loop-Guarded seen kept n (item ∷ group) g =
      let moved = append_assoc seen (item ∷ []) group in
      rw⁻¹ moved (elim (Option-cases (resolve item)) [
        | inl out ↦
            rw (out, guard_loop)
              (rw (snoc-none kept item out) at (
                guard_loop-Guarded (seen ++ item ∷ []) (kept ++ item ∷ []) n group
                  (keep_unresolved seen kept n item g out)))
        | inr at_c ↦ elim (Bool-cases (contains (resolved resolve kept) at_c.0)) [
          | inl old ↦
              rw (at_c.1, guard_loop, old)
                (guard_loop-Guarded (seen ++ item ∷ []) kept (suc n) group
                  (drop_known seen kept n item at_c.0 g at_c.1 old))
          | inr new ↦
              rw (at_c.1, guard_loop, new)
                (rw (snoc-some kept item at_c.0 at_c.1) at (
                  guard_loop-Guarded (seen ++ item ∷ []) (kept ++ item ∷ []) n group
                    (keep_new seen kept n item at_c.0 g at_c.1 new)))
        ]
      ])

  -- The lenient guard keeps, in their order, exactly the items without a canonical path and those
  -- whose canonical path no item before has, and counts the others. The canonical paths of the kept
  -- items differ, and are all those of the group.
  pub assert_no_self_duplicates-Guarded :
      (group : List A)
      → (kept : List A) × (n : ℕ) × (assert_no_self_duplicates resolve false group ≡ some (kept, n))
        × Guarded group kept n
  unfolding assert_no_self_duplicates firsts
  assert_no_self_duplicates-Guarded group =
      guard_loop-Guarded [] [] 0 group
        (record { counted = omega arith; distinct = tt; exact = refl; covers = λ c. refl })
