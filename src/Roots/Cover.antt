-- ===== src/Roots/Cover.antt =====
-- Which roots are kept, and what they cover.
use backhouse_dff.Base.{
  ℕ, ◌≤◌, ◌<◌, ◌≡◌, refl, sym, ◌∙◌, ap, inl, inr, Bool, true, false, ◌||◌, List, [], ◌∷◌, ◌++◌, map,
  arith, any, KeyEq, ◌==◌, contains, contains-append, contains-dedup, dedup, Bool-cases, eqb_refl,
  or_left, or_right,
}
use backhouse_dff.Roots.Sort.{or-cases, IsSorted, contains-sorted, sorted-IsSorted}
use backhouse_dff.Roots.{sorted, is_below, collapse, dedupe_roots}

module _ {P : Type 0} ⦃e : KeyEq P⦄ where
  any-eq_false :
      (p : P → Bool) (xs : List P) (x : P) → any p xs ≡ false → contains xs x ≡ true → p x ≡ false
  any-eq_false p [] x h k = ground arith
  any-eq_false p (y ∷ ys) x h k = elim (Bool-cases (y == x)) [
    | inl same ↦ rw⁻¹ ((e.eqb_iff y x).0 same) (ground arith)
    | inr other ↦ any-eq_false p ys x (ground arith) (ground arith)
  ]

  any-weaken :
      (p q : P → Bool) (xs : List P)
      → ((x : P) → p x ≡ true → q x ≡ true)
      → any p xs ≡ true
      → any q xs ≡ true
  any-weaken p q [] f h = h
  any-weaken p q (x ∷ xs) f h = elim (or-cases (p x) (any p xs) h) [
    | inl here ↦ or_left (any q xs) (f x here)
    | inr later ↦ or_right (q x) (any-weaken p q xs f later)
  ]

  any-append : (p : P → Bool) (xs ys : List P) → any p (xs ++ ys) ≡ (any p xs || any p ys)
  any-append p [] ys = refl
  any-append p (x ∷ xs) ys = ground (arith, any-append p xs ys)

module _ {P : Type 0} ⦃e : KeyEq P⦄ (relative : P → P → Bool) where
  -- No entry is below another.
  abbrev pub IsApart : List P → Type 0
  IsApart xs =
      (a b : P) → contains xs a ≡ true → contains xs b ≡ true → is_below relative a b ≡ false

  -- A root is kept, or lies below one that is.
  abbrev pub covers : List P → P → Bool
  covers xs r = any (λ k. r == k || is_below relative r k) xs

module _ {P : Type 0} ⦃e : KeyEq P⦄ (relative : P → P → Bool) (key : P → ℕ) where
  abbrev IsBefore : List P → List P → Type 0
  IsBefore kept rs = (k r : P) → contains kept k ≡ true → contains rs r ≡ true → key k ≤ key r

  contains-snoc : (xs : List P) (x a : P) → contains (xs ++ x ∷ []) a ≡ (contains xs a || (x == a))
  contains-snoc xs x a = contains-append xs (x ∷ []) a ∙ ground arith

  -- A root that is below none of the kept ones joins them: the kept ones, which come before it,
  -- are not below it.
  snoc-IsApart :
      ((a b : P) → is_below relative a b ≡ true → key b < key a)
      → (kept : List P) (r : P) → any (is_below relative r) kept ≡ false
      → ((k : P) → contains kept k ≡ true → key k ≤ key r)
      → IsApart relative kept
      → IsApart relative (kept ++ r ∷ [])
  snoc-IsApart shorter kept r none before apart a b in_a in_b =
      elim (or-cases (contains kept a) (r == a) (rw⁻¹ (contains-snoc kept r a) in_a)) [
        | inl old_a ↦
            elim (or-cases (contains kept b) (r == b) (rw⁻¹ (contains-snoc kept r b) in_b)) [
              | inl old_b ↦ apart a b old_a old_b
              | inr new_b ↦ elim (Bool-cases (is_below relative a b)) [
                | inl below ↦
                    ground
                      (arith, shorter a b below, before a old_a, ap key ((e.eqb_iff r b).0 new_b))
                | inr fine ↦ fine
              ]
            ]
        | inr new_a ↦
            elim (or-cases (contains kept b) (r == b) (rw⁻¹ (contains-snoc kept r b) in_b)) [
              | inl old_b ↦
                  rw⁻¹ ((e.eqb_iff r a).0 new_a)
                    (any-eq_false (is_below relative r) kept b none old_b)
              | inr new_b ↦
                  let same : a ≡ b = sym ((e.eqb_iff r a).0 new_a) ∙ (e.eqb_iff r b).0 new_b in
                  ground (arith, (e.eqb_iff a b).1 same)
            ]
      ]

  collapse-IsApart :
      ((a b : P) → is_below relative a b ≡ true → key b < key a)
      → (kept rs : List P) → IsApart relative kept
      → IsBefore kept rs
      → IsSorted key rs
      → IsApart relative (collapse relative kept rs)
  unfolding collapse
  collapse-IsApart shorter kept [] apart before h = apart
  collapse-IsApart shorter kept (r ∷ rs) apart before h =
      elim (Bool-cases (any (is_below relative r) kept)) [
        | inl below ↦ rw below (
            collapse-IsApart shorter kept rs apart
              (λ k x in_k in_x. before k x in_k (or_right (r == x) in_x)) h.1)
        | inr none ↦ rw none (
            collapse-IsApart shorter (kept ++ r ∷ []) rs
              (snoc-IsApart shorter kept r none
                (λ k in_k. before k r in_k (or_left (contains rs r) (eqb_refl r))) apart)
              (λ k x in_k in_x.
                elim (or-cases (contains kept k) (r == k) (rw⁻¹ (contains-snoc kept r k) in_k)) [
                  | inl old ↦ before k x old (or_right (r == x) in_x)
                  | inr new ↦ rw⁻¹ ((e.eqb_iff r k).0 new) (h.0 x in_x)
                ])
              h.1)
      ]

  collapse-keeps :
      (p : P → Bool) (kept rs : List P)
      → any p kept ≡ true
      → any p (collapse relative kept rs) ≡ true
  unfolding collapse
  collapse-keeps p kept [] h = h
  collapse-keeps p kept (r ∷ rs) h = elim (Bool-cases (any (is_below relative r) kept)) [
    | inl below ↦ rw below (collapse-keeps p kept rs h)
    | inr none ↦ rw none (
        collapse-keeps p (kept ++ r ∷ []) rs
          (rw (any-append p kept (r ∷ [])) (or_left (any p (r ∷ [])) h)))
  ]

  collapse-covers :
      (kept rs : List P) (r : P)
      → contains rs r ≡ true
      → covers relative (collapse relative kept rs) r ≡ true
  unfolding collapse
  collapse-covers kept [] r h = ground arith
  collapse-covers kept (x ∷ rs) r h = elim (Bool-cases (any (is_below relative x) kept)) [
    | inl below ↦ rw below (elim (or-cases (x == r) (contains rs r) h) [
      | inl same ↦ rw⁻¹ ((e.eqb_iff x r).0 same) (
          collapse-keeps (λ k. x == k || is_below relative x k) kept rs
            (any-weaken (is_below relative x) (λ k. x == k || is_below relative x k) kept
              (λ k. or_right (x == k)) below))
      | inr later ↦ collapse-covers kept rs r later
    ])
    | inr none ↦ rw none (elim (or-cases (x == r) (contains rs r) h) [
      | inl same ↦ rw⁻¹ ((e.eqb_iff x r).0 same) (
          collapse-keeps (λ k. x == k || is_below relative x k) (kept ++ x ∷ []) rs
            (rw (any-append (λ k. x == k || is_below relative x k) kept (x ∷ [])) (
              or_right (covers relative kept x)
                (or_left false (or_left (is_below relative x x) (eqb_refl x))))))
      | inr later ↦ collapse-covers (kept ++ x ∷ []) rs r later
    ])
  ]

  -- No kept root is below another kept root. A path below another one has the longer text.
  pub dedupe_roots-IsApart :
      (resolve : P → P) (roots : List P) (a b : P)
      → ((r k : P) → is_below relative r k ≡ true → key k < key r)
      → contains (dedupe_roots relative resolve key roots) a ≡ true
      → contains (dedupe_roots relative resolve key roots) b ≡ true
      → is_below relative a b ≡ false
  unfolding dedupe_roots
  dedupe_roots-IsApart resolve roots a b shorter =
      let rs = sorted key (dedup (map resolve roots)) in
      collapse-IsApart shorter [] rs (λ x y h k. ground arith) (λ x y h k. ground arith)
        (sorted-IsSorted key (dedup (map resolve roots))) a b

  -- Each resolved root is kept or lies below a root that is kept.
  pub dedupe_roots-covers :
      (resolve : P → P) (roots : List P) (r : P)
      → contains (map resolve roots) r ≡ true
      → covers relative (dedupe_roots relative resolve key roots) r ≡ true
  unfolding dedupe_roots
  dedupe_roots-covers resolve roots r h =
      let all = dedup (map resolve roots) in
      collapse-covers [] (sorted key all) r
        (contains-sorted key all r ∙ contains-dedup (map resolve roots) r ∙ h)
