-- ===== src/Base/Buckets.antt =====
-- A `defaultdict(list)`: lists under keys.
use mathlib.Core.Path.{◌≡◌, refl, ap, ◌∙◌, sym}
use mathlib.Core.Bool.{Bool, true, false, ◌||◌}
use mathlib.Core.Option.{none, some}
use mathlib.Core.List.{List, [], ◌∷◌, ◌++◌, append_assoc, append-nil}
use mathlib.Core.Logic.{inl, inr}
use native.Mathlib.Omega.{arith}
use backhouse_dff.Base.Tests.{if◌then◌else◌, Bool-cases, leb}
use backhouse_dff.Base.Lists.{length, All, All-append}
use backhouse_dff.Base.Filters.{filter}
use backhouse_dff.Base.Keys.{KeyEq, ◌==◌, contains, Distinct}
use backhouse_dff.Base.Dict.{insert, lookup, keys, lookup-insert, lookup-eq-none}

-- A list if it has at least two entries.
abbrev pub at_least_two {ℓ} : {A : Type ℓ} → List A → List A
at_least_two xs = if leb 2 (length xs) then xs else []

module _ {ℓ κ} {K : Type ℓ} {V : Type κ} ⦃e : KeyEq K⦄ where
  -- `d[k]`, empty where the key is missing.
  abbrev pub bucket : K → List (K × List V) → List V
  bucket k d = elim (lookup k d) [ none ↦ [] | some xs ↦ xs ]

  -- `d[k].append(x)`
  unfoldable pub append_to : K → V → List (K × List V) → List (K × List V)
  append_to k x d = insert k (bucket k d ++ x ∷ []) d

  pub bucket-insert :
      (k r : K) (xs : List V) (d : List (K × List V))
      → bucket r (insert k xs d) ≡ (if k == r then xs else bucket r d)
  bucket-insert k r xs d = elim (Bool-cases (k == r)) [
    | inl here ↦ rw (lookup-insert k r xs d, bucket) (rw here refl)
    | inr there ↦ rw (lookup-insert k r xs d, bucket) (rw there refl)
  ]

  pub bucket-cons :
      (g : K × List V) (d : List (K × List V)) (r : K)
      → bucket r (g ∷ d) ≡ (if g.0 == r then g.1 else bucket r d)
  unfolding lookup
  bucket-cons g d r = elim (Bool-cases (g.0 == r)) [
    | inl here ↦ rw (here, bucket) refl
    | inr there ↦ rw (there, bucket) refl
  ]

  pub bucket-append_to :
      (k : K) (x : V) (r : K) (d : List (K × List V))
      → bucket r (append_to k x d) ≡ (if k == r then bucket r d ++ x ∷ [] else bucket r d)
  unfolding append_to
  bucket-append_to k x r d = elim (Bool-cases (k == r)) [
    | inl here ↦
        rw (lookup-insert k r (bucket k d ++ x ∷ []) d, bucket)
          (rw here (ap (λ j. bucket j d ++ x ∷ []) ((e.eqb_iff k r).0 here)))
    | inr there ↦ rw (lookup-insert k r (bucket k d ++ x ∷ []) d, bucket) (rw there refl)
  ]

  abbrev pub keep_two : List (K × List V) → List (K × List V)
  keep_two d = filter (λ g. leb 2 (length g.1)) d

  keep_two-missing :
      (d : List (K × List V)) (r : K)
      → contains (keys d) r ≡ false
      → contains (keys (keep_two d)) r ≡ false
  keep_two-missing [] r h = refl
  keep_two-missing (g ∷ d) r h =
      let there : (g.0 == r) ≡ false = ground arith in
      let rest = keep_two-missing d r (ground arith) in
      elim (Bool-cases (leb 2 (length g.1))) [
        | inl two ↦ rw two (rw (there, rest) refl)
        | inr few ↦ rw few rest
      ]

  pub keep_two-Distinct : (d : List (K × List V)) → Distinct (keys d) → Distinct (keys (keep_two d))
  keep_two-Distinct [] h = tt
  keep_two-Distinct (g ∷ d) h = elim (Bool-cases (leb 2 (length g.1))) [
    | inl two ↦ rw two (keep_two-missing d g.0 h.0, keep_two-Distinct d h.1)
    | inr few ↦ rw few (keep_two-Distinct d h.1)
  ]

  pub bucket-missing :
      (d : List (K × List V)) (r : K) → contains (keys d) r ≡ false → bucket r d ≡ []
  bucket-missing d r h = rw (lookup-eq-none r d h, bucket) refl

  -- A filter on the lists of a dict, read at a key.
  pub bucket-keep_two :
      (d : List (K × List V)) (r : K)
      → Distinct (keys d)
      → bucket r (keep_two d) ≡ at_least_two (bucket r d)
  unfolding lookup
  bucket-keep_two [] r h = refl
  bucket-keep_two (g ∷ d) r h = elim (Bool-cases (g.0 == r)) [
    | inl here ↦
        let eq = (e.eqb_iff g.0 r).0 here in
        let missing = bucket-missing (keep_two d) r (keep_two-missing d r (rw eq at h.0)) in
        elim (Bool-cases (leb 2 (length g.1))) [
          | inl two ↦ rw (two, bucket-cons g (keep_two d) r, bucket-cons g d r, here, two) refl
          | inr few ↦ rw (few, bucket-cons g d r, here, few) missing
        ]
    | inr there ↦ elim (Bool-cases (leb 2 (length g.1))) [
      | inl two ↦
          rw (two, bucket-cons g (keep_two d) r, bucket-cons g d r, there) (bucket-keep_two d r h.1)
      | inr few ↦ rw (few, bucket-cons g d r, there) (bucket-keep_two d r h.1)
    ]
  ]

  insert-contains :
      (k : K) (v : List V) (d : List (K × List V)) (r : K)
      → contains (keys (insert k v d)) r ≡ (k == r || contains (keys d) r)
  unfolding insert
  insert-contains k v [] r = refl
  insert-contains k v (g ∷ d) r = elim (Bool-cases (g.0 == k)) [
    | inl here ↦
        let eq = (e.eqb_iff g.0 k).0 here in rw (here, eq) (or-again (k == r) (contains (keys d) r))
    | inr there ↦
        rw (there, insert-contains k v d r) (or-swap (g.0 == r) (k == r) (contains (keys d) r))
  ]
    where
      or-again : (a b : Bool) → (a || b) ≡ (a || (a || b))
      or-again a b = ground arith

      or-swap : (a b c : Bool) → (a || (b || c)) ≡ (b || (a || c))
      or-swap a b c = ground arith

  pub insert-Distinct :
      (k : K) (v : List V) (d : List (K × List V))
      → Distinct (keys d)
      → Distinct (keys (insert k v d))
  unfolding insert
  insert-Distinct k v [] h = (refl, tt)
  insert-Distinct k v (g ∷ d) h = elim (Bool-cases (g.0 == k)) [
    | inl here ↦ rw here h
    | inr there ↦
        let turn : (k == g.0) ≡ false = ground (arith, there, e.eqb_iff g.0 k, e.eqb_iff k g.0) in
        rw there (insert-contains k v d g.0 ∙ rw (turn, h.0) refl, insert-Distinct k v d h.1)
  ]

  module _ {μ} (P : K → V → Type μ) where
    -- What holds of each entry with the key of its list.
    abbrev pub Keyed : List (K × List V) → Type μ
    Keyed d = All (λ g. All (P g.0) g.1) d

    bucket-Keyed : (k : K) (d : List (K × List V)) → Keyed d → All (P k) (bucket k d)
    unfolding lookup
    bucket-Keyed k [] h = tt
    bucket-Keyed k (g ∷ d) h = elim (Bool-cases (g.0 == k)) [
      | inl here ↦ let eq = (e.eqb_iff g.0 k).0 here in rw (bucket-cons g d k, here) (rw⁻¹ eq h.0)
      | inr there ↦ rw (bucket-cons g d k, there) (bucket-Keyed k d h.1)
    ]

    insert-Keyed :
        (k : K) (v : List V) (d : List (K × List V)) → All (P k) v → Keyed d → Keyed (insert k v d)
    unfolding insert
    insert-Keyed k v [] p h = (p, tt)
    insert-Keyed k v (g ∷ d) p h = elim (Bool-cases (g.0 == k)) [
      | inl here ↦ let eq = (e.eqb_iff g.0 k).0 here in rw here (rw eq p, h.1)
      | inr there ↦ rw there (h.0, insert-Keyed k v d p h.1)
    ]

  module _ {ι} {A : Type ι} (key : A → K) (value : A → V) where
    -- Each item's value under its key.
    unfoldable pub append_all : List A → List (K × List V) → List (K × List V)
    append_all [] d = d
    append_all (x ∷ xs) d = append_all xs (append_to (key x) (value x) d)

    -- The values of the items with a key, in order.
    abbrev pub values_at : K → List A → List V
    values_at r [] = []
    values_at r (x ∷ xs) = if key x == r then value x ∷ values_at r xs else values_at r xs

    pub bucket-append_all :
        (xs : List A) (d : List (K × List V)) (r : K)
        → bucket r (append_all xs d) ≡ bucket r d ++ values_at r xs
    unfolding append_all
    bucket-append_all [] d r = sym (append-nil (bucket r d))
    bucket-append_all (x ∷ xs) d r =
        bucket-append_all xs (append_to (key x) (value x) d) r
        ∙ step (key x == r) (bucket-append_to (key x) (value x) r d)
      where
        step :
            (b : Bool)
            → bucket r (append_to (key x) (value x) d)
              ≡ (if b then bucket r d ++ value x ∷ [] else bucket r d)
            → bucket r (append_to (key x) (value x) d) ++ values_at r xs
              ≡ bucket r d ++ (if b then value x ∷ values_at r xs else values_at r xs)
        step true h = rw h (append_assoc (bucket r d) (value x ∷ []) (values_at r xs))
        step false h = rw h refl

    pub append_all-Distinct :
        (xs : List A) (d : List (K × List V))
        → Distinct (keys d)
        → Distinct (keys (append_all xs d))
    unfolding append_all append_to
    append_all-Distinct [] d h = h
    append_all-Distinct (x ∷ xs) d h = append_all-Distinct xs _ (insert-Distinct (key x) _ d h)

    pub append_all-Keyed {μ} :
        (P : K → V → Type μ) (xs : List A) (d : List (K × List V))
        → All (λ x. P (key x) (value x)) xs
        → Keyed P d
        → Keyed P (append_all xs d)
    unfolding append_all append_to
    append_all-Keyed P [] d p h = h
    append_all-Keyed P (x ∷ xs) d p h = append_all-Keyed P xs _ p.1 (
        insert-Keyed P (key x) _ d
          (All-append (P (key x)) (bucket (key x) d) (value x ∷ []) (bucket-Keyed P (key x) d h)
            (p.0, tt))
          h)
