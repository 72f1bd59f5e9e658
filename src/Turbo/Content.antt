-- ===== src/Turbo/Content.antt =====
-- The groups that the hash phases leave.
use backhouse_dff.Base.{
  ◌+◌, ◌≤◌, ◌≡◌, refl, ap, ◌∙◌, inl, inr, String, Bool, true, false, ◌&&◌, Option, none, some, List,
  [], ◌∷◌, ◌++◌, arith, if◌then◌else◌, length, length-append, leb, ◌==◌, text_key, eqb_refl,
  Distinct, All, All-filter, filter, filter-append, filter-filter, Bool-cases,
}
use backhouse_dff.Base.Dict.{keys, lookup}
use backhouse_dff.Base.Buckets.{
  bucket, append_all, values_at, bucket-append_all, bucket-cons, at_least_two, keep_two-Distinct,
  bucket-keep_two, bucket-missing, append_all-Distinct, Keyed, append_all-Keyed,
}
use backhouse_dff.Turbo.Grouping.{Entry}
use backhouse_dff.Turbo.Jobs.{passing}
use backhouse_dff.Turbo.Hashing.{
  HashGroups, flatten, add_hash, with_hashes, hash_files, compute_hashes,
}

passing-append :
    (p : Entry → Bool) (xs ys : List Entry) → passing p (xs ++ ys) ≡ passing p xs + passing p ys
passing-append p xs ys =
    ap length (filter-append p xs ys) ∙ length-append (filter p xs) (filter p ys)

pub passing_mono :
    (p q : Entry → Bool) (xs : List Entry)
    → ((x : Entry) → p x ≡ true → q x ≡ true)
    → passing p xs ≤ passing q xs
passing_mono p q [] h = omega arith
passing_mono p q (x ∷ xs) h = ground (arith, passing_mono p q xs h, h x)

passing-at_least_two :
    (p : Entry → Bool) (xs : List Entry)
    → passing p (at_least_two xs) ≡ (if leb 2 (length xs) then passing p xs else 0)
passing-at_least_two p xs = elim (Bool-cases (leb 2 (length xs))) [
  | inl e ↦ rw e refl
  | inr e ↦ rw e refl
]

-- Whether the hash of a file is the one asked for.
abbrev pub is_hash : String → Option String → Bool
is_hash h none = false
is_hash h (some g) = g == h

not_empty : (g h : String) → (g == "") ≡ true → (h == "") ≡ false → (g == h) ≡ false
not_empty g h empty full = elim (Bool-cases (g == h)) [
  | inl same ↦
      let eq = (text_key.eqb_iff g h).0 same in
      absurd (let again = rw eq at empty in ground (arith, again, full))
  | inr other ↦ other
]

-- A hash is one of two different texts at most.
is_hash-apart :
    (a b : String) (o : Option String) → is_hash a o ≡ true → (a == b) ≡ false → is_hash b o ≡ false
is_hash-apart a b none h apart = refl
is_hash-apart a b (some g) h apart = rw ((text_key.eqb_iff g a).0 h) apart

add_hash-values_at :
    (h : String) (x : Entry) (o : Option String) (hashed : List (String × Entry))
    → (h == "") ≡ false
    → values_at (λ p. p.0) (λ p. p.1) h (add_hash x o hashed) ≡ (
        if is_hash h o
        then x ∷ values_at (λ p. p.0) (λ p. p.1) h hashed
        else values_at (λ p. p.0) (λ p. p.1) h hashed)
add_hash-values_at h x none hashed full = refl
add_hash-values_at h x (some g) hashed full = elim (Bool-cases (g == "")) [
  | inl empty ↦ rw (empty, not_empty g h empty full) refl
  | inr some_ ↦ rw some_ refl
]

add_hash-All :
    (hash : String → Option String) (x : Entry) (o : Option String) (hashed : List (String × Entry))
    → hash x.0 ≡ o
    → All (λ p. is_hash p.0 (hash p.1.0) ≡ true) hashed
    → All (λ p. is_hash p.0 (hash p.1.0) ≡ true) (add_hash x o hashed)
add_hash-All hash x none hashed e h = h
add_hash-All hash x (some g) hashed e h = elim (Bool-cases (g == "")) [
  | inl empty ↦ rw empty h
  | inr some_ ↦ rw (some_, e) (eqb_refl g, h)
]

module _ (hash : String → Option String) where
  -- Whether a file has a hash.
  abbrev pub has_hash : String → Entry → Bool
  has_hash h x = is_hash h (hash x.0)

  values_at-with_hashes :
      (h : String) (xs : List Entry)
      → (h == "") ≡ false
      → values_at (λ p. p.0) (λ p. p.1) h (with_hashes hash xs) ≡ filter (has_hash h) xs
  values_at-with_hashes h [] full = refl
  values_at-with_hashes h (x ∷ xs) full =
      add_hash-values_at h x (hash x.0) (with_hashes hash xs) full
      ∙ ap (λ ys. if has_hash h x then x ∷ ys else ys) (values_at-with_hashes h xs full)

  with_hashes-All : (xs : List Entry) → All (λ p. has_hash p.0 p.1 ≡ true) (with_hashes hash xs)
  with_hashes-All [] = tt
  with_hashes-All (x ∷ xs) =
      add_hash-All hash x (hash x.0) (with_hashes hash xs) refl (with_hashes-All xs)

  none_pass :
      (q : Entry → Bool) (k j : String) (xs : List Entry)
      → ((x : Entry) → q x ≡ true → has_hash k x ≡ true)
      → (j == k) ≡ false
      → All (λ x. has_hash j x ≡ true) xs
      → passing q xs ≡ 0
  none_pass q k j [] h apart all = refl
  none_pass q k j (x ∷ xs) h apart all = elim (Bool-cases (q x)) [
    | inl e ↦
        let yes_ = h x e in
        let no_ = is_hash-apart j k (hash x.0) all.0 apart in absurd (ground (arith, yes_, no_))
    | inr e ↦ rw e (none_pass q k j xs h apart all.1)
  ]

  -- In groups that are filed under the hashes of their files, the files with a hash are in its
  -- group.
  pub flatten-Keyed :
      (q : Entry → Bool) (k : String) (d : HashGroups)
      → ((x : Entry) → q x ≡ true → has_hash k x ≡ true)
      → Distinct (keys d)
      → Keyed (λ h x. has_hash h x ≡ true) d
      → passing q (flatten d) ≡ passing q (bucket k d)
  unfolding lookup
  flatten-Keyed q k [] h apart keyed = refl
  flatten-Keyed q k (g ∷ d) h apart keyed =
      let split = passing-append q g.1 (flatten d) in
      let rest = flatten-Keyed q k d h apart.1 keyed.1 in
      elim (Bool-cases (g.0 == k)) [
        | inl here ↦
            let eq = (text_key.eqb_iff g.0 k).0 here in
            let gone = ap (passing q) (bucket-missing d k (rw eq at apart.0)) in
            rw (bucket-cons g d k, here) (omega (arith, split, rest, gone))
        | inr there ↦
            let none_here = none_pass q k g.0 g.1 h there keyed.0 in
            rw (bucket-cons g d k, there) (omega (arith, split, rest, none_here))
      ]

  module _ (as_completed : List Entry → List Entry)
      (ends : (p : Entry → Bool) (xs : List Entry)
        → passing p (as_completed xs) ≡ passing p xs) where
    pub hash_files-Distinct :
        (xs : List Entry)
        → Distinct (keys (hash_files hash as_completed xs))
          × Keyed (λ h x. has_hash h x ≡ true) (hash_files hash as_completed xs)
    hash_files-Distinct [] = (tt, tt)
    hash_files-Distinct (x ∷ xs) =
        let hashed = with_hashes hash (as_completed (x ∷ xs)) in
        (
          keep_two-Distinct _ (append_all-Distinct (λ p. p.0) (λ p. p.1) hashed [] tt),
          All-filter _ (λ g. leb 2 (length g.1)) _
              (append_all-Keyed (λ p. p.0) (λ p. p.1) (λ h x. has_hash h x ≡ true) hashed []
                (with_hashes-All (as_completed (x ∷ xs))) tt),
        )

    hash_files-bucket :
        (h : String) (xs : List Entry)
        → (h == "") ≡ false
        → bucket h (hash_files hash as_completed xs)
          ≡ at_least_two (filter (has_hash h) (as_completed xs))
    unfolding lookup
    hash_files-bucket h [] full =
        let few : leb 2 (passing (has_hash h) (as_completed [])) ≡ false =
          let zero_ = ends (has_hash h) [] in ground (arith, zero_) in
        rw few refl
    hash_files-bucket h (x ∷ xs) full =
        let hashed = with_hashes hash (as_completed (x ∷ xs)) in
        bucket-keep_two (append_all (λ p. p.0) (λ p. p.1) hashed []) h
          (append_all-Distinct (λ p. p.0) (λ p. p.1) hashed [] tt)
        ∙ ap at_least_two (
            bucket-append_all (λ p. p.0) (λ p. p.1) hashed [] h
            ∙ values_at-with_hashes h (as_completed (x ∷ xs)) full)

    -- When all workers end, a phase's group of a hash that is not empty holds the files of all its
    -- groups that have the hash, of whatever group, if there are at least two of them: for every
    -- test, the numbers of those that pass it agree. With fewer there is no such group.
    pub compute_hashes-has_hash {ℓ} :
        {K : Type ℓ} (groups : List (K × List Entry)) (h : String) (p : Entry → Bool)
        → (h == "") ≡ false
        → passing p (bucket h (compute_hashes hash as_completed groups)) ≡ (
            if leb 2 (passing (has_hash h) (flatten groups))
            then passing (λ x. has_hash h x && p x) (flatten groups)
            else 0)
    unfolding compute_hashes
    compute_hashes-has_hash groups h p full =
        let all = flatten groups in
        let ended = as_completed all in
        ap (passing p) (hash_files-bucket h all full)
        ∙ passing-at_least_two p (filter (has_hash h) ended)
        ∙ (λ i.
            if leb 2 (ends (has_hash h) all i)
            then (ap length
                    (filter-filter (has_hash h) p (λ x. has_hash h x && p x) ended (λ x. refl))
                  ∙ ends (λ x. has_hash h x && p x) all)
                i
            else 0)
