-- ===== src/Turbo/Survivors.antt =====
-- The filter by prefixes keeps the files that have a twin.
use backhouse_dff.Base.{
  ℕ, ◌*◌, ◌≤◌, ◌≡◌, refl, ap, ◌∙◌, sym, inl, inr, String, Bool, true, false, ◌&&◌, not, Option,
  some, List, [], ◌∷◌, ◌++◌, arith, if◌then◌else◌, length, ltb, nat_key, text_key, pair_key, KeyEq,
  ◌==◌, eqb_refl, contains, Bool-cases, contains-append, nat_beq_iff, or_right, some-inj,
}
use backhouse_dff.Base.Dict.{insert, lookup}
use backhouse_dff.Base.Buckets.{
  bucket, append_all, values_at, bucket-append_all, bucket-insert, bucket-cons,
}
use backhouse_dff.Turbo.Grouping.{Entry, Groups}
use backhouse_dff.Turbo.Prefix.{
  Job, jobs_of, all_jobs, hash_or_error, survivors_of, PrefixConfig, tier_a_size, prefix_bytes,
  candidates_in, hash_of, flat_key, job_entry, filter_flat, filter_adaptive, apply_tier_a_filter,
}
use backhouse_dff.Turbo.Jobs.{
  passing, passing-cong, passing-map, contains-passing, all_jobs-passing, values_at-length,
  values_at-contains,
}

-- An entry among the survivors of a size stays there.
abbrev pub Kept : ℕ → Entry → Groups → Type 0
Kept r x survivors = contains (bucket r survivors) x ≡ true

extend-Kept :
    (r key : ℕ) (x : Entry) (paths : List Entry) (survivors : Groups)
    → Kept r x survivors
    → Kept r x (insert key (bucket key survivors ++ paths) survivors)
extend-Kept r key x paths survivors h = elim (Bool-cases (key == r)) [
  | inl here ↦
      let eq = (nat_beq_iff key r).0 here in
      let back : r ≡ key = sym eq in
      let old = rw back at h in
      rw (bucket-insert key r (bucket key survivors ++ paths) survivors, here)
        (rw (contains-append (bucket key survivors) paths x, old) refl)
  | inr there ↦ rw (bucket-insert key r (bucket key survivors ++ paths) survivors, there) h
]

module _ {ℓ} {K : Type ℓ} ⦃e : KeyEq K⦄ (size_key : K → ℕ) where
  survivors_of-Kept :
      (keyed : List (K × List Entry)) (r : ℕ) (x : Entry) (survivors : Groups)
      → Kept r x survivors
      → Kept r x (survivors_of size_key keyed survivors)
  unfolding survivors_of
  survivors_of-Kept [] r x survivors h = h
  survivors_of-Kept (group ∷ rest) r x survivors h = elim (Bool-cases (ltb (length group.1) 2)) [
    | inl few ↦ rw few (survivors_of-Kept rest r x survivors h)
    | inr two ↦
        rw two
          (survivors_of-Kept rest r x _ (extend-Kept r (size_key group.0) x group.1 survivors h))
  ]

  survivors_of-new :
      (keyed : List (K × List Entry)) (k : K) (x : Entry) (survivors : Groups)
      → 2 ≤ length (bucket k keyed)
      → contains (bucket k keyed) x ≡ true
      → Kept (size_key k) x (survivors_of size_key keyed survivors)
  unfolding survivors_of lookup
  survivors_of-new [] k x survivors two h = absurd (omega (arith, two))
  survivors_of-new (group ∷ rest) k x survivors two h = elim (Bool-cases (group.0 == k)) [
    | inl here ↦
        let eq = (e.eqb_iff group.0 k).0 here in
        let at_k : bucket k (group ∷ rest) ≡ group.1 =
          bucket-cons group rest k ∙ ap (λ b. if b then group.1 else bucket k rest) here in
        let many : ltb (length group.1) 2 ≡ false = ground (arith, two, ap length at_k) in
        rw many (
          rw⁻¹ eq (
            survivors_of-Kept rest (size_key group.0) x _ (
              rw
                (
                  bucket-insert (size_key group.0) (size_key group.0)
                      (bucket (size_key group.0) survivors ++ group.1) survivors,
                  eqb_refl (size_key group.0),
                  contains-append (bucket (size_key group.0) survivors) group.1 x,
                )
                (or_right _ (rw at_k at h)))))
    | inr there ↦
        let at_k : bucket k (group ∷ rest) ≡ bucket k rest =
          bucket-cons group rest k ∙ ap (λ b. if b then group.1 else bucket k rest) there in
        survivors_of-new rest k x _ (omega (arith, two, ap length at_k)) (rw at_k at h)
  ]

module _ (prefix_hash : ℕ → String → Option String) (as_completed : List Job → List Job)
    (ends : (p : Job → Bool) (jobs : List Job)
      → passing p (as_completed jobs) ≡ passing p jobs) where
  -- The entries of a group whose prefixes have the hash of an entry's.
  abbrev pub twins : ℕ → Entry → List Entry → ℕ
  twins nbytes x paths =
      passing
        (λ y. hash_or_error (prefix_hash nbytes y.0) == hash_or_error (prefix_hash nbytes x.0))
        paths

  as_completed-contains :
      (jobs : List Job) (job : Job)
      → contains jobs job ≡ true
      → contains (as_completed jobs) job ≡ true
  as_completed-contains jobs job h =
      (contains-passing (as_completed jobs) job).1
        (omega (arith, ends (λ j. j == job) jobs, (contains-passing jobs job).0 h))

  keyed-Kept {ℓ} :
      {K : Type ℓ} ⦃e : KeyEq K⦄ (key : Job → K) (size_key : K → ℕ) (jobs : List Job) (job : Job)
      (survivors : Groups)
      → contains jobs job ≡ true
      → 2 ≤ passing (λ j. key j == key job) jobs
      → Kept
          (size_key (key job))
          job.1
          (survivors_of size_key (append_all key job_entry (as_completed jobs) []) survivors)
  unfolding lookup
  keyed-Kept key size_key jobs job survivors h two =
      let k = key job in
      let ended = as_completed jobs in
      let all : bucket k (append_all key job_entry ended []) ≡ values_at key job_entry k ended =
        bucket-append_all key job_entry ended [] k in
      survivors_of-new size_key (append_all key job_entry ended []) k job.1 survivors
        (omega
          (arith, ap length all, values_at-length key ended k, ends (λ j. key j == k) jobs, two))
        (rw all (values_at-contains key ended job (as_completed-contains jobs job h)))

  abbrev same_job : Job → Job → Bool
  same_job j k = j == k

  abbrev same_entry : Entry → Entry → Bool
  same_entry x y = x == y

  jobs_of-passing :
      (r : ℕ) (paths : List Entry) (x : Entry)
      → passing (λ y. same_job (r, y) (r, x)) paths ≡ passing (λ y. same_entry y x) paths
  jobs_of-passing r paths x =
      passing-cong (λ y. same_job (r, y) (r, x)) (λ y. same_entry y x) paths
        (λ y. rw (eqb_refl r) refl)

  filter_flat-Kept :
      (groups : Groups) (r : ℕ) (paths : List Entry) (x : Entry)
      → lookup r groups ≡ some paths
      → contains paths x ≡ true
      → 2 ≤ twins tier_a_size x paths
      → Kept r x (filter_flat prefix_hash as_completed groups)
  unfolding filter_flat
  filter_flat-Kept groups r paths x at_r h two =
      let key = flat_key prefix_hash as_completed in
      let same = λ (y : Entry).
        hash_or_error (prefix_hash tier_a_size y.0)
        == hash_or_error (prefix_hash tier_a_size x.0) in
      let keys =
        passing-cong (λ y. key (r, y) == key (r, x)) same paths (λ y. rw (eqb_refl r) refl) in
      keyed-Kept key (λ k. k.0) (all_jobs groups) (r, x) []
        ((contains-passing (all_jobs groups) (r, x)).1 (
          omega (
            arith,
            all_jobs-passing (λ j. j == (r, x)) groups r paths at_r,
            jobs_of-passing r paths x,
            (contains-passing paths x).0 h,
          )))
        (omega (arith, all_jobs-passing (λ j. key j == key (r, x)) groups r paths at_r, keys, two))

  filter_adaptive-keeps :
      (groups : Groups) (r : ℕ) (x : Entry) (survivors : Groups)
      → Kept r x survivors
      → Kept r x (filter_adaptive prefix_hash as_completed groups survivors)
  unfolding filter_adaptive
  filter_adaptive-keeps [] r x survivors h = h
  filter_adaptive-keeps (g ∷ rest) r x survivors h =
      filter_adaptive-keeps rest r x _ (survivors_of-Kept {K = String} (λ _. g.0) _ r x survivors h)

  filter_adaptive-Kept :
      (groups : Groups) (r : ℕ) (paths : List Entry) (x : Entry) (survivors : Groups)
      → lookup r groups ≡ some paths
      → contains paths x ≡ true
      → 2 ≤ twins (prefix_bytes r paths) x paths
      → Kept r x (filter_adaptive prefix_hash as_completed groups survivors)
  unfolding filter_adaptive lookup
  filter_adaptive-Kept [] r paths x survivors at_r h two = ground arith
  filter_adaptive-Kept (g ∷ rest) r paths x survivors at_r h two = elim (Bool-cases (g.0 == r)) [
    | inl here ↦
        let eq = (nat_beq_iff g.0 r).0 here in
        let first : g.1 ≡ paths = some-inj (rw here at at_r) in
        rw (eq, first)
          (filter_adaptive-keeps rest r x _ (
            keyed-Kept (hash_of prefix_hash as_completed (prefix_bytes r paths)) (λ _. r)
              (jobs_of r paths) (r, x) survivors
              ((contains-passing (jobs_of r paths) (r, x)).1 (
                omega (
                  arith,
                  passing-map (λ y. (r, y)) (λ j. same_job j (r, x)) paths,
                  jobs_of-passing r paths x,
                  (contains-passing paths x).0 h,
                )))
              (omega (
                arith,
                passing-map (λ y. (r, y))
                    (λ j.
                      hash_of prefix_hash as_completed (prefix_bytes r paths) j
                      == hash_of prefix_hash as_completed (prefix_bytes r paths) (r, x))
                    paths,
                two,
              ))))
    | inr there ↦ filter_adaptive-Kept rest r paths x _ (rw there at at_r) h two
  ]

  -- Whatever the options and the order in which the workers end, if each job ends once, and
  -- cancelled or not, the filter keeps a file of a size group if another one of the group has the
  -- same hash, over the prefix that the flat way reads and over the one that the adaptive way
  -- reads.
  pub apply_tier_a_filter-Kept :
      (config : PrefixConfig) (cancelled : Bool) (discovered_count : ℕ) (groups : Groups) (r : ℕ)
      (paths : List Entry) (x : Entry)
      → lookup r groups ≡ some paths
      → contains paths x ≡ true
      → 2 ≤ twins tier_a_size x paths
      → 2 ≤ twins (prefix_bytes r paths) x paths
      → Kept r x
          (apply_tier_a_filter prefix_hash as_completed config cancelled discovered_count groups)
  unfolding apply_tier_a_filter
  apply_tier_a_filter-Kept config cancelled discovered groups r paths x at_r h flat adaptive =
      let same : Kept r x groups = rw (at_r, bucket) h in
      let a = filter_flat-Kept groups r paths x at_r h flat in
      let b = filter_adaptive-Kept groups r paths x [] at_r h adaptive in
      branch (ltb (candidates_in groups) 2) _ _ same (
        branch (not config.use_quick_hash) _ _ same (
          branch (ltb 0 discovered && ltb (candidates_in groups * 50) discovered) _ _ same
            (branch cancelled _ _ same (branch config.enable_tier_a_adaptive _ _ b a))))
    where
      branch : (b : Bool) (P Q : Groups) → Kept r x P → Kept r x Q → Kept r x (if b then P else Q)
      branch true P Q p q = p
      branch false P Q p q = q
