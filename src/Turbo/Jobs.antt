-- ===== src/Turbo/Jobs.antt =====
-- Counting the jobs of the filter by prefixes.
use backhouse_dff.Base.{
  ℕ, ◌≤◌, ◌≡◌, refl, ap, sym, inl, inr, Bool, true, some, List, [], ◌∷◌, arith, length, nat_key,
  text_key, pair_key, KeyEq, ◌==◌, eqb_refl, contains, Bool-cases, nat_beq_iff, map, filter,
  filter-append, length-append, or_right, some-inj, ◌↔◌,
}
use backhouse_dff.Base.Dict.{lookup}
use backhouse_dff.Base.Buckets.{values_at}
use backhouse_dff.Turbo.Grouping.{Entry, Groups}
use backhouse_dff.Turbo.Prefix.{Job, jobs_of, all_jobs, job_entry}

-- How many entries pass a test.
abbrev pub passing {ℓ} : {A : Type ℓ} → (A → Bool) → List A → ℕ
passing p xs = length (filter p xs)

pub passing-cong {ℓ} :
    {A : Type ℓ} (p q : A → Bool) (xs : List A)
    → ((x : A) → p x ≡ q x)
    → passing p xs ≡ passing q xs
passing-cong p q [] h = refl
passing-cong p q (x ∷ xs) h = ground (arith, passing-cong p q xs h, h x)

pub passing-map {ℓ κ} :
    {A : Type ℓ} {B : Type κ} (f : A → B) (p : B → Bool) (xs : List A)
    → passing p (map f xs) ≡ passing (λ x. p (f x)) xs
passing-map f p [] = refl
passing-map f p (x ∷ xs) = ground (arith, passing-map f p xs)

pub contains-passing {ℓ} :
    {A : Type ℓ} ⦃e : KeyEq A⦄ (xs : List A) (a : A)
    → (contains xs a ≡ true) ↔ (1 ≤ passing (λ x. x == a) xs)
contains-passing [] a = ground arith
contains-passing (x ∷ xs) a =
    let rest = contains-passing xs a in
    elim (Bool-cases (x == a)) [
      | inl here ↦ rw here ((λ h. omega arith), λ h. refl)
      | inr there ↦ rw there rest
    ]

pub all_jobs-passing :
    (p : Job → Bool) (groups : Groups) (r : ℕ) (paths : List Entry)
    → lookup r groups ≡ some paths
    → passing (λ y. p (r, y)) paths ≤ passing p (all_jobs groups)
unfolding lookup
all_jobs-passing p [] r paths h = ground arith
all_jobs-passing p (g ∷ rest) r paths h =
    let split = filter-append p (jobs_of g.0 g.1) (all_jobs rest) in
    let sum = length-append (filter p (jobs_of g.0 g.1)) (filter p (all_jobs rest)) in
    elim (Bool-cases (g.0 == r)) [
      | inl here ↦
          let eq = (nat_beq_iff g.0 r).0 here in
          let same : some g.1 ≡ some paths = rw here at h in
          let first = some-inj same in
          rw⁻¹ (eq, first) (omega (arith, passing-map (λ y. (g.0, y)) p g.1, ap length split, sum))
      | inr there ↦
          let later = all_jobs-passing p rest r paths (rw there at h) in
          omega (arith, later, ap length split, sum)
    ]

module _ {ℓ} {K : Type ℓ} ⦃e : KeyEq K⦄ (key : Job → K) where
  pub values_at-length :
      (jobs : List Job) (k : K)
      → length (values_at key job_entry k jobs) ≡ passing (λ j. key j == k) jobs
  values_at-length [] k = refl
  values_at-length (job ∷ jobs) k = ground (arith, values_at-length jobs k)

  pub values_at-contains :
      (jobs : List Job) (job : Job)
      → contains jobs job ≡ true
      → contains (values_at key job_entry (key job) jobs) job.1 ≡ true
  values_at-contains [] job h = ground arith
  values_at-contains (j ∷ jobs) job h = elim (Bool-cases (j == job)) [
    | inl here ↦
        let eq : j ≡ job = (pair_key.eqb_iff j job).0 here in
        let back : job ≡ j = sym eq in rw back (rw (eqb_refl (key j), eqb_refl j.1) refl)
    | inr there ↦
        let rest = values_at-contains jobs job (rw there at h) in
        elim (Bool-cases (key j == key job)) [
          | inl near ↦ rw near (or_right _ rest)
          | inr far ↦ rw far rest
        ]
  ]
