-- ===== src/Checkpoint/Purge.antt =====
-- What the purge of old scans keeps.
use backhouse_dff.Base.{
  ℕ, ◌≡◌, refl, ap, inl, inr, String, Bool, true, false, ◌&&◌, ◌||◌, not, List, [], ◌∷◌, map, arith,
  ltb, leb, ◌==◌, text_key, eqb_refl, contains, Distinct, filter, All, Bool-cases, &&-true,
}
use backhouse_dff.Base.Sort.{sort_desc}
use backhouse_dff.Checkpoint.{
  ScanManifest, CheckpointDb, cutoff_days, is_resumable, list_resumable_manifests,
}
use backhouse_dff.Checkpoint.Artifacts.{abandoned_ids, purge_old_scans}

abbrev pub ids_of : List ScanManifest → List String
ids_of = map (λ m. m.scan_id)

eqb_symm : (a b : String) → (a == b) ≡ (b == a)
eqb_symm a b = ground (arith, text_key.eqb_iff a b, text_key.eqb_iff b a)

-- A scan that is not in the table is not in a part of it.
contains-ids_of-filter :
    (p : ScanManifest → Bool) (ms : List ScanManifest) (id : String)
    → contains (ids_of ms) id ≡ false
    → contains (ids_of (filter p ms)) id ≡ false
contains-ids_of-filter p [] id h = refl
contains-ids_of-filter p (m ∷ ms) id h = elim (Bool-cases (p m)) [
  | inl e ↦ rw e (ground (arith, h, contains-ids_of-filter p ms id))
  | inr e ↦ rw e (contains-ids_of-filter p ms id (ground (arith, h)))
]

-- The other scans have other ids.
contains-ids_of-All :
    (id : String) (ms : List ScanManifest)
    → contains (ids_of ms) id ≡ false
    → All (λ m. (id == m.scan_id) ≡ false) ms
contains-ids_of-All id [] h = tt
contains-ids_of-All id (m ∷ ms) h =
    let turn = eqb_symm id m.scan_id in
    (ground (arith, h, turn), contains-ids_of-All id ms (ground (arith, h)))

with_ids :
    (p : ScanManifest → Bool) {ids others : List String}
    → ids ≡ others
    → (xs : List ScanManifest) → All (λ m. contains others m.scan_id ≡ p m) xs
    → All (λ m. contains ids m.scan_id ≡ p m) xs
with_ids p same xs h = rw same h

-- With distinct ids, the ids of the rows that pass a test are those of no other rows.
ids_of-filter-All :
    (p : ScanManifest → Bool) (ms : List ScanManifest)
    → Distinct (ids_of ms)
    → All (λ m. contains (ids_of (filter p ms)) m.scan_id ≡ p m) ms
ids_of-filter-All p [] h = tt
ids_of-filter-All p (m ∷ ms) h = elim (Bool-cases (p m)) [
  | inl e ↦
      let first : ids_of (filter p (m ∷ ms)) ≡ m.scan_id ∷ ids_of (filter p ms) = rw e refl in
      with_ids p first (m ∷ ms) (
        (let same = eqb_refl m.scan_id in rw (same, e) refl),
        both ms (contains-ids_of-All m.scan_id ms h.0) (ids_of-filter-All p ms h.1),
      )
  | inr e ↦
      let first : ids_of (filter p (m ∷ ms)) ≡ ids_of (filter p ms) = rw e refl in
      with_ids p first (m ∷ ms)
        (rw e (contains-ids_of-filter p ms m.scan_id h.0), ids_of-filter-All p ms h.1)
]
  where
    both :
        (xs : List ScanManifest)
        → All (λ x. (m.scan_id == x.scan_id) ≡ false) xs
        → All (λ x. contains (ids_of (filter p ms)) x.scan_id ≡ p x) xs
        → All (λ x. (m.scan_id == x.scan_id || contains (ids_of (filter p ms)) x.scan_id) ≡ p x) xs
    both [] d k = tt
    both (x ∷ xs) d k = ((rw (d.0) k.0), both xs d.1 k.1)

filter-kept :
    (r p q : ScanManifest → Bool) (ms : List ScanManifest)
    → ((m : ScanManifest) → r m ≡ true → p m ≡ false)
    → All (λ m. q m ≡ p m) ms
    → filter r (filter (λ m. not (q m)) ms) ≡ filter r ms
filter-kept r p q [] apart h = refl
filter-kept r p q (m ∷ ms) apart h = elim (Bool-cases (r m)) [
  | inl e ↦ rw (h.0, apart m e, e) (ap (◌∷◌ m) (filter-kept r p q ms apart h.1))
  | inr e ↦ elim (Bool-cases (p m)) [
    | inl gone ↦ rw (h.0, gone, e) (filter-kept r p q ms apart h.1)
    | inr kept ↦ rw (h.0, kept, e) (filter-kept r p q ms apart h.1)
  ]
]

resumable-recent :
    (cutoff : ℕ) (m : ScanManifest)
    → is_resumable cutoff m ≡ true
    → (not (m.status == "completed") && ltb m.created_at cutoff) ≡ false
resumable-recent cutoff m h =
    let young : leb cutoff m.created_at ≡ true = (&&-true _ _ (&&-true _ _ h).0).1 in
    ground (arith, young)

-- When no two manifests have one id, a purge leaves exactly the scans that may be resumed at that
-- time within the same number of days, in the same order.
pub list_resumable_manifests-purge_old_scans :
    (now max_age_days : ℕ) (db : CheckpointDb)
    → Distinct (ids_of db.scan_manifests)
    → list_resumable_manifests now max_age_days (purge_old_scans now max_age_days db).0
      ≡ list_resumable_manifests now max_age_days db
unfolding list_resumable_manifests purge_old_scans
list_resumable_manifests-purge_old_scans now max_age_days db h =
    let cutoff = cutoff_days now max_age_days in
    let abandoned : ScanManifest → Bool =
      λ m. not (m.status == "completed") && ltb m.created_at cutoff in
    ap (sort_desc (λ m. m.created_at)) (
      filter-kept (is_resumable cutoff) abandoned
        (λ m. contains (abandoned_ids cutoff db) m.scan_id) db.scan_manifests
        (resumable-recent cutoff) (ids_of-filter-All abandoned db.scan_manifests h))
