-- ===== src/Checkpoint/Heartbeat.antt =====
-- The heartbeat against the search for scans that have crashed.
use backhouse_dff.Base.{
  ℕ, ◌+◌, ◌*◌, ◌-◌, ◌≤◌, ◌≡◌, refl, ap, ◌∙◌, inl, inr, String, true, false, ◌&&◌, List, [], ◌∷◌,
  map, arith, if◌then◌else◌, ltb, ◌==◌, contains, text_key, Bool-cases, filter, &&-true, map-map,
  map-same, filter-map,
}
use backhouse_dff.Base.Sort.{sort_desc, sort_desc-map}
use backhouse_dff.Checkpoint.{
  ScanManifest, ScanSession, CheckpointDb, beat, beat_session, stale_ids, mark_stale_as_crashed,
  is_resumable, list_resumable_manifests, cutoff_days, resumable_statuses,
}

-- The sessions of a scan are not stale after a beat that is at or after the cutoff.
stale_ids-beat :
    (now cutoff : ℕ) (id : String) (sessions : List ScanSession)
    → cutoff ≤ now
    → contains (stale_ids cutoff (map (beat_session now id) sessions)) id ≡ false
stale_ids-beat now cutoff id [] h = refl
stale_ids-beat now cutoff id (s ∷ sessions) h = elim (Bool-cases (s.scan_id == id)) [
  | inl same ↦
      let fresh : ltb now cutoff ≡ false = ground (arith, h) in
      rw (same, fresh) (stale_ids-beat now cutoff id sessions h)
  | inr other ↦ elim (Bool-cases (ltb s.last_heartbeat cutoff)) [
    | inl old ↦ rw (other, old, other) (stale_ids-beat now cutoff id sessions h)
    | inr new ↦ rw (other, new) (stale_ids-beat now cutoff id sessions h)
  ]
]

-- The manifests of one scan.
abbrev pub manifests_of : String → CheckpointDb → List ScanManifest
manifests_of id db = filter (λ m. m.scan_id == id) db.scan_manifests

-- The change of one row.
abbrev crash_row : ℕ → List String → ScanManifest → ScanManifest
crash_row now stale m =
    if m.status == "active" && contains stale m.scan_id
    then record m { status = "crashed"; updated_at = now }
    else m

crash_row-other :
    (now : ℕ) (stale : List String) (id : String) (m : ScanManifest)
    → contains stale id ≡ false
    → m.scan_id ≡ id
    → crash_row now stale m ≡ m
crash_row-other now stale id m h same =
    let out : contains stale m.scan_id ≡ false = rw same h in
    elim (Bool-cases (m.status == "active")) [ inl e ↦ rw (e, out) refl | inr e ↦ rw e refl ]

-- What no change of the mark touches.
crash_row-scan_id :
    (now : ℕ) (stale : List String) (m : ScanManifest) → (crash_row now stale m).scan_id ≡ m.scan_id
crash_row-scan_id now stale m =
    elim (Bool-cases (m.status == "active" && contains stale m.scan_id)) [
      | inl e ↦ rw e refl
      | inr e ↦ rw e refl
    ]

crash_row-created_at :
    (now : ℕ) (stale : List String) (m : ScanManifest)
    → (crash_row now stale m).created_at ≡ m.created_at
crash_row-created_at now stale m =
    elim (Bool-cases (m.status == "active" && contains stale m.scan_id)) [
      | inl e ↦ rw e refl
      | inr e ↦ rw e refl
    ]

active-resumable :
    (m : ScanManifest) → (m.status == "active") ≡ true → contains resumable_statuses m.status ≡ true
active-resumable m h = rw ((text_key.eqb_iff m.status "active").0 h) refl

crash_row-is_resumable :
    (cutoff now : ℕ) (stale : List String) (m : ScanManifest)
    → is_resumable cutoff (crash_row now stale m) ≡ is_resumable cutoff m
crash_row-is_resumable cutoff now stale m =
    elim (Bool-cases (m.status == "active" && contains stale m.scan_id)) [
      | inl e ↦ rw (e, active-resumable m (&&-true _ _ e).0) refl
      | inr e ↦ rw e refl
    ]

crash_row-filter :
    (now : ℕ) (stale : List String) (id : String) (ms : List ScanManifest)
    → contains stale id ≡ false
    → filter (λ m. m.scan_id == id) (map (crash_row now stale) ms)
      ≡ filter (λ m. m.scan_id == id) ms
crash_row-filter now stale id [] h = refl
crash_row-filter now stale id (m ∷ ms) h = elim (Bool-cases (m.scan_id == id)) [
  | inl same ↦
      rw (crash_row-other now stale id m h ((text_key.eqb_iff m.scan_id id).0 same), same)
        (ap (◌∷◌ m) (crash_row-filter now stale id ms h))
  | inr other ↦ rw (crash_row-scan_id now stale m, other) (crash_row-filter now stale id ms h)
]

-- A scan that beats at some time is left as it is by a search for crashed scans that runs within
-- the stale minutes after it.
pub beat-mark_stale_as_crashed :
    (beat_time now stale_minutes : ℕ) (id : String) (db : CheckpointDb)
    → now ≤ beat_time + stale_minutes * 60
    → manifests_of id (mark_stale_as_crashed now stale_minutes (beat beat_time id db))
      ≡ manifests_of id db
beat-mark_stale_as_crashed beat_time now stale_minutes id db h =
    let cutoff = now - stale_minutes * 60 in
    crash_row-filter now (stale_ids cutoff (map (beat_session beat_time id) db.scan_sessions)) id
      db.scan_manifests (stale_ids-beat beat_time cutoff id db.scan_sessions (omega (arith, h)))

-- The search for crashed scans neither adds nor removes a scan that may be resumed, and keeps their
-- order.
pub list_resumable_manifests-mark_stale_as_crashed :
    (now stale_minutes later max_age_days : ℕ) (db : CheckpointDb)
    → map
        (λ m. m.scan_id)
        (list_resumable_manifests later max_age_days (mark_stale_as_crashed now stale_minutes db))
      ≡ map (λ m. m.scan_id) (list_resumable_manifests later max_age_days db)
unfolding list_resumable_manifests
list_resumable_manifests-mark_stale_as_crashed now stale_minutes later max_age_days db =
    let stale = stale_ids (now - stale_minutes * 60) db.scan_sessions in
    let change = crash_row now stale in
    let cutoff = cutoff_days later max_age_days in
    let kept = filter (is_resumable cutoff) db.scan_manifests in
    let sorted = sort_desc (λ m. m.created_at) kept in
    ap (λ ms. map (λ m. m.scan_id) (sort_desc (λ m. m.created_at) ms))
      (filter-map (is_resumable cutoff) change db.scan_manifests
        (crash_row-is_resumable cutoff now stale))
    ∙ ap (map (λ m. m.scan_id))
        (sort_desc-map (λ m. m.created_at) change (crash_row-created_at now stale) kept)
    ∙ map-map change (λ m. m.scan_id) sorted
    ∙ map-same (λ m. (change m).scan_id) (λ m. m.scan_id) sorted (crash_row-scan_id now stale)
