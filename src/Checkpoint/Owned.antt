-- ===== src/Checkpoint/Owned.antt =====
-- No row is left without its scan.
use backhouse_dff.Base.{
  ℕ, ◌≡◌, refl, ◌∙◌, ap, inl, inr, String, Bool, true, not, List, [], ◌∷◌, ◌++◌, arith, text_key,
  eqb_refl, contains, contains-filter, contains-append, filter, All, All-map, All-append, or_left,
  Bool-cases,
}
use mathlib.Core.List.{map-append}
use backhouse_dff.Checkpoint.{
  ScanManifest, CheckpointDb, create_manifest, new_manifest, cutoff_days,
}
use backhouse_dff.Checkpoint.Artifacts.{purge_old_scans, abandoned_ids}
use backhouse_dff.Checkpoint.Purge.{ids_of}

-- The scans of a table's rows are among some scans.
abbrev pub Within : {A : Type 0} → List String → (A → String) → List A → Type 0
Within ids scan rows = All (λ row. contains ids (scan row) ≡ true) rows

-- Each session, file and artifact belongs to a manifest.
unfoldable pub IsOwned : CheckpointDb → Type 0
IsOwned db =
    Within (ids_of db.scan_manifests) (λ s. s.scan_id) db.scan_sessions
    × Within (ids_of db.scan_manifests) (λ row. row.scan_id) db.file_checkpoints
    × Within (ids_of db.scan_manifests) (λ entry. entry.0.0) db.phase_artifacts

ids_of-filter :
    (p : String → Bool) (ms : List ScanManifest)
    → ids_of (filter (λ m. p m.scan_id) ms) ≡ filter p (ids_of ms)
ids_of-filter p [] = refl
ids_of-filter p (m ∷ ms) = elim (Bool-cases (p m.scan_id)) [
  | inl e ↦ rw e (ap (◌∷◌ m.scan_id) (ids_of-filter p ms))
  | inr e ↦ rw e (ids_of-filter p ms)
]

module _ {A : Type 0} (scan : A → String) where
  Within-delete :
      (gone : List String) (ms : List ScanManifest) (rows : List A)
      → Within (ids_of ms) scan rows
      → Within
          (ids_of (filter (λ m. not (contains gone m.scan_id)) ms))
          scan
          (filter (λ row. not (contains gone (scan row))) rows)
  Within-delete gone ms [] h = tt
  Within-delete gone ms (row ∷ rows) h = elim (Bool-cases (contains gone (scan row))) [
    | inl e ↦ rw e (Within-delete gone ms rows h.1)
    | inr e ↦
        let keeps : String → Bool = λ id. not (contains gone id) in
        let kept =
          ap (λ ids. contains ids (scan row)) (ids_of-filter keeps ms)
          ∙ contains-filter keeps (ids_of ms) (scan row) in
        rw e (kept ∙ rw (e, h.0) refl, Within-delete gone ms rows h.1)
  ]

  Within-more :
      (ids more : List String) (rows : List A)
      → Within ids scan rows
      → Within (ids ++ more) scan rows
  Within-more ids more rows h =
      All-map _ _ rows
        (λ row k. contains-append ids more (scan row) ∙ or_left (contains more (scan row)) k) h

-- A purge, and the creation of a scan, leave no session, file or artifact without its manifest when
-- there was none before.
pub purge_old_scans-IsOwned :
    (now max_age_days : ℕ) (scan_id roots_json scope_str label : String) (db : CheckpointDb)
    → IsOwned db
    → IsOwned (purge_old_scans now max_age_days db).0
      × IsOwned (create_manifest scan_id now roots_json scope_str label db)
unfolding IsOwned purge_old_scans
purge_old_scans-IsOwned now max_age_days scan_id roots_json scope_str label db h =
    let gone = abandoned_ids (cutoff_days now max_age_days) db in
    let ms = db.scan_manifests in
    let extra = scan_id ∷ [] in
    let ids =
      map-append (λ m. m.scan_id) ms (new_manifest scan_id now roots_json scope_str label ∷ []) in
    let own : contains (ids_of ms ++ extra) scan_id ≡ true =
      contains-append (ids_of ms) extra scan_id
      ∙ (let same = eqb_refl scan_id in rw same (ground arith)) in
    (
      (
        Within-delete (λ s. s.scan_id) gone ms db.scan_sessions h.0,
        Within-delete (λ row. row.scan_id) gone ms db.file_checkpoints h.1,
        Within-delete (λ entry. entry.0.0) gone ms db.phase_artifacts h.2,
      ),
      rw ids (
        All-append _ db.scan_sessions _
            (Within-more (λ s. s.scan_id) (ids_of ms) extra db.scan_sessions h.0) (own, tt),
        Within-more (λ row. row.scan_id) (ids_of ms) extra db.file_checkpoints h.1,
        Within-more (λ entry. entry.0.0) (ids_of ms) extra db.phase_artifacts h.2,
      ),
    )
