-- ===== src/Checkpoint/Artifacts.antt =====
-- cerebro/v2/core/checkpoint_db.py: the artifacts of a scan's phases, and what a scan leaves behind
-- when it is purged. `dumps` and `loads` are json's, `loads` with `none` for a ValueError.
use backhouse_dff.Base.{
  ℕ, String, ◌&&◌, not, Option, none, some, List, map, ◌≡◌, refl, inl, inr, Bool-cases,
  if◌then◌else◌, ltb, ◌==◌, text_key, pair_key, contains, filter, length,
}
use backhouse_dff.Base.Dict.{insert, lookup, lookup-insert}
use backhouse_dff.Checkpoint.{PhaseArtifact, CheckpointDb, cutoff_days}

module _ {D : Type 0} (dumps : D → String) (loads : String → Option D) where
  unfoldable pub save_phase_artifact :
      ℕ → String → String → D → String → CheckpointDb → CheckpointDb
  save_phase_artifact now scan_id phase_name entries version_hash db = record db {
    phase_artifacts =
        insert (scan_id, phase_name)
          (record { artifact_json = dumps entries; version_hash = version_hash; created_at = now })
          db.phase_artifacts;
  }

  abbrev pub load_row : String → Option PhaseArtifact → Option D
  load_row version_hash none = none
  load_row version_hash (some row) =
      if not (row.version_hash == version_hash) then none else loads row.artifact_json

  abbrev pub load_phase_artifact : String → String → String → CheckpointDb → Option D
  load_phase_artifact scan_id phase_name version_hash db =
      load_row version_hash (lookup (scan_id, phase_name) db.phase_artifacts)

  -- An artifact that is saved is loaded as it was, if `loads` reads what `dumps` writes, with the
  -- version that it was saved under and with no other; the artifacts of other scans and phases are
  -- loaded as before.
  pub load-save_phase_artifact :
      (now : ℕ) (scan_id phase_name : String) (entries : D) (version_hash : String)
      (db : CheckpointDb) (other_id other_phase asked : String)
      → ((d : D) → loads (dumps d) ≡ some d)
      → load_phase_artifact other_id other_phase asked
          (save_phase_artifact now scan_id phase_name entries version_hash db)
        ≡ (if scan_id == other_id && phase_name == other_phase
            then if version_hash == asked then some entries else none
            else load_phase_artifact other_id other_phase asked db)
  unfolding save_phase_artifact
  load-save_phase_artifact now scan_id phase_name entries version_hash db other_id other_phase asked
        h =
      let written =
        lookup-insert (scan_id, phase_name) (other_id, other_phase)
          (record { artifact_json = dumps entries; version_hash = version_hash; created_at = now })
          db.phase_artifacts in
      elim (Bool-cases (scan_id == other_id && phase_name == other_phase)) [
        | inl same ↦ elim (Bool-cases (version_hash == asked)) [
          | inl v ↦ rw (written, same, v) (h entries)
          | inr v ↦ rw (written, same, v) refl
        ]
        | inr other ↦ rw (written, other) refl
      ]

abbrev pub delete_phase_artifacts : String → CheckpointDb → CheckpointDb
delete_phase_artifacts scan_id db = record db {
  phase_artifacts = filter (λ entry. not (entry.0.0 == scan_id)) db.phase_artifacts;
}

-- `status != 'completed' AND created_at < ?`
abbrev pub abandoned_ids : ℕ → CheckpointDb → List String
abandoned_ids cutoff db =
    map (λ m. m.scan_id)
      (filter (λ m. not (m.status == "completed") && ltb m.created_at cutoff) db.scan_manifests)

-- `DELETE ... WHERE scan_id IN (...)` from every table
abbrev pub delete_scans : List String → CheckpointDb → CheckpointDb
delete_scans ids db = record {
  scan_manifests = filter (λ m. not (contains ids m.scan_id)) db.scan_manifests;
  scan_sessions = filter (λ s. not (contains ids s.scan_id)) db.scan_sessions;
  file_checkpoints = filter (λ row. not (contains ids row.scan_id)) db.file_checkpoints;
  phase_artifacts = filter (λ entry. not (contains ids entry.0.0)) db.phase_artifacts;
}

unfoldable pub purge_old_scans : ℕ → ℕ → CheckpointDb → CheckpointDb × ℕ
purge_old_scans now max_age_days db =
    let ids = abandoned_ids (cutoff_days now max_age_days) db in (delete_scans ids db, length ids)
