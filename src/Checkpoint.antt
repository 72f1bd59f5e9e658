-- ===== src/Checkpoint.antt =====
-- cerebro/v2/core/checkpoint_db.py: the tables of the checkpoint database and the manifests of the
-- scans. A table is the list of its rows in the order of their insertion, and a transaction is one
-- step. Times are whole seconds; texts that `json.dumps` makes are arguments.
pub mod Files
pub mod Resumable
pub mod Heartbeat
pub mod Writer
pub mod Written
pub mod Delivery
pub mod Seeding
pub mod Soundness
pub mod Artifacts
mod Tests
pub mod Owned
pub mod Completed
pub mod Purge
pub mod Consistency
pub mod Batches
use backhouse_dff.Base.{
  ℕ, ◌-◌, ◌*◌, String, Bool, ◌&&◌, Option, none, some, List, [], ◌∷◌, ◌++◌, map, if◌then◌else◌, ltb,
  leb, ◌==◌, contains, text_key, filter,
}
use backhouse_dff.Base.Sort.{sort_desc}

pub record ScanManifest : Type 0 where
  pub scan_id : String
  pub created_at : ℕ
  pub updated_at : ℕ
  pub root_paths : String
  pub scope_json : String
  pub status : String
  pub label : String
  pub total_files : ℕ
  pub completed_files : ℕ

pub record ScanSession : Type 0 where
  pub scan_id : String
  pub last_heartbeat : ℕ
  pub status : String

pub record FileCheckpoint : Type 0 where
  pub scan_id : String
  pub file_path : String
  pub file_size : ℕ
  pub last_modified : ℕ
  pub file_hash : Option String
  pub hash_status : String
  pub group_id : Option String
  pub updated_at : ℕ

pub record PhaseArtifact : Type 0 where
  pub artifact_json : String
  pub version_hash : String
  pub created_at : ℕ

pub record CheckpointDb : Type 0 where
  pub scan_manifests : List ScanManifest
  pub scan_sessions : List ScanSession
  pub file_checkpoints : List FileCheckpoint
  pub phase_artifacts : List ((String × String) × PhaseArtifact)

abbrev pub empty_db : CheckpointDb
empty_db = record {
  scan_manifests = [];
  scan_sessions = [];
  file_checkpoints = [];
  phase_artifacts = [];
}

-- The new manifest's row, with the defaults of the schema.
abbrev pub new_manifest : String → ℕ → String → String → String → ScanManifest
new_manifest scan_id now roots_json scope_str label = record {
  scan_id = scan_id;
  created_at = now;
  updated_at = now;
  root_paths = roots_json;
  scope_json = scope_str;
  status = "active";
  label = label;
  total_files = 0;
  completed_files = 0;
}

-- `scan_id` is the text of a new `uuid4`, which no table holds yet.
abbrev pub create_manifest : String → ℕ → String → String → String → CheckpointDb → CheckpointDb
create_manifest scan_id now roots_json scope_str label db = record db {
  scan_manifests = db.scan_manifests ++ new_manifest scan_id now roots_json scope_str label ∷ [];
  scan_sessions =
      db.scan_sessions
      ++ record { scan_id = scan_id; last_heartbeat = now; status = "running" } ∷ [];
}

-- `status IN ('active', 'paused', 'crashed', 'indexed') AND created_at >= cutoff AND total_files > 0`
abbrev pub resumable_statuses : List String
resumable_statuses = "active" ∷ "paused" ∷ "crashed" ∷ "indexed" ∷ []

abbrev pub is_resumable : ℕ → ScanManifest → Bool
is_resumable cutoff m =
    contains resumable_statuses m.status && leb cutoff m.created_at && ltb 0 m.total_files

-- `time.time() - max_age_days * 86400`
abbrev pub cutoff_days : ℕ → ℕ → ℕ
cutoff_days now max_age_days = now - max_age_days * 86400

abbrev pub in_scope : String → String → ScanManifest → Bool
in_scope roots_json scope_str m = m.root_paths == roots_json && m.scope_json == scope_str

abbrev pub first_row {ℓ} : {A : Type ℓ} → List A → Option A
first_row [] = none
first_row (row ∷ rows) = some row

unfoldable pub find_resumable_manifest :
    ℕ → String → String → ℕ → CheckpointDb → Option ScanManifest
find_resumable_manifest now roots_json scope_str max_age_days db = first_row (
    sort_desc (λ m. m.created_at)
      (filter
        (λ m. in_scope roots_json scope_str m && is_resumable (cutoff_days now max_age_days) m)
        db.scan_manifests))

unfoldable pub list_resumable_manifests : ℕ → ℕ → CheckpointDb → List ScanManifest
list_resumable_manifests now max_age_days db =
    sort_desc (λ m. m.created_at)
      (filter (is_resumable (cutoff_days now max_age_days)) db.scan_manifests)

-- `UPDATE scan_manifests SET ... WHERE scan_id=?`
abbrev pub update_where :
    (ScanManifest → Bool) → (ScanManifest → ScanManifest) → CheckpointDb → CheckpointDb
update_where test change db = record db {
  scan_manifests = map (λ m. if test m then change m else m) db.scan_manifests;
}

abbrev pub update_manifest_status : ℕ → String → String → CheckpointDb → CheckpointDb
update_manifest_status now scan_id status db =
    update_where (λ m. m.scan_id == scan_id) (λ m. record m { status = status; updated_at = now })
      db

abbrev pub set_manifest_total : ℕ → String → ℕ → CheckpointDb → CheckpointDb
set_manifest_total now scan_id total db =
    update_where (λ m. m.scan_id == scan_id)
      (λ m. record m { total_files = total; updated_at = now }) db

abbrev pub beat_session : ℕ → String → ScanSession → ScanSession
beat_session now scan_id s = if s.scan_id == scan_id then record s { last_heartbeat = now } else s

abbrev pub beat : ℕ → String → CheckpointDb → CheckpointDb
beat now scan_id db = record db { scan_sessions = map (beat_session now scan_id) db.scan_sessions }

-- `SELECT scan_id FROM scan_sessions WHERE last_heartbeat < ?`
abbrev pub stale_ids : ℕ → List ScanSession → List String
stale_ids cutoff sessions =
    map (λ s. s.scan_id) (filter (λ s. ltb s.last_heartbeat cutoff) sessions)

abbrev pub mark_stale_as_crashed : ℕ → ℕ → CheckpointDb → CheckpointDb
mark_stale_as_crashed now stale_minutes db =
    let stale = stale_ids (now - stale_minutes * 60) db.scan_sessions in
    update_where (λ m. m.status == "active" && contains stale m.scan_id)
      (λ m. record m { status = "crashed"; updated_at = now }) db
