-- ===== src/Checkpoint/Files.antt =====
-- cerebro/v2/core/checkpoint_db.py: the rows of the files, from their bulk insertion to the batches
-- that a resumed scan reads, their counts and the check of their consistency.
use backhouse_dff.Base.{
  ℕ, zero, suc, ◌+◌, ◌-◌, String, Bool, true, false, ◌&&◌, ◌||◌, contains, Option, none, some, List,
  [], ◌∷◌, ◌++◌, map, if◌then◌else◌, ltb, nat_beq, ◌==◌, text_key, filter, any, length, take, drop,
}
use Prim.Native.Nat.{Ordering}
use Prim.Native.String.{compare}
use backhouse_dff.Base.Sort.{sort_desc, sort_by}
use backhouse_dff.Checkpoint.{FileCheckpoint, CheckpointDb, update_where}

-- `(path, size, mtime)`
pub record PendingFile : Type 0 where
  pub path : String
  pub size : ℕ
  pub mtime : ℕ

abbrev pub pending_row : ℕ → String → PendingFile → FileCheckpoint
pending_row now scan_id file = record {
  scan_id = scan_id;
  file_path = file.path;
  file_size = file.size;
  last_modified = file.mtime;
  file_hash = none;
  hash_status = "pending";
  group_id = none;
  updated_at = now;
}

-- Whether a row has the primary key.
abbrev pub has_key : String → String → FileCheckpoint → Bool
has_key scan_id path row = row.scan_id == scan_id && row.file_path == path

-- `INSERT OR IGNORE`
abbrev pub insert_or_ignore : FileCheckpoint → List FileCheckpoint → List FileCheckpoint
insert_or_ignore row table =
    if any (has_key row.scan_id row.file_path) table then table else table ++ row ∷ []

unfoldable pub insert_rows : List FileCheckpoint → List FileCheckpoint → List FileCheckpoint
insert_rows [] table = table
insert_rows (row ∷ rows) table = insert_rows rows (insert_or_ignore row table)

-- The chunks from the current offset on, at most as many as the fuel, and the number inserted.
unfoldable pub insert_chunks :
    ℕ → ℕ → ℕ → String → List PendingFile → List FileCheckpoint × ℕ → List FileCheckpoint × ℕ
insert_chunks zero chunk_size now scan_id files state = state
insert_chunks (suc fuel) chunk_size now scan_id [] state = state
insert_chunks (suc fuel) chunk_size now scan_id (file ∷ files) (table, inserted) =
    let chunk = take chunk_size (file ∷ files) in
    insert_chunks fuel chunk_size now scan_id (drop chunk_size (file ∷ files))
      (insert_rows (map (pending_row now scan_id) chunk) table, inserted + length chunk)

abbrev pub of_scan : String → FileCheckpoint → Bool
of_scan scan_id row = row.scan_id == scan_id

abbrev pub count_rows : String → List FileCheckpoint → ℕ
count_rows scan_id table = length (filter (of_scan scan_id) table)

-- The batch in chunks of at least one file; with `update_total` the manifest's total is counted.
unfoldable pub insert_pending_files_batch :
    ℕ → String → List PendingFile → Bool → ℕ → CheckpointDb → CheckpointDb × ℕ
insert_pending_files_batch now scan_id [] update_total chunk_size db = (db, 0)
insert_pending_files_batch now scan_id (file ∷ files) update_total chunk_size db =
    let result =
      insert_chunks (suc (length files)) chunk_size now scan_id (file ∷ files)
        (db.file_checkpoints, 0) in
    let stored = record db { file_checkpoints = result.0 } in
    let counted =
      update_where (λ m. m.scan_id == scan_id)
        (λ m. record m { total_files = count_rows scan_id result.0; updated_at = now }) stored in
    (if update_total then counted else stored, result.1)

abbrev pub insert_pending_files : ℕ → String → List PendingFile → CheckpointDb → CheckpointDb
insert_pending_files now scan_id files db =
    (insert_pending_files_batch now scan_id files true 5000 db).0

-- `SUM(CASE WHEN hash_status=? THEN 1 ELSE 0 END)` over a scan's rows
abbrev pub count_status : String → String → List FileCheckpoint → ℕ
count_status status scan_id table =
    length (filter (λ row. row.hash_status == status) (filter (of_scan scan_id) table))

abbrev pub get_counts : String → CheckpointDb → ℕ × ℕ
get_counts scan_id db =
    (count_rows scan_id db.file_checkpoints, count_status "pending" scan_id db.file_checkpoints)

abbrev pub count_files : String → CheckpointDb → ℕ
count_files scan_id db = (get_counts scan_id db).0

abbrev pub verify_consistency : String → CheckpointDb → Bool
verify_consistency scan_id db = nat_beq (count_rows scan_id db.file_checkpoints) (
    count_status "pending" scan_id db.file_checkpoints
    + count_status "complete" scan_id db.file_checkpoints
    + count_status "error" scan_id db.file_checkpoints)

abbrev pub is_some : Option String → Bool
is_some none = false
is_some (some text) = true

-- `WHERE scan_id=? AND hash_status='pending' ORDER BY file_size DESC`
abbrev pub pending_rows : String → CheckpointDb → List FileCheckpoint
pending_rows scan_id db =
    sort_desc (λ row. row.file_size)
      (filter (λ row. of_scan scan_id row && row.hash_status == "pending") db.file_checkpoints)

abbrev pub text_less : String → String → Bool
text_less a b = elim (compare a b) [ Ordering.lt ↦ true | _ ↦ false ]

-- `WHERE scan_id=? AND hash_status='complete' AND file_hash IS NOT NULL ORDER BY file_path`
abbrev pub completed_rows : String → CheckpointDb → List FileCheckpoint
completed_rows scan_id db =
    sort_by (λ a b. text_less a.file_path b.file_path)
      (filter (λ row. of_scan scan_id row && row.hash_status == "complete" && is_some row.file_hash)
        db.file_checkpoints)

-- `ORDER BY file_size, file_path`
abbrev pub size_path_less : FileCheckpoint → FileCheckpoint → Bool
size_path_less a b =
    ltb a.file_size b.file_size
    || nat_beq a.file_size b.file_size && text_less a.file_path b.file_path

abbrev pub iter_files_by_size : String → List String → CheckpointDb → List FileCheckpoint
iter_files_by_size scan_id statuses db =
    sort_by size_path_less
      (filter (λ row. of_scan scan_id row && contains statuses row.hash_status) db.file_checkpoints)

-- The batches from an offset on, at most as many as the fuel. `rows_at n` is what the query selects
-- the `n`th time, since other threads write between the batches.
unfoldable pub row_batches : ℕ → (ℕ → List FileCheckpoint) → ℕ → ℕ → ℕ → List (List FileCheckpoint)
row_batches zero rows_at query batch_size offset = []
row_batches (suc fuel) rows_at query batch_size offset =
    let rows = take batch_size (drop offset (rows_at query)) in
    let later = row_batches fuel rows_at (suc query) batch_size (offset + batch_size) in
    if nat_beq (length rows) 0
    then []
    else if ltb (length rows) batch_size
    then rows ∷ []
    else rows ∷ later

-- `db_at n` is the database at the `n`th query.
unfoldable pub iter_pending_files : ℕ → (ℕ → CheckpointDb) → String → ℕ → List (List FileCheckpoint)
iter_pending_files fuel db_at scan_id batch_size =
    row_batches fuel (λ n. pending_rows scan_id (db_at n)) 0 batch_size 0

unfoldable pub iter_completed_hashes :
    ℕ → (ℕ → CheckpointDb) → String → ℕ → List (List FileCheckpoint)
iter_completed_hashes fuel db_at scan_id batch_size =
    row_batches fuel (λ n. completed_rows scan_id (db_at n)) 0 batch_size 0

-- `stat` is the size and the time of the last change of a file, `none` for an OSError.
abbrev pub validate_pending_file : (String → Option (ℕ × ℕ)) → String → ℕ → ℕ → Bool
validate_pending_file stat file_path stored_size stored_mtime = elim (stat file_path) [
  | none ↦ false
  | some (size, mtime) ↦
      nat_beq size stored_size && ltb (mtime - stored_mtime + (stored_mtime - mtime)) 2
]
