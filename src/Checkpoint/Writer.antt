-- ===== src/Checkpoint/Writer.antt =====
-- cerebro/v2/core/checkpoint_db.py: the queue of hash results and the thread that writes them.
-- The thread and the callers interleave in any order: a sequence of events. SQLite's writes succeed.
use backhouse_dff.Base.{
  ℕ, ◌+◌, String, Bool, Option, List, [], ◌∷◌, ◌++◌, map, if◌then◌else◌, ltb, nat_beq, ◌==◌,
  text_key, filter, length,
}
use backhouse_dff.Checkpoint.{FileCheckpoint, CheckpointDb, update_where}
use backhouse_dff.Checkpoint.Files.{has_key, PendingFile, insert_pending_files_batch}

pub record HashResult : Type 0 where
  pub scan_id : String
  pub file_path : String
  pub file_hash : Option String
  pub group_id : Option String
  pub status : String
  pub ts : ℕ

abbrev pub flush_batch : ℕ
flush_batch = 500

-- `UPDATE file_checkpoints SET ... WHERE scan_id=? AND file_path=?`, on one row
abbrev pub write_row : HashResult → FileCheckpoint → FileCheckpoint
write_row item row =
    if has_key item.scan_id item.file_path row
    then record row {
      file_hash = item.file_hash;
      group_id = item.group_id;
      hash_status = item.status;
      updated_at = item.ts;
    }
    else row

unfoldable pub write_rows : List HashResult → List FileCheckpoint → List FileCheckpoint
write_rows [] table = table
write_rows (item ∷ items) table = write_rows items (map (write_row item) table)

-- `sum(1 for item in items if item[4] == "complete")`
abbrev pub completed_count : List HashResult → ℕ
completed_count items = length (filter (λ item. item.status == "complete") items)

-- The count goes to the scan of the first item.
abbrev pub count_completed : ℕ → List HashResult → CheckpointDb → CheckpointDb
count_completed now [] db = db
count_completed now (item ∷ items) db =
    let n = completed_count (item ∷ items) in
    if nat_beq n 0
    then db
    else update_where (λ m. m.scan_id == item.scan_id)
        (λ m. record m { completed_files = m.completed_files + n; updated_at = now }) db

unfoldable pub flush_items : ℕ → List HashResult → CheckpointDb → CheckpointDb
flush_items now items db =
    count_completed now items
      (record db { file_checkpoints = write_rows items db.file_checkpoints })

-- The database, the queue and the items that the thread has taken and not yet written.
pub record WriterStore : Type 0 where
  pub db : CheckpointDb
  pub write_queue : List HashResult
  pub pending : List HashResult

-- `enqueued` is a call of enqueue_hash_result, `taken` one turn of the thread's inner loop, which
-- takes an item if there is one, `written` the end of that loop, `synced` a call of flush_sync, and
-- `seeded` one of insert_pending_files_batch with an update of the total.
pub data WriterEvent : Type 0 where
  enqueued : HashResult → WriterEvent
  taken : WriterEvent
  written synced : ℕ → WriterEvent
  seeded : ℕ → String → List PendingFile → ℕ → WriterEvent

-- `self._write_queue.get`, while the batch is not full.
abbrev pub take_first : List HashResult → WriterStore → WriterStore
take_first [] s = s
take_first (item ∷ queue) s =
    if ltb (length s.pending) flush_batch
    then record s { write_queue = queue; pending = s.pending ++ item ∷ [] }
    else s

abbrev pub take_item : WriterStore → WriterStore
take_item s = take_first s.write_queue s

abbrev pub flush_pending : ℕ → WriterStore → WriterStore
flush_pending now s = record s { db = flush_items now s.pending s.db; pending = [] }

abbrev pub flush_sync : ℕ → WriterStore → WriterStore
flush_sync now s = record s { db = flush_items now s.write_queue s.db; write_queue = [] }

abbrev pub writer_step : WriterEvent → WriterStore → WriterStore
writer_step (enqueued item) s = record s { write_queue = s.write_queue ++ item ∷ [] }
writer_step taken s = take_item s
writer_step (written now) s = flush_pending now s
writer_step (synced now) s = flush_sync now s
writer_step (seeded now scan_id files chunk_size) s = record s {
  db = (insert_pending_files_batch now scan_id files Bool.true chunk_size s.db).0;
}

-- The store after the events.
unfoldable pub run_writer : List WriterEvent → WriterStore → WriterStore
run_writer [] s = s
run_writer (event ∷ events) s = run_writer events (writer_step event s)

-- The end of the thread: it writes what it has taken, then what is left in the queue. A `close` of
-- the database waits for it, for five seconds at most; what is not reached by then is not modelled.
abbrev pub writer_end : ℕ → List WriterEvent
writer_end now = written now ∷ synced now ∷ []
