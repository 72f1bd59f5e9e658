-- ===== src/Checkpoint/Written.antt =====
-- What the writes of the queue leave in a row of the table.
use backhouse_dff.Base.{
  ℕ, zero, suc, ltb, sym, ◌≡◌, refl, ◌∙◌, ap, inl, inr, String, true, none, some, List, [], ◌∷◌,
  ◌++◌, map, length, take, drop, ◌+◌, Bool-cases,
}
use backhouse_dff.Checkpoint.{FileCheckpoint, CheckpointDb}
use backhouse_dff.Checkpoint.Files.{
  PendingFile, has_key, pending_row, insert_rows, insert_chunks, insert_pending_files_batch,
}
use backhouse_dff.Checkpoint.Seeding.{row_at, first_some, insert_rows-row_at}
use backhouse_dff.Checkpoint.Writer.{
  HashResult, WriterStore, WriterEvent, enqueued, taken, written, synced, seeded, take_first,
  write_row, write_rows, flush_items, flush_batch, writer_step, run_writer,
}
use backhouse_dff.Checkpoint.Soundness.{flush_items-file_checkpoints}

-- A row after the items are written to it in turn.
unfoldable pub write_all : List HashResult → FileCheckpoint → FileCheckpoint
write_all [] row = row
write_all (item ∷ items) row = write_all items (write_row item row)

pub write_all-append :
    (xs ys : List HashResult) (row : FileCheckpoint)
    → write_all (xs ++ ys) row ≡ write_all ys (write_all xs row)
unfolding write_all
write_all-append [] ys row = refl
write_all-append (x ∷ xs) ys row = write_all-append xs ys (write_row x row)

module _ (id path : String) where
  write_row-has_key :
      (item : HashResult) (row : FileCheckpoint)
      → has_key id path (write_row item row) ≡ has_key id path row
  write_row-has_key item row = elim (Bool-cases (has_key item.scan_id item.file_path row)) [
    | inl e ↦ rw e refl
    | inr e ↦ rw e refl
  ]

  map-row_at :
      (item : HashResult) (table : List FileCheckpoint) (row : FileCheckpoint)
      → row_at id path table ≡ some row
      → row_at id path (map (write_row item) table) ≡ some (write_row item row)
  map-row_at item [] row h = cc
  map-row_at item (r ∷ rows) row h = elim (Bool-cases (has_key id path r)) [
    | inl e ↦
        let kept = write_row-has_key item r ∙ e in
        rw kept (ap (λ o. elim o [ none ↦ none | some x ↦ some (write_row item x) ]) (rw e at h))
    | inr e ↦
        let kept = write_row-has_key item r ∙ e in rw kept (map-row_at item rows row (rw e at h))
  ]

  pub write_rows-row_at :
      (items : List HashResult) (table : List FileCheckpoint) (row : FileCheckpoint)
      → row_at id path table ≡ some row
      → row_at id path (write_rows items table) ≡ some (write_all items row)
  unfolding write_rows write_all
  write_rows-row_at [] table row h = h
  write_rows-row_at (item ∷ items) table row h =
      write_rows-row_at items (map (write_row item) table) (write_row item row)
        (map-row_at item table row h)

  pub flush_items-row_at :
      (now : ℕ) (items : List HashResult) (db : CheckpointDb) (row : FileCheckpoint)
      → row_at id path db.file_checkpoints ≡ some row
      → row_at id path (flush_items now items db).file_checkpoints ≡ some (write_all items row)
  flush_items-row_at now items db row h =
      ap (row_at id path) (flush_items-file_checkpoints now items db)
      ∙ write_rows-row_at items db.file_checkpoints row h

  insert_chunks-keeps :
      (fuel chunk_size now : ℕ) (scan_id : String) (files : List PendingFile)
      (table : List FileCheckpoint) (inserted : ℕ) (row : FileCheckpoint)
      → row_at id path table ≡ some row
      → row_at id path (insert_chunks fuel chunk_size now scan_id files (table, inserted)).0
        ≡ some row
  unfolding insert_chunks
  insert_chunks-keeps zero chunk_size now scan_id files table inserted row h = h
  insert_chunks-keeps (suc fuel) chunk_size now scan_id [] table inserted row h = h
  insert_chunks-keeps (suc fuel) chunk_size now scan_id (file ∷ files) table inserted row h =
      let chunk = map (pending_row now scan_id) (take chunk_size (file ∷ files)) in
      insert_chunks-keeps fuel chunk_size now scan_id (drop chunk_size (file ∷ files))
        (insert_rows chunk table) (inserted + length (take chunk_size (file ∷ files))) row
        (insert_rows-row_at id path chunk table ∙ ap (λ o. first_some o (row_at id path chunk)) h)

  -- A batch of new files leaves a row that is there as it is.
  pub insert_pending_files_batch-keeps :
      (now : ℕ) (scan_id : String) (files : List PendingFile) (chunk_size : ℕ) (db : CheckpointDb)
      (row : FileCheckpoint)
      → row_at id path db.file_checkpoints ≡ some row
      → row_at id path
          (insert_pending_files_batch now scan_id files true chunk_size db).0.file_checkpoints
        ≡ some row
  unfolding insert_pending_files_batch
  insert_pending_files_batch-keeps now scan_id [] chunk_size db row h = h
  insert_pending_files_batch-keeps now scan_id (file ∷ files) chunk_size db row h =
      insert_chunks-keeps _ chunk_size now scan_id (file ∷ files) db.file_checkpoints 0 row h

-- The items that an event should write.
abbrev pub to_write : WriterEvent → WriterStore → List HashResult
to_write (written now) s = s.pending
to_write (synced now) s = s.write_queue
to_write _ s = []

-- The items that the events should write, in turn.
unfoldable pub all_to_write : List WriterEvent → WriterStore → List HashResult
all_to_write [] s = []
all_to_write (event ∷ events) s = to_write event s ++ all_to_write events (writer_step event s)

module _ (id path : String) where
  take_first-row_at :
      (queue : List HashResult) (s : WriterStore)
      → row_at id path (take_first queue s).db.file_checkpoints
        ≡ row_at id path s.db.file_checkpoints
  take_first-row_at [] s = refl
  take_first-row_at (item ∷ queue) s = elim (Bool-cases (ltb (length s.pending) flush_batch)) [
    | inl e ↦ rw e refl
    | inr e ↦ rw e refl
  ]

  writer_step-row_at :
      (event : WriterEvent) (s : WriterStore) (row : FileCheckpoint)
      → row_at id path s.db.file_checkpoints ≡ some row
      → row_at id path (writer_step event s).db.file_checkpoints
        ≡ some (write_all (to_write event s) row)
  unfolding write_all
  writer_step-row_at (enqueued item) s row h = h
  writer_step-row_at taken s row h = take_first-row_at s.write_queue s ∙ h
  writer_step-row_at (written now) s row h = flush_items-row_at id path now s.pending s.db row h
  writer_step-row_at (synced now) s row h = flush_items-row_at id path now s.write_queue s.db row h
  writer_step-row_at (seeded now scan_id files chunk_size) s row h =
      insert_pending_files_batch-keeps id path now scan_id files chunk_size s.db row h

  -- The row of a file ends as these items leave it.
  pub run_writer-row_at :
      (events : List WriterEvent) (s : WriterStore) (row : FileCheckpoint)
      → row_at id path s.db.file_checkpoints ≡ some row
      → row_at id path (run_writer events s).db.file_checkpoints
        ≡ some (write_all (all_to_write events s) row)
  unfolding run_writer all_to_write write_all
  run_writer-row_at [] s row h = h
  run_writer-row_at (event ∷ events) s row h =
      run_writer-row_at events (writer_step event s) (write_all (to_write event s) row)
        (writer_step-row_at event s row h)
      ∙ ap some (
          sym (write_all-append (to_write event s) (all_to_write events (writer_step event s)) row))
