-- ===== src/Checkpoint/Soundness.antt =====
-- The table of the files in every state that the writer's events reach.
use backhouse_dff.Base.{
  ℕ, ◌≡◌, refl, inl, inr, String, true, List, [], ◌∷◌, nat_beq, All, All-append, All-filter,
  Bool-cases, length, ltb,
}
use backhouse_dff.Checkpoint.{CheckpointDb}
use backhouse_dff.Checkpoint.Files.{
  PendingFile, of_scan, insert_pending_files_batch, verify_consistency,
}
use backhouse_dff.Checkpoint.Writer.{
  HashResult, WriterStore, WriterEvent, enqueued, taken, written, synced, seeded, take_first,
  writer_step, run_writer, write_rows, flush_items, completed_count, flush_batch,
}
use backhouse_dff.Checkpoint.Consistency.{
  is_known_status, AllKnown, write_rows-AllKnown, insert_chunks-AllKnown, verify_consistency_iff,
}

-- The writing of items changes the table by their rows only.
pub flush_items-file_checkpoints :
    (now : ℕ) (items : List HashResult) (db : CheckpointDb)
    → (flush_items now items db).file_checkpoints ≡ write_rows items db.file_checkpoints
unfolding flush_items write_rows
flush_items-file_checkpoints now [] db = refl
flush_items-file_checkpoints now (item ∷ items) db =
    elim (Bool-cases (nat_beq (completed_count (item ∷ items)) 0)) [
      | inl e ↦ rw e refl
      | inr e ↦ rw e refl
    ]

abbrev pub KnownItems : List HashResult → Type 0
KnownItems = All (λ item. is_known_status item.status ≡ true)

-- Every row, and every result that waits, has one of the three statuses.
unfoldable pub IsSound : WriterStore → Type 0
IsSound s = AllKnown s.db.file_checkpoints × KnownItems s.write_queue × KnownItems s.pending

-- A result that is enqueued has one of the three statuses.
abbrev pub IsKnownEvent : WriterEvent → Type 0
IsKnownEvent (enqueued item) = is_known_status item.status ≡ true
IsKnownEvent _ = Unit

insert_pending_files_batch-AllKnown :
    (now : ℕ) (scan_id : String) (files : List PendingFile) (chunk_size : ℕ) (db : CheckpointDb)
    → AllKnown db.file_checkpoints
    → AllKnown (insert_pending_files_batch now scan_id files true chunk_size db).0.file_checkpoints
unfolding insert_pending_files_batch
insert_pending_files_batch-AllKnown now scan_id [] chunk_size db h = h
insert_pending_files_batch-AllKnown now scan_id (file ∷ files) chunk_size db h =
    insert_chunks-AllKnown _ chunk_size now scan_id (file ∷ files) db.file_checkpoints 0 h

take_first-IsSound :
    (queue : List HashResult) (s : WriterStore)
    → KnownItems queue
    → IsSound s
    → IsSound (take_first queue s)
unfolding IsSound
take_first-IsSound [] s k h = h
take_first-IsSound (item ∷ queue) s k h = elim (Bool-cases (ltb (length s.pending) flush_batch)) [
  | inl room ↦ rw room (h.0, k.1, All-append _ s.pending (item ∷ []) h.2 (k.0, tt))
  | inr full ↦ rw full h
]

flush_items-AllKnown :
    (now : ℕ) (items : List HashResult) (db : CheckpointDb)
    → KnownItems items
    → AllKnown db.file_checkpoints
    → AllKnown (flush_items now items db).file_checkpoints
flush_items-AllKnown now items db k h =
    rw (flush_items-file_checkpoints now items db) (write_rows-AllKnown items _ k h)

writer_step-IsSound :
    (event : WriterEvent) (s : WriterStore)
    → IsKnownEvent event
    → IsSound s
    → IsSound (writer_step event s)
unfolding IsSound
writer_step-IsSound (enqueued item) s k h =
    (h.0, All-append _ s.write_queue (item ∷ []) h.1 (k, tt), h.2)
writer_step-IsSound taken s k h = take_first-IsSound s.write_queue s h.1 h
writer_step-IsSound (written now) s k h = (flush_items-AllKnown now s.pending s.db h.2 h.0, h.1, tt)
writer_step-IsSound (synced now) s k h =
    (flush_items-AllKnown now s.write_queue s.db h.1 h.0, tt, h.2)
writer_step-IsSound (seeded now scan_id files chunk_size) s k h =
    (insert_pending_files_batch-AllKnown now scan_id files chunk_size s.db h.0, h.1, h.2)

pub run_writer-IsSound :
    (events : List WriterEvent) (s : WriterStore)
    → All IsKnownEvent events
    → IsSound s
    → IsSound (run_writer events s)
unfolding run_writer
run_writer-IsSound [] s k h = h
run_writer-IsSound (event ∷ events) s k h =
    run_writer-IsSound events (writer_step event s) k.1 (writer_step-IsSound event s k.0 h)

-- From a store whose rows and waiting results have only the statuses pending, complete and error,
-- after any events that enqueue only results with these statuses, the consistency check succeeds
-- for every scan.
pub run_writer-verify_consistency :
    (events : List WriterEvent) (s : WriterStore) (scan_id : String)
    → All IsKnownEvent events
    → IsSound s
    → verify_consistency scan_id (run_writer events s).db ≡ true
unfolding IsSound
run_writer-verify_consistency events s scan_id k h =
    let final = run_writer events s in
    let sound = run_writer-IsSound events s k h in
    (verify_consistency_iff scan_id final.db).1
      (All-filter _ (of_scan scan_id) final.db.file_checkpoints sound.0)
