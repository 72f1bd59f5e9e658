-- ===== src/Checkpoint/Tests.antt =====
-- Runs on small inputs.
use backhouse_dff.Base.{
  ℕ, zero, suc, ◌≡◌, refl, String, true, Option, none, some, List, [], ◌∷◌, map, arith, length,
  ◌++◌, ◌+◌,
}
use backhouse_dff.Checkpoint.{
  ScanManifest, FileCheckpoint, CheckpointDb, empty_db, create_manifest, set_manifest_total, beat,
  mark_stale_as_crashed, find_resumable_manifest, list_resumable_manifests,
}
use backhouse_dff.Base.Sort.{sort_desc, insert_desc}
use backhouse_dff.Checkpoint.Heartbeat.{manifests_of, beat-mark_stale_as_crashed}
use backhouse_dff.Checkpoint.Files.{
  PendingFile, pending_row, insert_pending_files_batch, iter_pending_files, row_batches, get_counts,
  verify_consistency,
}
use backhouse_dff.Checkpoint.Seeding.{row_at, first_some, insert_pending_files_batch-row_at}
use backhouse_dff.Checkpoint.Writer.{
  HashResult, WriterStore, WriterEvent, enqueued, taken, synced, run_writer, writer_end,
  flush_items, write_rows,
}
use backhouse_dff.Checkpoint.Delivery.{count, waiting, all_enqueued, run_writer-writer_end}
use backhouse_dff.Checkpoint.Written.{write_all, all_to_write}
use backhouse_dff.Checkpoint.Soundness.{IsSound, run_writer-verify_consistency}
use backhouse_dff.Checkpoint.Artifacts.{purge_old_scans}
use backhouse_dff.Checkpoint.Purge.{list_resumable_manifests-purge_old_scans}

-- Two scans of one scope, the second of them later, with three and two files.
abbrev two_scans : CheckpointDb
two_scans = set_manifest_total 101 "s1" 3 (
    set_manifest_total 201 "s2" 2 (
      create_manifest "s2" 200 "[\"/a\"]" "{}" "again"
        (create_manifest "s1" 100 "[\"/a\"]" "{}" "first" empty_db)))

found_id : Option ScanManifest → Option String
found_id none = none
found_id (some m) = some m.scan_id

find_resumable_manifest_run :
    found_id (find_resumable_manifest 300 "[\"/a\"]" "{}" 7 two_scans) ≡ some "s2"
unfolding find_resumable_manifest sort_desc insert_desc found_id
find_resumable_manifest_run = refl

beat-mark_stale_as_crashed_example :
    manifests_of "s1" (mark_stale_as_crashed 700 5 (beat 500 "s1" two_scans))
    ≡ manifests_of "s1" two_scans
beat-mark_stale_as_crashed_example =
    beat-mark_stale_as_crashed 500 700 5 "s1" two_scans (omega arith)

abbrev files : List PendingFile
files =
    record { path = "/a/x"; size = 5; mtime = 1 }
    ∷ record { path = "/a/y"; size = 9; mtime = 2 }
    ∷ record { path = "/a/x"; size = 6; mtime = 3 }
    ∷ []

insert_pending_files_batch-row_at_example :
    (row_at "s1" "/a/x"
        (insert_pending_files_batch 110 "s1" files true 2 two_scans).0.file_checkpoints
      ≡ first_some
          (row_at "s1" "/a/x" two_scans.file_checkpoints)
          (row_at "s1" "/a/x" (map (pending_row 110 "s1") files)))
    × ((insert_pending_files_batch 110 "s1" files true 2 two_scans).1 ≡ length files)
insert_pending_files_batch-row_at_example =
    insert_pending_files_batch-row_at 110 "s1" files true 2 two_scans "s1" "/a/x" (omega arith)

abbrev two_files : CheckpointDb
two_files = record two_scans {
  file_checkpoints = map (pending_row 110 "s1") (
      record { path = "/a/y"; size = 9; mtime = 2 }
      ∷ record { path = "/a/x"; size = 5; mtime = 1 }
      ∷ []);
}

abbrev hash_result : String → String → HashResult
hash_result path status = record {
  scan_id = "s1";
  file_path = path;
  file_hash = some "h";
  group_id = none;
  status = status;
  ts = 120;
}

-- One file is written off between two batches of one file each: the other one is never read.
abbrev between : ℕ → CheckpointDb
between zero = two_files
between (suc n) = flush_items 120 (hash_result "/a/y" "error" ∷ []) two_files

iter_pending_files_skips :
    iter_pending_files 9 between "s1" 1
    ≡ (pending_row 110 "s1" (record { path = "/a/y"; size = 9; mtime = 2 }) ∷ []) ∷ []
unfolding iter_pending_files row_batches sort_desc insert_desc flush_items write_rows
iter_pending_files_skips = refl

abbrev writer_store : WriterStore
writer_store = record { db = two_files; write_queue = []; pending = [] }

-- The thread has taken the first result when the second one is flushed by a caller.
abbrev events : List WriterEvent
events =
    enqueued (hash_result "/a/x" "complete")
    ∷ taken
    ∷ enqueued (hash_result "/a/y" "error")
    ∷ synced 130
    ∷ []

-- After flush_sync the taken result is not written: the file still counts as pending.
run_writer_synced : get_counts "s1" (run_writer events writer_store).db ≡ (2, 1)
unfolding run_writer flush_items write_rows
run_writer_synced = refl

abbrev row_y : FileCheckpoint
row_y = pending_row 110 "s1" (record { path = "/a/y"; size = 9; mtime = 2 })

run_writer-writer_end_example :
    (count (λ item. true) (all_to_write (events ++ writer_end 140) writer_store)
      ≡ waiting (λ item. true) writer_store + count (λ item. true) (all_enqueued events))
    × (row_at "s1" "/a/y" (run_writer (events ++ writer_end 140) writer_store).db.file_checkpoints
        ≡ some (write_all (all_to_write (events ++ writer_end 140) writer_store) row_y))
run_writer-writer_end_example =
    run_writer-writer_end (λ item. true) events 140 writer_store "s1" "/a/y" row_y refl

writer_store-IsSound : IsSound writer_store
unfolding IsSound
writer_store-IsSound = ((refl, (refl, tt)), tt, tt)

run_writer-verify_consistency_example :
    verify_consistency "s1" (run_writer events writer_store).db ≡ true
run_writer-verify_consistency_example =
    run_writer-verify_consistency events writer_store "s1" (refl, (tt, (refl, (tt, tt))))
      writer_store-IsSound

abbrev same_text : String → String
same_text text = text

list_resumable_manifests-purge_old_scans_example :
    list_resumable_manifests 604950 7 (purge_old_scans 604950 7 two_scans).0
    ≡ list_resumable_manifests 604950 7 two_scans
list_resumable_manifests-purge_old_scans_example =
    list_resumable_manifests-purge_old_scans 604950 7 two_scans (refl, (refl, tt))

purge_run : (purge_old_scans 604950 7 two_scans).1 ≡ 1
unfolding purge_old_scans
purge_run = refl
