-- ===== src/Lib.antt =====
-- A verification library for Cerebro, the duplicate file finder.
--
-- Engines look for duplicates below the roots that are left after those below others are dropped,
-- and hand groups of files to the shell. The shell keeps its state in a store that a reducer
-- changes by actions, and a review in which the user, by smart rules or by hand, says which files
-- to delete. The review asks the deletion pipeline for a plan; the pipeline checks it, asks the
-- deletion gate for permanent deletes, has the deletion engine run it and writes the audit. The
-- session manager keeps what the user locked and wants deleted for each scan.
--
-- Which file models which part:
--   Engine                cerebro/engines/base_engine.py: DuplicateFile, DuplicateGroup and
--                         `__post_init__` (post_init), get_keeper_index
--   State/Model, Action   cerebro/v2/state/app_state.py and actions.py: AppState and the actions
--   State/Reducer         cerebro/v2/state/reducer.py: `reduce` and its four parts
--   State/Store           cerebro/v2/state/store.py: subscribe, dispatch
--   State/Prune           cerebro/v2/state/groups_prune.py: prune_paths_from_groups
--   Review/Rules          cerebro/v2/ui/flet_app/pages/review/smart_rules.py: apply_rule,
--                         paths_to_delete; review_flow/trust_labels.py: the reasons shown
--   Review/Flow           cerebro/v2/ui/flet_app/pages/review_flow/state.py and host.py: marks,
--                         selections, undo and redo, and what a delete leaves of them
--   Review/Cart           the same state.py: cart_buckets
--   Review/Inspect        the same state.py: the indices of the side-by-side view
--   Review/Router         review_flow/router.py: navigate, go_back
--   Safety/Gate           cerebro/core/safety/deletion_gate.py: issue_token, verify_token,
--                         assert_allowed
--   Deletion/Adapters,    cerebro/core/deletion.py: the adapters, delete_one and execute_plan
--   Deletion/Engine
--   Deletion/Plan         cerebro/core/pipeline.py: build_delete_plan
--   Deletion/Pipeline     the same file: execute_delete_plan with its latch and audit
--   Deletion/Service      cerebro/v2/ui/flet_app/services/delete_service.py: delete_files, undo
--   Session               cerebro/core/session.py: the life of a scan, and in Session/Intents the
--                         locks, the intents and the plan built of them
--   Roots                 cerebro/core/root_dedup.py: dedupe_roots
--   Cluster/UnionFind     cerebro/engines/image_formats.py: UnionFind
--   Cluster/Hamming,      the same file: hamming_distance, HammingBKTree
--   Cluster/BkTree
--   Cluster/Images        cerebro/engines/image_dedup_engine.py: _cluster_by_hamming, and in
--                         Images/Grouping _build_duplicate_groups and _group_images
--   Turbo/Grouping        cerebro/core/scanners/turbo_scanner.py: _group_files_by_size
--   Turbo/Prefix          the same file: _apply_tier_a_filter
--   Turbo/Hashing         the same file: _compute_hashes_parallel and the phases of scan
--   Turbo/Guard           cerebro/core/group_invariants.py: _assert_no_self_duplicates, and in
--                         turbo_scanner.py the groups that are yielded and last_groups
--   Turbo/Progress,       cerebro/engines/turbo_file_engine.py: _on_turbo_progress; pause, resume
--   Turbo/Control,        and cancel; the results in _do_scan and _convert_groups
--   Turbo/Results
--   Services/Scheduler    cerebro/core/scheduler.py: the table of jobs and its check
--   Services/Thumbnails   cerebro/v2/ui/flet_app/services/thumbnail_cache.py
--   Services/Migration    cerebro/services/config_migration.py: migrate_config
--   Services/Snapshot     cerebro/v2/persistence/scan_snapshot.py: groups as JSON and back
--   Services/History      cerebro/v2/state/history_view.py: apply_scan_history_view
--   Checkpoint            cerebro/v2/core/checkpoint_db.py: the manifests of scans; in Files the rows
--                         of the files, in Writer the queue and its thread, in Artifacts what the
--                         phases leave and the purge
--   Base                  helpers: tests, lists, keys, dicts, Python integers, texts
--
-- How state and errors stand: an object that the code mutates is a record, and an operation takes
-- it and returns the changed one. An exception that leaves an operation is `none`. A dict is an
-- association list in the order of insertion, a set is a list of which only membership is read, and
-- a stack is a list whose head is the end of the Python list. Floats that are only copied, compared
-- and added (times, similarities) are whole numbers of a small fixed unit. A loop over a list is a
-- recursion over it, so that no bound on its length is chosen. Six loops run on fuel: `find` of the
-- union-find (one more than the largest rank, which grows with every step up), the query of the
-- tree (the number of nodes, each of which is on the stack once), the distance (the larger number,
-- which halves with every bit), the migrations (one more than there are), the chunks of a batch of
-- files (the number of files), and the batches that a query is read in (more than its rows). A
-- cancel event is either a function that says what is read when, or the number of reads that find
-- it clear.
--
-- What is not in the repository is a parameter: the file system, send2trash and the clock
-- (FileOps, PathOps and TrashOps, over a type of worlds), `Path`'s normal form and resolution, `str.strip`,
-- regular expressions, random tokens, and the callbacks of the user interface.
--
-- Not modelled: the widgets and pages of the user interface, which only show the state; the
-- databases other than the checkpoint one, and configuration files; the threads, the hashing and the
-- media decoding of the scan engines, and the engines other than those above; logging.
pub mod Base
pub mod Engine
pub mod State
pub mod Review
pub mod Safety
pub mod Deletion
pub mod Session
pub mod Roots
pub mod Cluster
pub mod Turbo
pub mod Services
pub mod Checkpoint
