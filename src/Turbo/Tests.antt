-- ===== src/Turbo/Tests.antt =====
-- Runs on small inputs.
use backhouse_dff.Base.{
  ◌⊎◌, ◌++◌, ℕ, ◌≤◌, ◌≡◌, refl, String, Bool, true, false, Option, none, some, List, [], ◌∷◌, arith,
  nat_key, text_key, All, if◌then◌else◌, ◌==◌,
}
use backhouse_dff.Base.Buckets.{bucket, append_to, append_all}
use backhouse_dff.Base.Dict.{insert, lookup}
use backhouse_dff.Engine.{ScanState}
use backhouse_dff.Turbo.Grouping.{Entry, FoundFile, group_list, row_loop, group_rows}
use backhouse_dff.Turbo.Rows.{group_rows-group_list}
use backhouse_dff.Turbo.Prefix.{Job, PrefixConfig, survivors_of, filter_flat, apply_tier_a_filter}
use backhouse_dff.Turbo.Survivors.{Kept, apply_tier_a_filter-Kept}
use backhouse_dff.Turbo.Guard.{
  guard_loop, assert_no_self_duplicates, last_groups, emit_groups, new_row, GroupRow,
}
use backhouse_dff.Turbo.Guard.Lenient.{Guarded, assert_no_self_duplicates-Guarded}
use backhouse_dff.Turbo.Guard.Strict.{Decides, assert_no_self_duplicates-Decides}
use backhouse_dff.Turbo.Guard.Reported.{last_groups-unguarded}
use backhouse_dff.Turbo.Progress.{Stage, TurboEngine, Report, on_turbo_progress}
use backhouse_dff.Turbo.Progress.Bounds.{on_turbo_progress-bounds}
use backhouse_dff.Turbo.Control.{
  Event, reported, pause_clicked, resume_clicked, cancel, step, run, run-cancelled,
}
use backhouse_dff.Turbo.Results.{
  IsResult, convert_groups, safe_groups, convert_groups-IsResult_safe,
}

abbrev never : ℕ → Bool
never i = false

abbrev rows : List FoundFile
rows = ("a", 1, 0) ∷ ("b", 3, 0) ∷ ("c", 3, 5) ∷ ("d", 4, 0) ∷ ("e", 4, 2) ∷ ("f", 4, 1) ∷ []

group_rows_run :
    group_rows never rows
    ≡ (3, ("b", 0) ∷ ("c", 5) ∷ []) ∷ (4, ("d", 0) ∷ ("e", 2) ∷ ("f", 1) ∷ []) ∷ []
unfolding group_rows row_loop insert
group_rows_run = refl

group_rows-group_list_example : bucket 4 (group_rows never rows) ≡ bucket 4 (group_list never rows)
group_rows-group_list_example =
    group_rows-group_list never rows 4 (λ i. refl)
      (omega arith, (omega arith, (omega arith, (omega arith, (omega arith, (omega arith, tt))))))

-- Files whose names start alike have the same prefix, and "x" cannot be read.
abbrev prefix_of : ℕ → String → Option String
prefix_of nbytes path = if path == "x" then none else if path == "d" then some "q" else some "p"

abbrev in_order : List Job → List Job
in_order jobs = jobs

abbrev config : PrefixConfig
config = record { use_quick_hash = true; enable_tier_a_adaptive = false }

abbrev size_groups : List (ℕ × List Entry)
size_groups = (3, ("b", 0) ∷ ("c", 5) ∷ []) ∷ (4, ("d", 0) ∷ ("e", 2) ∷ ("f", 1) ∷ []) ∷ []

apply_tier_a_filter_run :
    apply_tier_a_filter prefix_of in_order config false 6 size_groups
    ≡ (3, ("b", 0) ∷ ("c", 5) ∷ []) ∷ (4, ("e", 2) ∷ ("f", 1) ∷ []) ∷ []
unfolding apply_tier_a_filter filter_flat survivors_of append_all append_to insert lookup
apply_tier_a_filter_run = refl

apply_tier_a_filter-Kept_example :
    Kept 4 ("e", 2) (apply_tier_a_filter prefix_of in_order config false 6 size_groups)
unfolding lookup
apply_tier_a_filter-Kept_example =
    apply_tier_a_filter-Kept prefix_of in_order (λ p jobs. refl) config false 6 size_groups 4
      (("d", 0) ∷ ("e", 2) ∷ ("f", 1) ∷ []) ("e", 2) refl refl (omega arith) (omega arith)

-- Two names of one file, and a name that cannot be resolved.
abbrev resolve : String → Option String
resolve path = if path == "x" then none else if path == "b2" then some "b" else some path

abbrev names : List String
names = "b" ∷ "x" ∷ "b2" ∷ "c" ∷ []

assert_no_self_duplicates_run :
    assert_no_self_duplicates resolve false names ≡ some ("b" ∷ "x" ∷ "c" ∷ [], 1)
unfolding assert_no_self_duplicates guard_loop
assert_no_self_duplicates_run = refl

assert_no_self_duplicates-Guarded_example :
    (kept : List String) × (n : ℕ) × (assert_no_self_duplicates resolve false names
      ≡ some (kept, n))
    × Guarded resolve names kept n
assert_no_self_duplicates-Guarded_example = assert_no_self_duplicates-Guarded resolve names

assert_no_self_duplicates-Decides_example :
    Decides resolve names (assert_no_self_duplicates resolve true names)
assert_no_self_duplicates-Decides_example = assert_no_self_duplicates-Decides resolve names

abbrev other_group : String × List String
other_group = ("g", "a" ∷ "b" ∷ [])

last_groups-unguarded_example :
    (emit_groups resolve false
        (λ p. true)
        never
        0
        (other_group ∷ ("h", "b" ∷ "b2" ∷ []) ∷ other_group ∷ [])
      ≡ emit_groups resolve false (λ p. true) never 0 (other_group ∷ other_group ∷ []))
    × (last_groups (other_group ∷ ("h", "b" ∷ "b2" ∷ []) ∷ other_group ∷ [])
        ≡ last_groups (other_group ∷ [])
          ++ new_row "h" ("b" ∷ "b2" ∷ []) ∷ last_groups (other_group ∷ []))
last_groups-unguarded_example =
    last_groups-unguarded resolve "b" (λ p. true) never (other_group ∷ []) (other_group ∷ []) "h"
      ("b" ∷ "b2" ∷ []) (omega arith) (λ i. refl) (refl, (refl, tt))

abbrev engine : TurboEngine
engine = record {
  state = ScanState.scanning;
  cancel_event = false;
  pause_event = true;
  progress = record {
    state = ScanState.scanning;
    files_scanned = 40;
    files_total = 40;
    stage = Stage.tier_a_prefilter;
    total_files_in_scope = 40;
    files_processed = 40;
    candidates_found = 6;
  };
  ckpt_completed_offset = 0;
  ckpt_total = 0;
  total_in_scope = 40;
  processed_files = 40;
  candidates = 6;
  emitted = [];
}

abbrev report : Stage → ℕ → ℕ → Report
report stage processed total = record {
  stage = stage;
  processed = processed;
  total = total;
  metric_scope = 0;
  metric_processed = 0;
  metric_candidates = 0;
}

on_turbo_progress-bounds_example :
    ((on_turbo_progress engine (report Stage.hashing_partial 3 12)).progress.files_scanned
      ≤ (on_turbo_progress engine (report Stage.hashing_partial 3 12)).progress.files_total)
    × (40 ≤ (on_turbo_progress engine (report Stage.hashing_partial 3 12)).progress.files_total)
    × (40 ≤ (on_turbo_progress engine (report Stage.hashing_partial 3 12)).progress.files_total)
on_turbo_progress-bounds_example =
    on_turbo_progress-bounds engine (report Stage.hashing_partial 3 12) refl refl refl

-- A resumed scan: the grouping shows more files scanned than in total.
resumed_grouping :
    (on_turbo_progress
      (record engine { ckpt_completed_offset = 30 })
      (report Stage.grouping_by_size 40 40)).progress.files_scanned
    ≡ 70
unfolding on_turbo_progress
resumed_grouping = refl

resumed_grouping_total :
    (on_turbo_progress
      (record engine { ckpt_completed_offset = 30 })
      (report Stage.grouping_by_size 40 40)).progress.files_total
    ≡ 40
unfolding on_turbo_progress
resumed_grouping_total = refl

-- After a cancel, a report, a pause and a resume.
abbrev late : List Event
late = reported (report Stage.hashing_partial 60 90) ∷ pause_clicked ∷ resume_clicked ∷ []

run-cancelled_example :
    ((run (cancel engine) late).cancel_event ≡ true)
    × ((run (cancel engine) late).progress.files_scanned ≡ 40)
    × ((run (cancel engine) late).progress.files_total ≡ 40)
    × ((run (cancel engine) late).candidates ≡ 6)
    × (((run (cancel engine) late).progress.candidates_found
          ≡ (cancel engine).progress.candidates_found)
        ⊎ ((run (cancel engine) late).progress.candidates_found ≡ 0))
run-cancelled_example = run-cancelled late (cancel engine) refl (refl, (refl, (refl, tt)))

late_resume : (run (cancel engine) late).state ≡ ScanState.scanning
unfolding run step on_turbo_progress
late_resume = refl

abbrev found_rows : List (GroupRow String)
found_rows = new_row "h" ("a" ∷ "/sys/b" ∷ "c" ∷ []) ∷ []

abbrev is_system : String → Bool
is_system path = path == "/sys/b"

convert_groups-safe_example :
    All
      (IsResult (λ p. "") (λ p. some (7, 0)) is_system)
      (convert_groups (λ p. "") (λ p. some (7, 0)) 9 0 (safe_groups is_system 4 found_rows) [])
convert_groups-safe_example =
    convert_groups-IsResult_safe (λ p. "") (λ p. some (7, 0)) is_system 4 9 found_rows
