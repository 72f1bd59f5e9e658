-- ===== src/Deletion/Service/Files.antt =====
-- cerebro/v2/ui/flet_app/services/delete_service.py: delete_files, by the managed trash or by the
-- deletion engine, and delete_and_prune. The log of deletions and the reports of progress are left
-- out, except that a report may raise.
use backhouse_dff.Base.{
  ℕ, ◌+◌, ◌-◌, String, Bool, true, not, Option, none, some, List, [], ◌∷◌, ◌++◌, map, if◌then◌else◌,
  length, sum_of, text_key,
}
use backhouse_dff.Base.Dict.{insert, lookup}
use backhouse_dff.Engine.{DuplicateGroup}
use backhouse_dff.State.Prune.{prune_paths_from_groups}
use backhouse_dff.Deletion.Adapters.{
  FileOps, Attempt, done, raised, DeletionPolicy, trash, permanent,
}
use backhouse_dff.Deletion.Engine.{
  BatchDeletionResult, PlanPaths, Progress, policy_value, execute_plan,
}
use backhouse_dff.Deletion.Service.{
  TrashOps, TrashBatch, TrashUndoTransaction, text_or, delete_to_managed_trash,
}

pub record DeleteFilesResult : Type 0 where
  pub deleted_count : ℕ
  pub failed_count : ℕ
  pub bytes_reclaimed : ℕ
  pub deleted_paths : List String
  pub failures : List (String × String)

-- The lists that the first loop fills.
pub record Checked : Type 0 where
  pub existing_paths : List String
  pub missing_paths : List String
  pub sizes_by_path : List (String × ℕ)
  pub failures : List (String × String)

abbrev pub nothing_checked : Checked
nothing_checked = record {
  existing_paths = [];
  missing_paths = [];
  sizes_by_path = [];
  failures = [];
}

abbrev pub add_missing : String → String → Checked → Checked
add_missing p message c = record c {
  missing_paths = c.missing_paths ++ p ∷ [];
  sizes_by_path = insert p 0 c.sizes_by_path;
  failures = c.failures ++ (p, message) ∷ [];
}

abbrev pub add_measured : String → Attempt ℕ → Checked → Checked
add_measured p (done size) c = record c {
  existing_paths = c.existing_paths ++ p ∷ [];
  sizes_by_path = insert p size c.sizes_by_path;
}
add_measured p (raised e) c = add_missing p (text_or "Path not accessible" e) c

abbrev pub size_at : List (String × ℕ) → String → ℕ
size_at sizes p = elim (lookup p sizes) [ none ↦ 0 | some size ↦ size ]

-- `for fp, msg in result.failed: failures.append((str(fp), msg or "Deletion failed"))`
abbrev pub engine_failures : List (String × String) → List (String × String)
engine_failures failed = map (λ f. (f.0, text_or "Deletion failed" f.1)) failed

-- `return True` after the report, unless that raises.
abbrev pub service_progress : (ℕ → ℕ → String → Bool) → Progress
service_progress raises = some (λ i total name. if raises i total name then none else some true)

abbrev pub service_plan : DeletionPolicy → List String → PlanPaths String
service_plan policy paths = record {
  scan_id = "flet_ui";
  mode = policy_value policy;
  paths = paths;
}

module _ {W : Type 0} (fs : FileOps W String) (ops : TrashOps W) where
  abbrev pub check_one : W → String → Checked → Checked
  check_one w p c =
      if not (fs.exists w p)
      then add_missing p "File not found" c
      else add_measured p (fs.stat_size w p) c

  unfoldable pub check_all : W → List String → Checked → Checked
  check_all w [] c = c
  check_all w (p ∷ paths) c = check_all w paths (check_one w p c)

  abbrev pub trash_result : Checked → TrashBatch → DeleteFilesResult
  trash_result c b = record {
    deleted_count = length b.deleted_paths;
    failed_count = (length c.existing_paths - length b.deleted_paths) + length c.missing_paths;
    bytes_reclaimed = sum_of (size_at c.sizes_by_path) b.deleted_paths;
    deleted_paths = b.deleted_paths;
    failures = c.failures ++ b.failures;
  }

  abbrev pub trash_outcome : Checked → Option TrashBatch → Option DeleteFilesResult
  trash_outcome c none = none
  trash_outcome c (some b) = some (trash_result c b)

  abbrev pub engine_result : Checked → BatchDeletionResult String → DeleteFilesResult
  engine_result c result = record {
    deleted_count = length result.deleted;
    failed_count = length result.failed + length c.missing_paths;
    bytes_reclaimed = result.bytes_reclaimed;
    deleted_paths = result.deleted;
    failures = c.failures ++ engine_failures result.failed;
  }

  abbrev pub no_files : ℕ → List (String × String) → DeleteFilesResult
  no_files failed failures = record {
    deleted_count = 0;
    failed_count = failed;
    bytes_reclaimed = 0;
    deleted_paths = [];
    failures = failures;
  }

  -- The files that are there, by policy.
  abbrev pub delete_existing :
      String
      → ℕ
      → (ℕ → ℕ → String → Bool)
      → DeletionPolicy
      → Checked
      → W
      → List TrashUndoTransaction
      → (W × List TrashUndoTransaction) × Option DeleteFilesResult
  delete_existing tx_id now raises trash c w history =
      let out = delete_to_managed_trash ops tx_id now c.existing_paths w history in
      ((out.0.0, out.1), trash_outcome c out.0.1)
  delete_existing tx_id now raises permanent c w history =
      let out =
        execute_plan fs (service_progress raises) permanent
          (service_plan permanent c.existing_paths) w in
      ((out.0, history), some (engine_result c out.1))

  abbrev pub delete_checked :
      String
      → ℕ
      → (ℕ → ℕ → String → Bool)
      → DeletionPolicy
      → List String
      → Checked
      → List String
      → W
      → List TrashUndoTransaction
      → (W × List TrashUndoTransaction) × Option DeleteFilesResult
  delete_checked tx_id now raises policy paths c [] w history =
      ((w, history), some (no_files (length paths) c.failures))
  delete_checked tx_id now raises policy paths c (p ∷ existing) w history =
      delete_existing tx_id now raises policy c w history

  -- The world and the history of the undo, and the outcome; `none` is an OSError.
  unfoldable pub delete_files :
      String
      → ℕ
      → (ℕ → ℕ → String → Bool)
      → DeletionPolicy
      → List String
      → W
      → List TrashUndoTransaction
      → (W × List TrashUndoTransaction) × Option DeleteFilesResult
  delete_files tx_id now raises policy [] w history = ((w, history), some (no_files 0 []))
  delete_files tx_id now raises policy (p ∷ paths) w history =
      let c = check_all w (p ∷ paths) nothing_checked in
      delete_checked tx_id now raises policy (p ∷ paths) c c.existing_paths w history

  abbrev pub prune_outcome :
      (norm : String → String)
      → List DuplicateGroup
      → Option DeleteFilesResult
      → Option (List DuplicateGroup × DeleteFilesResult)
  prune_outcome norm groups none = none
  prune_outcome norm groups (some result) =
      some (prune_paths_from_groups norm groups result.deleted_paths, result)

  -- `norm` is `str(Path(p))`.
  unfoldable pub delete_and_prune :
      (norm : String → String)
      → String
      → ℕ
      → (ℕ → ℕ → String → Bool)
      → DeletionPolicy
      → List String
      → List DuplicateGroup
      → W
      → List TrashUndoTransaction
      → (W × List TrashUndoTransaction) × Option (List DuplicateGroup × DeleteFilesResult)
  delete_and_prune norm tx_id now raises policy paths groups w history =
      let out = delete_files tx_id now raises policy paths w history in
      (out.0, prune_outcome norm groups out.1)
