-- ===== src/Deletion/Engine.antt =====
-- cerebro/core/deletion.py: the engine that runs a plan. The answers of the progress callback are a
-- function of the operation's number, the number of all and the file's name: as the number is
-- another one in each call, this covers every run of answers. `none` is a callback that raises.
pub mod Account
pub mod Trash
use backhouse_dff.Base.{
  ℕ, suc, zero, ◌+◌, String, Bool, true, false, Option, none, some, List, [], ◌∷◌, ◌++◌,
  if◌then◌else◌, length, ◌==◌, text_key,
}
use Prim.Native.String.{◌++◌ as append}
use backhouse_dff.Deletion.Adapters.{
  FileOps, DeletionPolicy, trash, permanent, SingleDeletionResult, Adapter, trash_adapter,
  permanent_adapter, can_handle, failed_result, delete,
}

pub record BatchDeletionResult (P : Type 0) : Type 0 where
  pub scan_id : String
  pub mode : String
  pub deleted : List P
  pub failed : List (P × String)
  pub bytes_reclaimed : ℕ

-- What `execute_plan` reads of a plan: `path` is that of each operation.
pub record PlanPaths (P : Type 0) : Type 0 where
  pub scan_id : String
  pub mode : String
  pub paths : List P

abbrev pub Progress : Type 0
Progress = Option (ℕ → ℕ → String → Option Bool)

abbrev pub adapters : List Adapter
adapters = trash_adapter ∷ permanent_adapter ∷ []

abbrev pub policy_value : DeletionPolicy → String
policy_value trash = "trash"
policy_value permanent = "permanent"

-- `res.error or "Unknown error"`
abbrev pub or_unknown : Option String → String
or_unknown none = "Unknown error"
or_unknown (some e) = if e == "" then "Unknown error" else e

-- `if progress_cb and not progress_cb(i + 1, total, name): break`, an exception passed over.
abbrev pub answer : Option Bool → Bool
answer none = true
answer (some go) = go

abbrev pub goes_on : Progress → ℕ → ℕ → String → Bool
goes_on none i total name = true
goes_on (some ask) i total name = answer (ask (suc i) total name)

-- The lists that the loop adds to.
pub record Tally (P : Type 0) : Type 0 where
  pub deleted : List P
  pub failed : List (P × String)
  pub bytes_reclaimed : ℕ

abbrev pub empty_tally : {P : Type 0} → Tally P
empty_tally = record { deleted = []; failed = []; bytes_reclaimed = 0 }

abbrev pub count_result : {P : Type 0} → Tally P → SingleDeletionResult P → Tally P
count_result t res =
    if res.success
    then record t {
      deleted = t.deleted ++ (res.path ∷ []);
      bytes_reclaimed = t.bytes_reclaimed + res.bytes_reclaimed;
    }
    else record t { failed = t.failed ++ ((res.path, or_unknown res.error) ∷ []) }

module _ {W P : Type 0} (fs : FileOps W P) where
  -- The first adapter that can handle the policy.
  abbrev pub delete_by : List Adapter → W → P → DeletionPolicy → W × SingleDeletionResult P
  delete_by [] w p policy =
      (w, failed_result p policy (append "No adapter for policy: " (policy_value policy)))
  delete_by (a ∷ rest) w p policy =
      if can_handle a policy then delete fs a w p policy else delete_by rest w p policy

  unfoldable pub delete_one : W → P → DeletionPolicy → W × SingleDeletionResult P
  delete_one w p policy = delete_by adapters w p policy

  -- The loop, at operation `i`.
  unfoldable pub delete_from :
      Progress → DeletionPolicy → (total i : ℕ) → List P → W → Tally P → W × Tally P
  delete_from progress policy total i [] w t = (w, t)
  delete_from progress policy total i (p ∷ ps) w t =
      let next = delete_one w p policy in
      let rest = delete_from progress policy total (suc i) ps next.0 (count_result t next.1) in
      if goes_on progress i total (fs.name p) then rest else (w, t)

  abbrev pub batch : PlanPaths P → W × Tally P → W × BatchDeletionResult P
  batch plan out = (
    out.0,
    record {
      scan_id = plan.scan_id;
      mode = plan.mode;
      deleted = out.1.deleted;
      failed = out.1.failed;
      bytes_reclaimed = out.1.bytes_reclaimed;
    },
  )

  abbrev pub run_operations :
      Progress → DeletionPolicy → PlanPaths P → List P → W → W × BatchDeletionResult P
  run_operations progress policy plan [] w = batch plan (w, empty_tally)
  run_operations progress policy plan (p ∷ ps) w =
      batch plan (delete_from progress policy (suc (length ps)) 0 (p ∷ ps) w empty_tally)

  unfoldable pub execute_plan :
      Progress → DeletionPolicy → PlanPaths P → W → W × BatchDeletionResult P
  execute_plan progress policy plan w = run_operations progress policy plan plan.paths w
