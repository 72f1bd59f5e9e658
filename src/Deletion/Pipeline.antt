-- ===== src/Deletion/Pipeline.antt =====
-- cerebro/core/pipeline.py, `execute_delete_plan`: the token, the run and its audit. A raised
-- DeletionGateError is `none`. `str` is the text of a path, `strip` is `str.strip`, and the clock
-- of the gate is `now`, with `ticks` to the second. The gate that the function makes holds no token
-- of its own, so that it does not need the clock. `record_deletion` is the history's write, after
-- which the world is another one, whether it fails or not.
pub mod Latch
pub mod Audit
use backhouse_dff.Base.{
  ℕ, String, Bool, true, false, not, Option, none, some, List, [], ◌∷◌, map, if◌then◌else◌, length,
  ◌==◌, text_key, contains,
}
use backhouse_dff.Base.Dict.{insert, lookup, has}
use backhouse_dff.Safety.Gate.{default_config, new_gate, verify_token}
use backhouse_dff.Deletion.Adapters.{FileOps, DeletionPolicy, trash, permanent}
use backhouse_dff.Deletion.Engine.{PlanPaths, Progress, BatchDeletionResult, execute_plan}
use backhouse_dff.Deletion.Plan.{ExecutableDeleteOperation, ExecutableDeletePlan}

pub data Status : Type 0 where
  deleted : Status
  failed : Status
  skipped : Status

pub record Detail : Type 0 where
  pub path : String
  pub group_index : ℕ
  pub kept_path : String
  pub bytes : ℕ
  pub mtime : ℕ
  pub status : Status
  pub error : Option String

pub record DeletionResult (P : Type 0) : Type 0 where
  pub scan_id : String
  pub mode : String
  pub deleted : List P
  pub failed : List (P × String)
  pub bytes_reclaimed : ℕ
  pub stats_groups : ℕ
  pub details : List Detail

-- `policy = PERMANENT if plan.mode == "permanent" else TRASH`
abbrev pub policy_of : String → DeletionPolicy
policy_of mode = if mode == "permanent" then permanent else trash

module _ {P : Type 0} (str : P → String) where
  -- `{str(p): err for p, err in batch.failed}`
  abbrev pub failed_map : List (P × String) → List (String × String) → List (String × String)
  failed_map [] d = d
  failed_map (entry ∷ rest) d = failed_map rest (insert (str entry.0) entry.1 d)

  abbrev pub status_of : BatchDeletionResult P → String → Status
  status_of batch p =
      if contains (map str batch.deleted) p
      then deleted
      else if has p (failed_map batch.failed [])
      then failed
      else skipped

  abbrev pub detail : BatchDeletionResult P → ExecutableDeleteOperation P → Detail
  detail batch op = record {
    path = str op.path;
    group_index = op.group_index;
    kept_path = str op.kept_path;
    bytes = op.size;
    mtime = op.mtime;
    status = status_of batch (str op.path);
    error = lookup (str op.path) (failed_map batch.failed []);
  }

  abbrev pub result : ExecutableDeletePlan P → BatchDeletionResult P → DeletionResult P
  result plan batch = record {
    scan_id = plan.scan_id;
    mode = plan.mode;
    deleted = batch.deleted;
    failed = batch.failed;
    bytes_reclaimed = batch.bytes_reclaimed;
    stats_groups = plan.stats_groups;
    details = map (detail batch) plan.operations;
  }

abbrev pub plan_paths : {P : Type 0} → ExecutableDeletePlan P → PlanPaths P
plan_paths plan = record {
  scan_id = plan.scan_id;
  mode = plan.mode;
  paths = map (λ op. op.path) plan.operations;
}

module _ (ticks now : ℕ) (strip : String → String) where
  -- The latch: the token is there, and a new gate lets it pass.
  abbrev pub token_passes : Option String → Bool
  token_passes none = false
  token_passes (some token) =
      if token == ""
      then false
      else verify_token ticks strip (new_gate default_config) now (some token)

  abbrev pub latch : String → Option String → Bool
  latch mode token = if mode == "permanent" then token_passes token else true

  module _ {W P : Type 0} (fs : FileOps W P) (str : P → String)
      (record_deletion : DeletionResult P → W → W) where
    abbrev pub audited :
        ExecutableDeletePlan P → W × BatchDeletionResult P → W × Option (DeletionResult P)
    audited plan out = let res = result str plan out.1 in (record_deletion res out.0, some res)

    unfoldable pub execute_delete_plan :
        Progress → ExecutableDeletePlan P → W → W × Option (DeletionResult P)
    execute_delete_plan progress plan w =
        if latch plan.mode plan.token
        then audited plan (execute_plan fs progress (policy_of plan.mode) (plan_paths plan) w)
        else (w, none)
