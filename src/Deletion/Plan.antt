-- ===== src/Deletion/Plan.antt =====
-- cerebro/core/pipeline.py, `build_delete_plan`: from the groups that the review page asks to
-- delete to the operations that are run. `path` is `Path`, and `resolve` and `stat` are `none`
-- where the call raises an exception that the code catches. The groups come with the defaults for
-- missing keys filled in; what is only logged is left out.
pub mod Checks
use backhouse_dff.Base.{
  ℕ, ◌+◌, String, Bool, true, false, not, ◌&&◌, Option, none, some, List, [], ◌∷◌, ◌++◌,
  if◌then◌else◌, length, sum_of, KeyEq, ◌==◌, text_key,
}

pub record PathOps (W P : Type 0) : Type 0 where
  pub path : String → P
  pub exists : W → P → Bool
  pub resolve : W → P → Option P
  -- `st_size` and `st_mtime`
  pub stat : W → P → Option (ℕ × ℕ)

pub record GroupRequest : Type 0 where
  pub group_index : ℕ
  pub keep : String
  pub delete : List String

pub record DeletionPlan : Type 0 where
  pub scan_id : String
  -- The policy's mode and token.
  pub mode : String
  pub token : Option String
  pub groups : List GroupRequest
  pub source : String

pub record ExecutableDeleteOperation (P : Type 0) : Type 0 where
  pub path : P
  pub size : ℕ
  pub group_index : ℕ
  pub kept_path : P
  pub mtime : ℕ

pub record ExecutableDeletePlan (P : Type 0) : Type 0 where
  pub scan_id : String
  pub mode : String
  pub operations : List (ExecutableDeleteOperation P)
  pub stats_groups : ℕ
  pub stats_files : ℕ
  pub stats_bytes : ℕ
  pub token : Option String
  pub source : String

abbrev pub total_bytes : {P : Type 0} → ExecutableDeletePlan P → ℕ
total_bytes plan = sum_of (λ op. op.size) plan.operations

abbrev pub total_files : {P : Type 0} → ExecutableDeletePlan P → ℕ
total_files plan = length plan.operations

-- The value of a call, or what the handler of its exception sets.
abbrev pub or_default : {A : Type 0} → A → Option A → A
or_default a none = a
or_default a (some b) = b

-- What a group's loop adds: its operation, or nothing.
abbrev pub one_if : {A : Type 0} → Bool → A → List A
one_if true a = a ∷ []
one_if false a = []

module _ {W P : Type 0} ⦃e : KeyEq P⦄ (fs : PathOps W P) (w : W) where
  abbrev pub resolved : P → P
  resolved p = or_default p (fs.resolve w p)

  abbrev pub enrich : ℕ → P → P → ℕ × ℕ → ExecutableDeleteOperation P
  enrich group_idx keep_path del_path st = record {
    path = del_path;
    size = st.0;
    group_index = group_idx;
    kept_path = keep_path;
    mtime = st.1;
  }

  -- The tests on one path to delete: it is given, it is there and it is not the keeper.
  abbrev pub deletable : P → String → Bool
  deletable keep_path text =
      not (text == "")
      && fs.exists w (fs.path text)
      && not (resolved keep_path == resolved (fs.path text))

  abbrev pub operation : ℕ → P → String → ExecutableDeleteOperation P
  operation group_idx keep_path text =
      enrich group_idx keep_path (fs.path text) (or_default (0, 0) (fs.stat w (fs.path text)))

  abbrev pub group_operations : ℕ → P → List String → List (ExecutableDeleteOperation P)
  group_operations group_idx keep_path [] = []
  group_operations group_idx keep_path (text ∷ rest) =
      one_if (deletable keep_path text) (operation group_idx keep_path text)
      ++ group_operations group_idx keep_path rest

  -- `keep_path` is there.
  abbrev pub keeper_found : String → Bool
  keeper_found text = not (text == "") && fs.exists w (fs.path text)

  abbrev pub expand_group : GroupRequest → List (ExecutableDeleteOperation P)
  expand_group g =
      if keeper_found g.keep then group_operations g.group_index (fs.path g.keep) g.delete else []

  abbrev pub expand : List GroupRequest → List (ExecutableDeleteOperation P)
  expand [] = []
  expand (g ∷ gs) = expand_group g ++ expand gs

  abbrev pub executable : DeletionPlan → List (ExecutableDeleteOperation P) → ExecutableDeletePlan P
  executable plan operations = record {
    scan_id = plan.scan_id;
    mode = plan.mode;
    operations = operations;
    stats_groups = length plan.groups;
    stats_files = length operations;
    stats_bytes = sum_of (λ op. op.size) operations;
    token = plan.token;
    source = plan.source;
  }

  -- `if groups and not operations: raise ValueError`
  abbrev pub unless_empty :
      DeletionPlan
      → List GroupRequest
      → List (ExecutableDeleteOperation P)
      → Option (ExecutableDeletePlan P)
  unless_empty plan [] operations = some (executable plan operations)
  unless_empty plan (g ∷ gs) [] = none
  unless_empty plan (g ∷ gs) (op ∷ operations) = some (executable plan (op ∷ operations))

  unfoldable pub build_delete_plan : DeletionPlan → Option (ExecutableDeletePlan P)
  build_delete_plan plan = unless_empty plan plan.groups (expand plan.groups)
