-- ===== src/Turbo/Progress.antt =====
-- cerebro/engines/turbo_file_engine.py, `_on_turbo_progress`: the scanner's reports as the engine's
-- progress. The texts and the times are left out.
pub mod Bounds
use backhouse_dff.Base.{
  ℕ, ◌+◌, ◌≤◌, max, min, Bool, true, false, ◌&&◌, ◌||◌, not, String, Option, none, some, List, [],
  ◌∷◌, if◌then◌else◌, ltb,
}
use backhouse_dff.Engine.{ScanState}

-- `ScanStage`; `no_stage` is the empty stage of a progress before the first report, `other` any
-- name that is not in the map.
pub data Stage : Type 0 where
  discovering grouping_by_size tier_a_prefilter hashing_partial hashing_full : Stage
  cancelled_stage complete no_stage other : Stage

-- `_STAGE_MAP.get(stage, ScanState.SCANNING)`
abbrev pub stage_state : Stage → ScanState
stage_state cancelled_stage = ScanState.cancelled
stage_state _ = ScanState.scanning

abbrev pub is_terminal : ScanState → Bool
is_terminal ScanState.cancelled = true
is_terminal ScanState.error = true
is_terminal _ = false

abbrev pub is_hashing : Stage → Bool
is_hashing hashing_partial = true
is_hashing hashing_full = true
is_hashing _ = false

abbrev pub is_discovering : Stage → Bool
is_discovering discovering = true
is_discovering _ = false

-- `stage in (ScanStage.COMPLETE, ScanStage.CANCELLED)`
abbrev pub is_final : Stage → Bool
is_final complete = true
is_final cancelled_stage = true
is_final _ = false

pub record Progress : Type 0 where
  pub state : ScanState
  pub files_scanned : ℕ
  pub files_total : ℕ
  pub stage : Stage
  pub total_files_in_scope : ℕ
  pub files_processed : ℕ
  pub candidates_found : ℕ

pub record TurboEngine : Type 0 where
  pub state : ScanState
  pub cancel_event : Bool
  pub pause_event : Bool
  pub progress : Progress
  pub ckpt_completed_offset : ℕ
  pub ckpt_total : ℕ
  pub total_in_scope : ℕ
  pub processed_files : ℕ
  pub candidates : ℕ
  -- What the callback was given, the last first.
  pub emitted : List Progress

pub record Report : Type 0 where
  pub stage : Stage
  pub processed : ℕ
  pub total : ℕ
  pub metric_scope : ℕ
  pub metric_processed : ℕ
  pub metric_candidates : ℕ

abbrev pub positive_or : ℕ → ℕ → ℕ
positive_or a b = if ltb 0 a then a else b

abbrev pub enters_hashing : Progress → Report → Bool
enters_hashing prev r = is_hashing r.stage && not (is_hashing prev.stage)

-- `scanned`, by the kind of the stage.
abbrev pub next_scanned : TurboEngine → Report → ℕ
next_scanned e r =
    let offset = e.ckpt_completed_offset in
    let prev = e.progress in
    if is_discovering r.stage
    then r.processed
    else if enters_hashing prev r
    then positive_or offset prev.files_scanned
    else max prev.files_scanned (r.processed + offset)

-- `ft`, by the kind of the stage.
abbrev pub next_total : TurboEngine → Report → ℕ
next_total e r =
    let prev = e.progress in
    let total_scope = positive_or e.ckpt_total r.total in
    let scanned = next_scanned e r in
    if is_discovering r.stage
    then max r.total scanned
    else if enters_hashing prev r
    then max (max (positive_or r.total total_scope) scanned)
        (max prev.files_total prev.files_scanned)
    else if is_hashing r.stage
    then max (max (positive_or r.total (positive_or total_scope prev.files_total)) scanned)
        (max prev.files_total prev.files_scanned)
    else max (positive_or r.total prev.files_total) prev.files_total

abbrev pub next_state : TurboEngine → Report → ScanState
next_state e r = elim e.state [ ScanState.paused ↦ ScanState.paused | _ ↦ stage_state r.stage ]

abbrev pub next_scope : TurboEngine → Report → ℕ
next_scope e r =
    let given = max e.total_in_scope r.metric_scope in
    if ltb 0 given then given else max (next_total e r) (next_scanned e r)

abbrev pub next_processed : TurboEngine → Report → ℕ
next_processed e r =
    let given = max e.processed_files r.metric_processed in
    if ltb 0 given
    then given
    else min (positive_or (next_scope e r) (next_scanned e r)) (next_scanned e r)

abbrev pub next_progress : TurboEngine → Report → Progress
next_progress e r = record {
  state = next_state e r;
  files_scanned = next_scanned e r;
  files_total = next_total e r;
  stage = r.stage;
  total_files_in_scope = next_scope e r;
  files_processed = min (next_processed e r) (max (next_scope e r) (next_processed e r));
  candidates_found = max e.candidates r.metric_candidates;
}

abbrev pub accept : TurboEngine → Report → TurboEngine
accept e r = record e {
  state = next_state e r;
  progress = next_progress e r;
  total_in_scope = next_scope e r;
  processed_files = next_processed e r;
  candidates = max e.candidates r.metric_candidates;
  emitted = next_progress e r ∷ e.emitted;
}

unfoldable pub on_turbo_progress : TurboEngine → Report → TurboEngine
on_turbo_progress e r =
    if is_terminal e.state
    then e
    else if e.cancel_event && not (is_final r.stage)
    then e
    else accept e r

unfoldable pub on_reports : TurboEngine → List Report → TurboEngine
on_reports e [] = e
on_reports e (r ∷ rs) = on_reports (on_turbo_progress e r) rs
