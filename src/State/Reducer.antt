-- ===== src/State/Reducer.antt =====
-- cerebro/v2/state/reducer.py: the transitions. A sub-reducer returns `none` for an action that is
-- not its own; `reduce` returns `none` where the source raises TypeError.
pub mod Scan
pub mod Shape
pub mod Preferences
mod Tests
use backhouse_dff.Base.{
  ℕ, String, Bool, true, false, not, List, [], ◌∷◌, Option, none, some, contains, text_key, ◌==◌,
  if◌then◌else◌, dedup,
}
use backhouse_dff.Base.Dict.{insert, erase}
use backhouse_dff.Base.Int.{ℤ, pos, negsuc}
use backhouse_dff.Base.Text.{take_chars}
use backhouse_dff.Base.Value.{Value, str, is_none}
use backhouse_dff.State.Action.{Action}
use backhouse_dff.State.Model.{AppMode, AppState, ValueDict, valid_main_tab_keys}
use backhouse_dff.State.Prune.{prune_paths_from_groups}

abbrev pub results_file_valid_filters : List String
results_file_valid_filters =
    "all" ∷ "pictures" ∷ "music" ∷ "videos" ∷ "documents" ∷ "archives" ∷ "other" ∷ []

abbrev pub history_page_valid_subtabs : List String
history_page_valid_subtabs = "scan" ∷ "deletion" ∷ []

-- The keys of `HISTORY_SCAN_SORT_KEYS`, of history_view.py.
abbrev pub history_scan_valid_columns : List String
history_scan_valid_columns =
    "date" ∷ "mode" ∷ "folders" ∷ "groups" ∷ "files" ∷ "reclaimable" ∷ "duration" ∷ []

abbrev pub valid_themes : List String
valid_themes = "light" ∷ "dark" ∷ "system" ∷ []

-- `key if key in valid else default`
abbrev pub one_of : List String → String → String → String
one_of valid default key = if contains valid key then key else default

-- `value or "files"`
abbrev pub or_files : String → String
or_files m = if m == "" then "files" else m

abbrev pub mode_for_main_tab : String → AppMode
mode_for_main_tab key =
    if contains ("dashboard" ∷ "history" ∷ "settings" ∷ []) key
    then AppMode.idle
    else if key == "review"
    then AppMode.review
    else AppMode.idle

abbrev pub is_scanning : AppMode → Bool
is_scanning AppMode.scanning = true
is_scanning _ = false

-- `SetActiveTab`, behind the test of its key.
abbrev pub set_tab : AppState → String → AppState
set_tab s key =
    if key == s.active_tab
    then s
    else if is_scanning s.mode
    then record s { active_tab = key }
    else record s { active_tab = key; mode = mode_for_main_tab key }

abbrev pub toggled : Option Bool → Bool → Bool
toggled (some value) old = value
toggled none old = not old

unfoldable pub reduce_ui : AppState → Action → Option AppState
reduce_ui s (Action.advanced_mode_toggled value) =
    some (record s { advanced_mode = toggled value s.advanced_mode })
reduce_ui s (Action.theme_changed t) =
    some (if contains valid_themes t then record s { theme = t } else s)
reduce_ui s (Action.set_active_tab key) =
    some (if contains valid_main_tab_keys key then set_tab s key else s)
reduce_ui s (Action.history_sub_tab_changed key) = some (record s {
  ui = insert "history_subtab" (str (one_of history_page_valid_subtabs "scan" key)) s.ui;
})
reduce_ui s _ = none

unfoldable pub reduce_scan : AppState → Action → Option AppState
reduce_scan s (Action.file_selection_changed ids) = some (record s { selected_files = dedup ids })
reduce_scan s Action.file_selection_cleared = some (record s { selected_files = [] })
reduce_scan s (Action.scan_started m) = some (record s {
  mode = AppMode.scanning;
  scan_mode = or_files m;
  scan_progress = [];
  scan_can_pause = true;
  scan_can_resume = false;
  scan_is_cancelled = false;
})
reduce_scan s (Action.scan_progress_snapshot progress) =
    some (record s { scan_progress = progress })
reduce_scan s (Action.scan_ended reason) = some (
    if contains ("cancelled" ∷ "error" ∷ []) reason
    then record s {
      mode = AppMode.idle;
      scan_progress = [];
      scan_can_pause = false;
      scan_can_resume = false;
      scan_is_cancelled = reason == "cancelled";
    }
    else s)
reduce_scan s Action.scan_paused =
    some (record s { scan_can_pause = false; scan_can_resume = true })
reduce_scan s Action.scan_resumed =
    some (record s { scan_can_pause = true; scan_can_resume = false })
reduce_scan s (Action.scan_completed groups m) = some (record s {
  mode = AppMode.results;
  groups = groups;
  scan_mode = or_files m;
  selected_group_id = none;
  active_tab = "review";
  review_unlocked = true;
  scan_progress = [];
  scan_can_pause = false;
  scan_can_resume = false;
  scan_is_cancelled = false;
  review_file_filter = "all";
  selected_files = [];
})
reduce_scan s (Action.review_navigate group_id groups) =
    some (record s {
      mode = AppMode.review;
      selected_group_id = some group_id;
      review_unlocked = true;
    })
reduce_scan s _ = none

-- `max(0, i)`
abbrev pub at_least_zero : ℤ → ℕ
at_least_zero (pos n) = n
at_least_zero (negsuc n) = 0

unfoldable pub reduce_history : AppState → Action → Option AppState
reduce_history s (Action.history_data_loaded rows) =
    some (record s { history_scan_rows = rows; history_page = 0 })
reduce_history s (Action.history_grid_sort_changed column sort_asc) = some (record s {
  history_sort_column = one_of history_scan_valid_columns "date" column;
  history_sort_asc = sort_asc;
  history_page = 0;
})
reduce_history s (Action.history_grid_filter_changed text) =
    some (record s { history_filter = text; history_page = 0 })
reduce_history s (Action.history_grid_page_changed i) =
    some (record s { history_page = at_least_zero i })
reduce_history s (Action.deletion_history_data_loaded rows) =
    some (record s { history_deletion_rows = rows })
reduce_history s _ = none

abbrev pub or_empty : Option String → String
or_empty none = ""
or_empty (some text) = text

-- The loop over the patch: `None` removes a key.
unfoldable pub merge_ui : ValueDict → ValueDict → ValueDict
merge_ui ui [] = ui
merge_ui ui ((key, value) ∷ patch) =
    merge_ui (if is_none value then erase key ui else insert key value ui) patch

abbrev pub change_preferences : AppState → ValueDict → AppState
change_preferences s [] = s
change_preferences s (e ∷ patch) = record s { ui = merge_ui s.ui (e ∷ patch) }

-- The first result that is not `None`.
abbrev pub or_else : Option AppState → Option AppState → Option AppState
or_else (some s) rest = some s
or_else none rest = rest

module _ (norm : String → String) where
  abbrev pub remove_files : AppState → List String → AppState
  remove_files s [] = s
  remove_files s (p ∷ ps) = record s {
    groups = prune_paths_from_groups norm s.groups (p ∷ ps);
    selected_files = [];
  }

  unfoldable pub reduce_results : AppState → Action → Option AppState
  reduce_results s (Action.results_view_text_filter_changed text) =
      some (record s { results_text_filter = take_chars 2000 (or_empty text) })
  reduce_results s (Action.set_dry_run value) = some (record s { dry_run = value })
  reduce_results s (Action.results_files_removed paths) = some (remove_files s paths)
  reduce_results s (Action.groups_pruned groups) =
      some (record s { groups = groups; selected_files = [] })
  reduce_results s (Action.review_view_filter_changed key) =
      some (record s { review_file_filter = one_of results_file_valid_filters "all" key })
  reduce_results s (Action.workspace_ui_preferences_changed patch) =
      some (change_preferences s patch)
  reduce_results s _ = none

  unfoldable pub reduce : AppState → Action → Option AppState
  unfolding reduce_ui reduce_scan reduce_history reduce_results
  reduce s a =
      or_else (reduce_ui s a)
        (or_else (reduce_scan s a) (or_else (reduce_history s a) (reduce_results s a)))
