-- ===== src/State/Action.antt =====
-- cerebro/v2/state/actions.py: the actions. The last two are retired: the classes exist, and the
-- union `Action` does not hold them.
use backhouse_dff.Base.{ℕ, String, Bool, List, Option}
use backhouse_dff.Base.Int.{ℤ}
use backhouse_dff.Engine.{DuplicateGroup}
use backhouse_dff.State.Model.{ValueDict}

pub data Action : Type 0 where
  advanced_mode_toggled : Option Bool → Action
  theme_changed : String → Action
  file_selection_changed : List String → Action
  file_selection_cleared : Action
  scan_started : (scan_mode : String) → Action
  scan_progress_snapshot : ValueDict → Action
  scan_ended : (reason : String) → Action
  scan_paused : Action
  scan_resumed : Action
  scan_completed : List DuplicateGroup → (scan_mode : String) → Action
  set_active_tab : String → Action
  review_navigate : (group_id : ℕ) → Option (List DuplicateGroup) → Action
  review_view_filter_changed : String → Action
  history_data_loaded : List ValueDict → Action
  history_grid_sort_changed : (column : String) → (sort_asc : Bool) → Action
  history_grid_filter_changed : String → Action
  history_grid_page_changed : ℤ → Action
  deletion_history_data_loaded : List ValueDict → Action
  history_sub_tab_changed : String → Action
  results_view_text_filter_changed : Option String → Action
  set_dry_run : Bool → Action
  results_files_removed : List String → Action
  groups_pruned : List DuplicateGroup → Action
  workspace_ui_preferences_changed : ValueDict → Action
  results_group_grid_sort_changed : (column : String) → (sort_asc : Bool) → Action
  results_view_filter_changed : String → Action
