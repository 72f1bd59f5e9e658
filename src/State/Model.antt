-- ===== src/State/Model.antt =====
-- cerebro/v2/state/app_state.py: the state of the shell.
use backhouse_dff.Base.{ℕ, String, Bool, false, List, [], ◌∷◌, Option, none}
use backhouse_dff.Base.Value.{Value, str}
use backhouse_dff.Engine.{DuplicateGroup}

abbrev pub valid_main_tab_keys : List String
valid_main_tab_keys = "dashboard" ∷ "review" ∷ "history" ∷ "settings" ∷ []

pub data AppMode : Type 0 where
  idle scanning results review : AppMode

-- A `Dict[str, Any]`.
abbrev pub ValueDict : Type 0
ValueDict = List (String × Value)

-- A set is a list whose order and repetitions the code never reads.
pub record AppState : Type 0 where
  pub mode : AppMode
  pub theme : String
  pub groups : List DuplicateGroup
  pub selected_files : List String
  pub filters : ValueDict
  pub scan_progress : ValueDict
  pub history : List ValueDict
  pub ui : ValueDict
  pub scan_mode : String
  pub active_tab : String
  pub review_unlocked : Bool
  pub dry_run : Bool
  pub advanced_mode : Bool
  pub selected_group_id : Option ℕ
  pub history_scan_rows : List ValueDict
  pub history_sort_column : String
  pub history_sort_asc : Bool
  pub history_filter : String
  pub history_page : ℕ
  pub history_page_size : ℕ
  pub review_file_filter : String
  pub results_text_filter : String
  pub history_deletion_rows : List ValueDict
  pub scan_profiles : List ValueDict
  pub scan_can_pause : Bool
  pub scan_can_resume : Bool
  pub scan_is_cancelled : Bool

unfoldable pub create_initial_state : AppState
create_initial_state = record {
  mode = AppMode.idle;
  theme = "system";
  groups = [];
  selected_files = [];
  filters = [];
  scan_progress = [];
  history = [];
  ui = ("history_subtab", str "scan") ∷ [];
  scan_mode = "files";
  active_tab = "dashboard";
  review_unlocked = false;
  dry_run = false;
  advanced_mode = false;
  selected_group_id = none;
  history_scan_rows = [];
  history_sort_column = "date";
  history_sort_asc = false;
  history_filter = "";
  history_page = 0;
  history_page_size = 30;
  review_file_filter = "all";
  results_text_filter = "";
  history_deletion_rows = [];
  scan_profiles = [];
  scan_can_pause = false;
  scan_can_resume = false;
  scan_is_cancelled = false;
}
