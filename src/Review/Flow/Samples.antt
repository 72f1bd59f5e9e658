-- ===== src/Review/Flow/Samples.antt =====
-- A review of one group of three files.
use backhouse_dff.Base.{[], ◌∷◌}
use backhouse_dff.Engine.Samples.{three_group}
use backhouse_dff.Review.Flow.{ReviewScreen, ReviewFlowState}

abbrev pub fresh : ReviewFlowState
fresh = record {
  active_screen = ReviewScreen.overview;
  screen_stack = ReviewScreen.overview ∷ [];
  scan_results = three_group ∷ [];
  selected_set_ids = [];
  marked_paths = [];
  set_selections = [];
  protected_path_prefixes = "/windows" ∷ [];
  undo_stack = [];
  redo_stack = [];
}
