-- ===== src/State/Reducer/Shape.antt =====
-- The shape of a state, and what the actions do to it.
use mathlib.Core.Path.{subst}
use backhouse_dff.Base.{
  ◌≡◌, refl, ap, ◌≤◌, inl, inr, String, Bool, true, false, List, [], ◌∷◌, Option, none, some, arith,
  contains, text_key, if◌then◌else◌, Bool-cases, ◌&&◌, ◌==◌,
}
use backhouse_dff.Base.Text.{count_chars, count-take_chars-le}
use backhouse_dff.State.Action.{Action}
use backhouse_dff.State.Model.{AppMode, AppState, valid_main_tab_keys, create_initial_state}
use backhouse_dff.State.Reducer.{
  reduce, valid_themes, results_file_valid_filters, history_scan_valid_columns, one_of, set_tab,
  or_empty,
}

-- The fields that the views index by hold known keys, the text filter is bounded, and a scan is
-- never offered both pause and resume.
pub record IsWellFormed (s : AppState) : Type 0 where
  pub theme : contains valid_themes s.theme ≡ true
  pub tab : contains valid_main_tab_keys s.active_tab ≡ true
  pub file_filter : contains results_file_valid_filters s.review_file_filter ≡ true
  pub sort_column : contains history_scan_valid_columns s.history_sort_column ≡ true
  pub text_filter : count_chars s.results_text_filter ≤ 2000
  pub one_control : (s.scan_can_pause && s.scan_can_resume) ≡ false

pub create_initial_state-IsWellFormed : IsWellFormed create_initial_state
unfolding create_initial_state
create_initial_state-IsWellFormed = record {
  theme = refl;
  tab = refl;
  file_filter = refl;
  sort_column = refl;
  text_filter = omega arith;
  one_control = refl;
}

contains-one_of :
    (valid : List String) (default key : String)
    → contains valid default ≡ true
    → contains valid (one_of valid default key) ≡ true
contains-one_of valid default key h = elim (Bool-cases (contains valid key)) [
  | inl e ↦ rw e e
  | inr e ↦ rw e h
]

set_tab-IsWellFormed :
    (s : AppState) (key : String)
    → contains valid_main_tab_keys key ≡ true
    → IsWellFormed s
    → IsWellFormed (set_tab s key)
set_tab-IsWellFormed s key h w = ground arith

choose_IsWellFormed :
    (b : Bool) (x y : AppState)
    → (b ≡ true → IsWellFormed x)
    → IsWellFormed y
    → IsWellFormed (if b then x else y)
choose_IsWellFormed true x y f w = f refl
choose_IsWellFormed false x y f w = w

abbrev get_or : AppState → Option AppState → AppState
get_or s none = s
get_or s (some t) = t

some-IsWellFormed : {x t : AppState} → some x ≡ some t → IsWellFormed x → IsWellFormed t
some-IsWellFormed {x} h w = subst IsWellFormed (ap (get_or x) h) w

-- Every action keeps the state well formed.
pub reduce-IsWellFormed :
    (norm : String → String) (s : AppState) (a : Action) {t : AppState}
    → reduce norm s a ≡ some t
    → IsWellFormed s
    → IsWellFormed t
unfolding reduce
reduce-IsWellFormed norm s (Action.results_view_text_filter_changed text) h w =
    ground (arith, count-take_chars-le 2000 (or_empty text))
reduce-IsWellFormed norm s (Action.review_view_filter_changed key) h w =
    ground (arith, contains-one_of results_file_valid_filters "all" key refl)
reduce-IsWellFormed norm s (Action.history_grid_sort_changed column sort_asc) h w =
    ground (arith, contains-one_of history_scan_valid_columns "date" column refl)
reduce-IsWellFormed norm s (Action.set_active_tab key) h w = some-IsWellFormed h (
    choose_IsWellFormed (contains valid_main_tab_keys key) (set_tab s key) s
      (λ e. set_tab-IsWellFormed s key e w) w)
reduce-IsWellFormed norm s (Action.results_files_removed []) h w = ground arith
reduce-IsWellFormed norm s (Action.results_files_removed (p ∷ ps)) h w = ground arith
reduce-IsWellFormed norm s (Action.theme_changed x) h w = some-IsWellFormed h (
    choose_IsWellFormed (contains valid_themes x) (record s { theme = x }) s
      (λ e. record {
        theme = e;
        tab = w.tab;
        file_filter = w.file_filter;
        sort_column = w.sort_column;
        text_filter = w.text_filter;
        one_control = w.one_control;
      })
      w)
reduce-IsWellFormed norm s (Action.scan_ended reason) h w = some-IsWellFormed h (
    choose_IsWellFormed (contains ("cancelled" ∷ "error" ∷ []) reason)
      (record s {
        mode = AppMode.idle;
        scan_progress = [];
        scan_can_pause = false;
        scan_can_resume = false;
        scan_is_cancelled = reason == "cancelled";
      })
      s
      (λ e. record {
        theme = w.theme;
        tab = w.tab;
        file_filter = w.file_filter;
        sort_column = w.sort_column;
        text_filter = w.text_filter;
        one_control = refl;
      })
      w)
reduce-IsWellFormed norm s (Action.scan_completed groups m) h w = some-IsWellFormed h (record {
  theme = w.theme;
  tab = refl;
  file_filter = refl;
  sort_column = w.sort_column;
  text_filter = w.text_filter;
  one_control = refl;
})
reduce-IsWellFormed norm s a h w = ground arith
