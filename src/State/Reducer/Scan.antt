-- ===== src/State/Reducer/Scan.antt =====
-- The life of a scan under the reducer, and the selection of files.
use backhouse_dff.Base.{
  ◌≡◌, ◌⊎◌, ◌↔◌, String, Bool, true, false, [], ◌∷◌, none, some, arith, contains, text_key,
}
use backhouse_dff.State.Action.{Action}
use backhouse_dff.State.Model.{AppState}
use backhouse_dff.State.Reducer.{reduce, set_tab, is_scanning}

-- The two classes that the union `Action` no longer holds.
abbrev pub is_retired : Action → Bool
is_retired (Action.results_group_grid_sort_changed column sort_asc) = true
is_retired (Action.results_view_filter_changed key) = true
is_retired _ = false

-- The actions that may end a scan.
abbrev pub ends_scan : Action → Bool
ends_scan (Action.scan_ended reason) = contains ("cancelled" ∷ "error" ∷ []) reason
ends_scan (Action.scan_completed groups m) = true
ends_scan (Action.review_navigate group_id groups) = true
ends_scan _ = false

abbrev pub starts_scan : Action → Bool
starts_scan (Action.scan_started m) = true
starts_scan _ = false

set_tab-scanning :
    (s : AppState) (key : String) → is_scanning (set_tab s key).mode ≡ is_scanning s.mode
set_tab-scanning s key = ground arith

module _ (norm : String → String) (s : AppState) where
  -- `reduce` raises exactly for the retired actions: every action of the union is handled.
  pub reduce-eq-none_iff : (a : Action) → (reduce norm s a ≡ none) ↔ (is_retired a ≡ true)
  unfolding reduce
  reduce-eq-none_iff (Action.theme_changed t) = ground arith
  reduce-eq-none_iff a = ground arith

  -- The mode becomes `scanning` by `ScanStarted` alone, and a scan's mode is left only by
  -- `ScanEnded` with a valid reason, `ScanCompleted` or `ReviewNavigate`.
  pub reduce-scanning :
      (a : Action) {t : AppState}
      → reduce norm s a ≡ some t
      → (is_scanning t.mode ≡ is_scanning s.mode)
        ⊎ ((is_scanning t.mode ≡ true) × (starts_scan a ≡ true))
        ⊎ ((is_scanning t.mode ≡ false) × (ends_scan a ≡ true))
  unfolding reduce
  reduce-scanning (Action.set_active_tab key) h = ground (arith, set_tab-scanning s key)
  reduce-scanning a h = ground arith

  -- An action either leaves the groups alone, or clears the selection of files: no file of groups
  -- that are gone stays selected.
  pub reduce-groups :
      (a : Action) {t : AppState}
      → reduce norm s a ≡ some t
      → (t.groups ≡ s.groups) ⊎ (t.selected_files ≡ [])
  unfolding reduce
  reduce-groups (Action.results_files_removed []) h = ground arith
  reduce-groups a h = ground arith
