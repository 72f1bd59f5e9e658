-- ===== src/State/Reducer/Tests.antt =====
-- Transitions at concrete states.
use backhouse_dff.Base.{◌≡◌, refl, String, true, List, [], ◌∷◌, some, text_key}
use backhouse_dff.Base.Dict.{insert, erase}
use backhouse_dff.Base.Value.{Value, str, none_value}
use backhouse_dff.Engine.Samples.{three_group}
use backhouse_dff.State.Action.{Action}
use backhouse_dff.State.Model.{AppMode, AppState, create_initial_state}
use backhouse_dff.State.Reducer.{reduce, merge_ui}
use backhouse_dff.State.Reducer.Shape.{
  IsWellFormed, create_initial_state-IsWellFormed, reduce-IsWellFormed,
}

abbrev same : String → String
same p = p

abbrev started : AppState
unfolding create_initial_state
started = record create_initial_state { mode = AppMode.scanning; scan_can_pause = true }

reduce-started : reduce same create_initial_state (Action.scan_started "") ≡ some started
unfolding reduce create_initial_state
reduce-started = refl

reduce-tab_while_scanning :
    reduce same started (Action.set_active_tab "history")
    ≡ some (record started { active_tab = "history" })
unfolding reduce create_initial_state
reduce-tab_while_scanning = refl

abbrev with_groups : AppState
with_groups = record started { groups = three_group ∷ []; selected_files = "/a" ∷ [] }

abbrev without_groups : AppState
without_groups = record started { groups = []; selected_files = [] }

reduce-pruned : reduce same with_groups (Action.groups_pruned []) ≡ some without_groups
unfolding reduce create_initial_state
reduce-pruned = refl

reduce-IsWellFormed_example : IsWellFormed started
reduce-IsWellFormed_example =
    reduce-IsWellFormed same create_initial_state (Action.scan_started "") reduce-started
      create_initial_state-IsWellFormed

abbrev patch : List (String × Value)
patch = ("history_subtab", none_value) ∷ ("view", str "grid") ∷ []

abbrev patched_state : AppState
patched_state = record started { ui = ("view", str "grid") ∷ [] }

reduce-patch :
    reduce same started (Action.workspace_ui_preferences_changed patch) ≡ some patched_state
unfolding reduce create_initial_state merge_ui insert erase
reduce-patch = refl
