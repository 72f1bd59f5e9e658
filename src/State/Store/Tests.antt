-- ===== src/State/Store/Tests.antt =====
-- A store with two listeners.
use backhouse_dff.Base.{ℕ, ◌≡◌, refl, true, List, [], ◌∷◌, some, nat_key}
use backhouse_dff.State.Action.{Action}
use backhouse_dff.State.Model.{AppState, create_initial_state}
use backhouse_dff.State.Reducer.{reduce}
use backhouse_dff.State.Store.{StateStore, Notice, subscribe, new_store, dispatch, dispatch_all}

abbrev store : StateStore
store = record { state = create_initial_state; listeners = 1 ∷ 2 ∷ [] }

abbrev actions : List Action
actions = Action.theme_changed "dark" ∷ Action.set_dry_run true ∷ []

abbrev dark : AppState
dark = record create_initial_state { theme = "dark" }

abbrev last : StateStore
last = record store { state = record dark { dry_run = true } }

abbrev told : ℕ → AppState → AppState → Action → Notice
told fn current old action = record { listener = fn; current = current; old = old; action = action }

abbrev notices : List Notice
notices =
    told 1 dark create_initial_state (Action.theme_changed "dark")
    ∷ told 2 dark create_initial_state (Action.theme_changed "dark")
    ∷ told 1 last.state dark (Action.set_dry_run true)
    ∷ told 2 last.state dark (Action.set_dry_run true)
    ∷ []

store_run : dispatch_all (λ p. p) store actions ≡ some (last, notices)
unfolding dispatch_all dispatch reduce
store_run = refl

store_subscribed : subscribe (subscribe (new_store create_initial_state) 1) 2 ≡ store
unfolding subscribe new_store
store_subscribed = refl
