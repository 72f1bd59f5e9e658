-- ===== src/State/Store.antt =====
-- cerebro/v2/state/store.py: the store. A listener is known by a number, and a call of it is
-- recorded as a notice. The listeners are taken not to call the store back.
pub mod Notices
mod Tests
use backhouse_dff.Base.{
  ℕ, String, Bool, List, [], ◌∷◌, ◌++◌, map, Option, none, some, contains, nat_key, ◌==◌,
  if◌then◌else◌,
}
use backhouse_dff.State.Action.{Action}
use backhouse_dff.State.Model.{AppState}
use backhouse_dff.State.Reducer.{reduce}

pub record StateStore : Type 0 where
  pub state : AppState
  pub listeners : List ℕ

-- `fn(current, old, action)`
pub record Notice : Type 0 where
  pub listener : ℕ
  pub current : AppState
  pub old : AppState
  pub action : Action

unfoldable pub new_store : AppState → StateStore
new_store initial = record { state = initial; listeners = [] }

unfoldable pub subscribe : StateStore → ℕ → StateStore
subscribe st fn =
    if contains st.listeners fn then st else record st { listeners = st.listeners ++ fn ∷ [] }

-- `list.remove`: without the first occurrence, and unchanged where there is none, since the
-- ValueError is caught.
abbrev pub remove : ℕ → List ℕ → List ℕ
remove fn [] = []
remove fn (x ∷ xs) = if x == fn then xs else x ∷ remove fn xs

unfoldable pub unsubscribe : StateStore → ℕ → StateStore
unsubscribe st fn = record st { listeners = remove fn st.listeners }

-- `dispatch`; `none` is the reducer's TypeError, which leaves the store as it was.
unfoldable pub dispatch :
    (String → String) → StateStore → Action → Option (StateStore × List Notice)
dispatch norm st action = elim (reduce norm st.state action) [
  | none ↦ none
  | some current ↦ some (
    record st { state = current },
    map (λ fn. record { listener = fn; current = current; old = st.state; action = action })
        st.listeners,
  )
]

abbrev pub prepend :
    List Notice → Option (StateStore × List Notice) → Option (StateStore × List Notice)
prepend notices none = none
prepend notices (some (last, more)) = some (last, notices ++ more)

-- A sequence of dispatches, with all their notices in order.
unfoldable pub dispatch_all :
    (String → String) → StateStore → List Action → Option (StateStore × List Notice)
dispatch_all norm st [] = some (st, [])
dispatch_all norm st (a ∷ rest) = elim (dispatch norm st a) [
  | none ↦ none
  | some (next, notices) ↦ prepend notices (dispatch_all norm next rest)
]
