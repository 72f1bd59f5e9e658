-- ===== src/State.antt =====
-- cerebro/v2/state: the single state of the shell, the actions that change it, the reducer that
-- applies them and the store that notifies its listeners.
pub mod Prune
pub mod Model
pub mod Action
pub mod Reducer
pub mod Store
