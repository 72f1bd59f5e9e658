-- ===== src/Session/Calls.antt =====
-- The calls that change a session manager, as data, so that a run is a list of them.
use backhouse_dff.Base.{
  ℕ, ◌≡◌, String, false, ◌&&◌, Option, none, some, List, [], ◌∷◌, All, text_key,
}
use backhouse_dff.Base.Value.{Value}
use backhouse_dff.Base.Dict.{has}
use backhouse_dff.Session.{
  ScanRecord, SessionManager, begin_scan, set_groups, set_delete_plan, record_deleted,
  mark_deleting, mark_cancelled, mark_failed,
}
use backhouse_dff.Session.Intents.{
  lock_survivor, unlock_survivor, set_delete_intent, clear_delete_intent, clear_all_intents,
  cleanup_old_sessions,
}

-- No path has both a lock and an intent.
abbrev pub IsExclusive : ScanRecord → Type 0
IsExclusive r = (k : String) → (has k r.survivor_locks && has k r.delete_intents) ≡ false

abbrev pub AllExclusive : SessionManager → Type 0
AllExclusive m = All (λ entry. IsExclusive entry.1) m.scans

-- The calls that change a manager.
pub data Call : Type 0 where
  begin_scan_call : String → List String → List (String × Value) → ℕ → Call
  set_groups_call : String → List Value → ℕ → Call
  set_delete_plan_call : String → Value → ℕ → Call
  record_deleted_call : String → List String → List (String × String) → ℕ → Call
  mark_deleting_call : String → ℕ → Call
  mark_cancelled_call : String → String → ℕ → Call
  mark_failed_call : String → String → ℕ → Call
  lock_survivor_call : String → String → String → ℕ → Call
  unlock_survivor_call : String → String → ℕ → Call
  set_delete_intent_call : String → String → String → ℕ → Call
  clear_delete_intent_call : String → String → ℕ → Call
  clear_all_intents_call : String → ℕ → Call
  cleanup_call : ℕ → ℕ → ℕ → Call

-- A call that raises leaves the manager as it is.
abbrev pub or_same : SessionManager → Option SessionManager → SessionManager
or_same m none = m
or_same m (some n) = n

abbrev pub call : (String → String) → Call → SessionManager → SessionManager
call resolve (begin_scan_call s roots meta now) m = begin_scan resolve s roots meta now m
call resolve (set_groups_call s gs now) m = or_same m (set_groups s gs now m)
call resolve (set_delete_plan_call s plan now) m = or_same m (set_delete_plan s plan now m)
call resolve (record_deleted_call s gone kept now) m = or_same m (record_deleted s gone kept now m)
call resolve (mark_deleting_call s now) m = mark_deleting s now m
call resolve (mark_cancelled_call s why now) m = mark_cancelled s why now m
call resolve (mark_failed_call s why now) m = mark_failed s why now m
call resolve (lock_survivor_call s p why now) m = or_same m (lock_survivor resolve s p why now m)
call resolve (unlock_survivor_call s p now) m = unlock_survivor resolve s p now m
call resolve (set_delete_intent_call s p why now) m =
    or_same m (set_delete_intent resolve s p why now m)
call resolve (clear_delete_intent_call s p now) m = clear_delete_intent resolve s p now m
call resolve (clear_all_intents_call s now) m = clear_all_intents s now m
call resolve (cleanup_call ticks days now) m = (cleanup_old_sessions ticks days now m).1

abbrev pub calls : (String → String) → List Call → SessionManager → SessionManager
calls resolve [] m = m
calls resolve (c ∷ cs) m = calls resolve cs (call resolve c m)
