-- ===== src/Session/Intents.antt =====
-- cerebro/core/session.py: survivor locks and delete intents, the plan built of them, and the
-- removal of old sessions.
use backhouse_dff.Base.{
  ℕ, suc, ◌-◌, ◌*◌, String, Bool, true, false, Option, none, some, List, [], ◌∷◌, ◌++◌, map,
  if◌then◌else◌, ltb, ◌==◌, text_key,
}
use Prim.Native.String.{◌++◌ as append}
use backhouse_dff.Base.Value.{Value}
use backhouse_dff.Base.Dict.{insert, erase, lookup, has, values}
use backhouse_dff.Session.{
  Intent, ScanRecord, SessionManager, store, store_and_persist, or_raise, or_skip,
}

pub record PlanItem : Type 0 where
  pub path : String
  pub reason : String
  pub survivor : Bool

pub record EffectivePlan : Type 0 where
  pub token : String
  pub policy : String
  pub items : List PlanItem

unfoldable pub lock_survivor :
    (String → String) → String → String → String → ℕ → SessionManager → Option SessionManager
lock_survivor resolve scan_id path reason now m =
    or_raise scan_id
      (λ r.
        store_and_persist scan_id
          (record r {
            survivor_locks =
                insert (resolve path) (record { path = path; reason = reason; timestamp = now })
                  r.survivor_locks;
            delete_intents = erase (resolve path) r.delete_intents;
            updated_at = now;
          })
          m)
      m

unfoldable pub unlock_survivor :
    (String → String) → String → String → ℕ → SessionManager → SessionManager
unlock_survivor resolve scan_id path now m =
    or_skip scan_id
      (λ r.
        store scan_id
          (record r { survivor_locks = erase (resolve path) r.survivor_locks; updated_at = now }) m)
      m

-- An intent for a locked path leaves only a warning, which is not written to disk.
abbrev pub with_intent :
    String → String → String → String → ℕ → SessionManager → ScanRecord → SessionManager
with_intent scan_id key path reason now m r =
    if has key r.survivor_locks
    then store scan_id
        (record r {
          warnings = r.warnings ++ (append "Delete intent ignored (survivor locked): " key ∷ []);
        })
        m
    else store_and_persist scan_id
        (record r {
          delete_intents =
              insert key (record { path = path; reason = reason; timestamp = now })
                r.delete_intents;
          updated_at = now;
        })
        m

unfoldable pub set_delete_intent :
    (String → String) → String → String → String → ℕ → SessionManager → Option SessionManager
set_delete_intent resolve scan_id path reason now m =
    or_raise scan_id (with_intent scan_id (resolve path) path reason now m) m

unfoldable pub clear_delete_intent :
    (String → String) → String → String → ℕ → SessionManager → SessionManager
clear_delete_intent resolve scan_id path now m =
    or_skip scan_id
      (λ r.
        store scan_id
          (record r { delete_intents = erase (resolve path) r.delete_intents; updated_at = now }) m)
      m

unfoldable pub clear_all_intents : String → ℕ → SessionManager → SessionManager
clear_all_intents scan_id now m =
    or_skip scan_id
      (λ r.
        store_and_persist scan_id
          (record r { delete_intents = []; survivor_locks = []; updated_at = now }) m)
      m

abbrev pub item : Bool → Intent → PlanItem
item survivor i = record { path = i.path; reason = i.reason; survivor = survivor }

-- `token or f"ui_{...}"`
abbrev pub token_or : Option String → String → String
token_or none fresh = append "ui_" fresh
token_or (some t) fresh = if t == "" then append "ui_" fresh else t

abbrev pub plan_of :
    Option String → String → String → ScanRecord → List Value → Option EffectivePlan
plan_of token fresh policy r [] = none
plan_of token fresh policy r (g ∷ gs) = some (record {
  token = token_or token fresh;
  policy = policy;
  items = map (item true) (values r.survivor_locks) ++ map (item false) (values r.delete_intents);
})

unfoldable pub build_effective_plan :
    String → Option String → String → String → SessionManager → Option EffectivePlan
build_effective_plan scan_id token fresh policy m = elim (lookup scan_id m.scans) [
  | none ↦ none
  | some r ↦ plan_of token fresh policy r r.groups
]

-- The loop of `cleanup_old_sessions` over a copy of the items, with the count.
unfoldable pub cleanup : ℕ → List (String × ScanRecord) → SessionManager → ℕ × SessionManager
cleanup cutoff [] m = (0, m)
cleanup cutoff (entry ∷ rest) m =
    let gone =
      cleanup cutoff rest
        (record m { scans = erase entry.0 m.scans; persisted = erase entry.0 m.persisted }) in
    let kept = cleanup cutoff rest m in
    if ltb entry.1.updated_at cutoff then (suc gone.0, gone.1) else kept

unfoldable pub cleanup_old_sessions : ℕ → ℕ → ℕ → SessionManager → ℕ × SessionManager
cleanup_old_sessions ticks max_age_days now m =
    cleanup (now - max_age_days * 86400 * ticks) m.scans m
