-- ===== src/Session.antt =====
-- cerebro/core/session.py: the scans, their states and what the user wants done with their files.
-- `resolve` is `str(Path(p).resolve())`, and `now` the time that a call reads. The lock is held
-- over every operation, so that each is one step. A raised KeyError is `none`. Groups, plans and
-- metadata, which the manager only stores, are opaque values. The store on disk is the list of the
-- records in it; a write that fails is only logged, and is left out.
pub mod Intents
pub mod Calls
pub mod Locks
mod Tests
use backhouse_dff.Base.{
  ℕ, zero, suc, ◌-◌, ◌*◌, String, Bool, true, false, not, ◌||◌, Option, none, some, List, [], ◌∷◌,
  ◌++◌, map, if◌then◌else◌, ltb, length, filter, ◌==◌, text_key, KeyEq,
}
use Prim.Native.String.{◌++◌ as append}
use backhouse_dff.Base.Value.{Value}
use backhouse_dff.Base.Dict.{insert, erase, lookup, has, keys, values}

pub data ScanState : Type 0 where
  new : ScanState
  running : ScanState
  scanned : ScanState
  decided : ScanState
  deleting : ScanState
  deleted : ScanState
  cancelled : ScanState
  failed : ScanState

-- A SurvivorLock or a DeleteIntent.
pub record Intent : Type 0 where
  pub path : String
  pub reason : String
  pub timestamp : ℕ

pub record DeletionResult : Type 0 where
  pub deleted : List String
  pub failed : List (String × String)
  pub timestamp : ℕ

pub record ScanRecord : Type 0 where
  pub scan_id : String
  pub roots : List String
  pub metadata : List (String × Value)
  pub state : ScanState
  pub created_at : ℕ
  pub updated_at : ℕ
  pub groups : List Value
  pub delete_plan : Option Value
  pub survivor_locks : List (String × Intent)
  pub delete_intents : List (String × Intent)
  pub deletion_result : Option DeletionResult
  pub warnings : List String
  pub notes : List String

pub record SessionManager : Type 0 where
  pub scans : List (String × ScanRecord)
  pub current_scan_id : Option String
  -- The files below `persist_path`, by the scan's id.
  pub persisted : List (String × ScanRecord)

abbrev pub persist : ScanRecord → SessionManager → SessionManager
persist r m = record m { persisted = insert r.scan_id r m.persisted }

-- The record is mutated in place, and then written.
abbrev pub store : String → ScanRecord → SessionManager → SessionManager
store scan_id r m = record m { scans = insert scan_id r m.scans }

abbrev pub store_and_persist : String → ScanRecord → SessionManager → SessionManager
store_and_persist scan_id r m = persist r (store scan_id r m)

abbrev pub new_record : String → List String → List (String × Value) → ℕ → ScanRecord
new_record scan_id roots metadata now = record {
  scan_id = scan_id;
  roots = roots;
  metadata = metadata;
  state = running;
  created_at = now;
  updated_at = now;
  groups = [];
  delete_plan = none;
  survivor_locks = [];
  delete_intents = [];
  deletion_result = none;
  warnings = [];
  notes = [];
}

unfoldable pub begin_scan :
    (String → String)
    → String
    → List String
    → List (String × Value)
    → ℕ
    → SessionManager
    → SessionManager
begin_scan resolve scan_id roots metadata now m =
    let r = new_record scan_id (map resolve roots) metadata now in
    persist r (record m { scans = insert scan_id r m.scans; current_scan_id = some scan_id })

-- An operation that raises a KeyError for an unknown scan, and one that does nothing.
abbrev pub or_raise :
    String → (ScanRecord → SessionManager) → SessionManager → Option SessionManager
or_raise scan_id change m = elim (lookup scan_id m.scans) [ none ↦ none | some r ↦ some (change r) ]

abbrev pub or_skip : String → (ScanRecord → SessionManager) → SessionManager → SessionManager
or_skip scan_id change m = elim (lookup scan_id m.scans) [ none ↦ m | some r ↦ change r ]

unfoldable pub set_groups : String → List Value → ℕ → SessionManager → Option SessionManager
set_groups scan_id groups now m =
    or_raise scan_id
      (λ r.
        store_and_persist scan_id (record r { groups = groups; state = scanned; updated_at = now })
          m)
      m

unfoldable pub set_delete_plan : String → Value → ℕ → SessionManager → Option SessionManager
set_delete_plan scan_id plan now m =
    or_raise scan_id
      (λ r.
        store_and_persist scan_id
          (record r { delete_plan = some plan; state = decided; updated_at = now }) m)
      m

unfoldable pub record_deleted :
    String → List String → List (String × String) → ℕ → SessionManager → Option SessionManager
record_deleted scan_id gone kept now m =
    or_raise scan_id
      (λ r.
        store_and_persist scan_id
          (record r {
            deletion_result = some (record { deleted = gone; failed = kept; timestamp = now });
            state = deleted;
            updated_at = now;
          })
          m)
      m

unfoldable pub mark_deleting : String → ℕ → SessionManager → SessionManager
mark_deleting scan_id now m =
    or_skip scan_id (λ r. store scan_id (record r { state = deleting; updated_at = now }) m) m

-- `if reason: record.notes.append(...)`
abbrev pub noted : String → String → List String → List String
noted prefix reason notes = if reason == "" then notes else notes ++ (append prefix reason ∷ [])

unfoldable pub mark_cancelled : String → String → ℕ → SessionManager → SessionManager
mark_cancelled scan_id reason now m =
    or_skip scan_id
      (λ r.
        store_and_persist scan_id
          (record r {
            state = cancelled;
            updated_at = now;
            notes = noted "Cancelled: " reason r.notes;
          })
          m)
      m

unfoldable pub mark_failed : String → String → ℕ → SessionManager → SessionManager
mark_failed scan_id error now m =
    or_skip scan_id
      (λ r.
        store_and_persist scan_id
          (record r { state = failed; updated_at = now; notes = noted "Failed: " error r.notes }) m)
      m
