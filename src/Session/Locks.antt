-- ===== src/Session/Locks.antt =====
-- The locks and intents of a session, over sequences of calls.
use backhouse_dff.Base.{
  ℕ, ◌≡◌, refl, inl, inr, String, Bool, false, not, ◌&&◌, ◌||◌, List, [], ◌∷◌, ◌++◌, map, arith,
  if◌then◌else◌, Bool-cases, Option-cases, ◌==◌, text_key, ltb,
}
use Prim.Native.String.{◌++◌ as append}
use backhouse_dff.Base.Dict.{
  insert, erase, lookup, has, has-insert, has-erase, insert-All, erase-All, lookup-All,
}
use backhouse_dff.Session.{
  Intent, ScanRecord, SessionManager, new_record, or_raise, or_skip, begin_scan, set_groups,
  set_delete_plan, record_deleted, mark_deleting, mark_cancelled, mark_failed,
}
use backhouse_dff.Session.Intents.{
  lock_survivor, unlock_survivor, with_intent, set_delete_intent, clear_delete_intent,
  clear_all_intents, cleanup, cleanup_old_sessions,
}
use backhouse_dff.Session.Calls.{
  IsExclusive, AllExclusive, Call, begin_scan_call, set_groups_call, set_delete_plan_call,
  record_deleted_call, mark_deleting_call, mark_cancelled_call, mark_failed_call,
  lock_survivor_call, unlock_survivor_call, set_delete_intent_call, clear_delete_intent_call,
  clear_all_intents_call, cleanup_call, or_same, call, calls,
}

-- A change of a scan's record that keeps it exclusive keeps all of them so.
or_skip-AllExclusive :
    (s : String) (change : ScanRecord → ScanRecord) (write : ScanRecord → SessionManager)
    (m : SessionManager)
    → ((r : ScanRecord) → (write r).scans ≡ insert s (change r) m.scans)
    → ((r : ScanRecord) → IsExclusive r → IsExclusive (change r))
    → AllExclusive m
    → AllExclusive (or_skip s write m)
or_skip-AllExclusive s change write m same keeps h = elim (Option-cases (lookup s m.scans)) [
  | inl e ↦ rw (e, or_skip) h
  | inr e ↦
      rw (e.1, or_skip)
        (rw (same e.0) (
          insert-All IsExclusive s (change e.0) m.scans
            (keeps e.0 (lookup-All IsExclusive s m.scans e.0 h e.1)) h))
]

or_same-or_raise :
    (s : String) (write : ScanRecord → SessionManager) (m : SessionManager)
    → or_same m (or_raise s write m) ≡ or_skip s write m
or_same-or_raise s write m = elim (Option-cases (lookup s m.scans)) [
  | inl e ↦ rw (e, or_skip, or_raise) refl
  | inr e ↦ rw (e.1, or_skip, or_raise) refl
]

or_raise-AllExclusive :
    (s : String) (change : ScanRecord → ScanRecord) (write : ScanRecord → SessionManager)
    (m : SessionManager)
    → ((r : ScanRecord) → (write r).scans ≡ insert s (change r) m.scans)
    → ((r : ScanRecord) → IsExclusive r → IsExclusive (change r))
    → AllExclusive m
    → AllExclusive (or_same m (or_raise s write m))
or_raise-AllExclusive s change write m same keeps h =
    rw (or_same-or_raise s write m) (or_skip-AllExclusive s change write m same keeps h)

-- The Boolean part of a lock, an unlock, an intent and its removal, where `e` tells whether the
-- path at hand is the one in question.
locked_apart : (e l d : Bool) → (l && d) ≡ false → ((e || l) && (not e && d)) ≡ false
locked_apart e l d h = ground arith

unlocked_apart : (e l d : Bool) → (l && d) ≡ false → ((not e && l) && d) ≡ false
unlocked_apart e l d h = ground arith

cleared_apart : (e l d : Bool) → (l && d) ≡ false → (l && (not e && d)) ≡ false
cleared_apart e l d h = ground arith

cleanup-AllExclusive :
    (cutoff : ℕ) (entries : List (String × ScanRecord)) (m : SessionManager)
    → AllExclusive m
    → AllExclusive (cleanup cutoff entries m).1
unfolding cleanup
cleanup-AllExclusive cutoff [] m h = h
cleanup-AllExclusive cutoff (entry ∷ rest) m h = elim (Bool-cases (ltb entry.1.updated_at cutoff)) [
  | inl e ↦ rw e (
      cleanup-AllExclusive cutoff rest
        (record m { scans = erase entry.0 m.scans; persisted = erase entry.0 m.persisted })
        (erase-All IsExclusive entry.0 m.scans h))
  | inr e ↦ rw e (cleanup-AllExclusive cutoff rest m h)
]

lock-IsExclusive :
    (k : String) (i : Intent) (now : ℕ) (r : ScanRecord)
    → IsExclusive r
    → IsExclusive (record r {
      survivor_locks = insert k i r.survivor_locks;
      delete_intents = erase k r.delete_intents;
      updated_at = now;
    })
lock-IsExclusive k i now r h q =
    rw (has-insert k q i r.survivor_locks, has-erase k q r.delete_intents)
      (locked_apart (k == q) (has q r.survivor_locks) (has q r.delete_intents) (h q))

unlock-IsExclusive :
    (k : String) (now : ℕ) (r : ScanRecord)
    → IsExclusive r
    → IsExclusive (record r { survivor_locks = erase k r.survivor_locks; updated_at = now })
unlock-IsExclusive k now r h q =
    rw (has-erase k q r.survivor_locks)
      (unlocked_apart (k == q) (has q r.survivor_locks) (has q r.delete_intents) (h q))

clear-IsExclusive :
    (k : String) (now : ℕ) (r : ScanRecord)
    → IsExclusive r
    → IsExclusive (record r { delete_intents = erase k r.delete_intents; updated_at = now })
clear-IsExclusive k now r h q =
    rw (has-erase k q r.delete_intents)
      (cleared_apart (k == q) (has q r.survivor_locks) (has q r.delete_intents) (h q))

-- The record of a scan after a request to delete a path: a locked path leaves a warning.
abbrev warned : String → ScanRecord → ScanRecord
warned k r = record r {
  warnings = r.warnings ++ (append "Delete intent ignored (survivor locked): " k ∷ []);
}

abbrev intended : String → Intent → ℕ → ScanRecord → ScanRecord
intended k i now r = record r { delete_intents = insert k i r.delete_intents; updated_at = now }

abbrev asked : String → Intent → ℕ → ScanRecord → ScanRecord
asked k i now r = if has k r.survivor_locks then warned k r else intended k i now r

with_intent-scans :
    (s k p why : String) (now : ℕ) (m : SessionManager) (r : ScanRecord)
    → (with_intent s k p why now m r).scans
      ≡ insert s (asked k (record { path = p; reason = why; timestamp = now }) now r) m.scans
with_intent-scans s k p why now m r = elim (Bool-cases (has k r.survivor_locks)) [
  | inl e ↦ rw e refl
  | inr e ↦ rw e refl
]

-- The Boolean part of an intent for a path without a lock.
intended_apart : (e l d : Bool) → (e && l) ≡ false → (l && d) ≡ false → (l && (e || d)) ≡ false
intended_apart e l d h k = ground arith

-- A path other than the one at hand may be locked, that one is not.
other_locked :
    (k q : String) (locks : List (String × Intent))
    → has k locks ≡ false
    → ((k == q) && has q locks) ≡ false
other_locked k q locks h = elim (Bool-cases (k == q)) [
  | inl e ↦
      let free : has q locks ≡ false = rw⁻¹ ((text_key.eqb_iff k q).0 e) h in rw (e, free) refl
  | inr e ↦ rw e refl
]

asked-IsExclusive :
    (k : String) (i : Intent) (now : ℕ) (r : ScanRecord)
    → IsExclusive r
    → IsExclusive (asked k i now r)
asked-IsExclusive k i now r h q = elim (Bool-cases (has k r.survivor_locks)) [
  | inl e ↦ rw e (h q)
  | inr e ↦
      rw (e, has-insert k q i r.delete_intents)
        (intended_apart (k == q) (has q r.survivor_locks) (has q r.delete_intents)
          (other_locked k q r.survivor_locks e) (h q))
]

-- Every call keeps the records exclusive.
call-AllExclusive :
    (resolve : String → String) (c : Call) (m : SessionManager)
    → AllExclusive m
    → AllExclusive (call resolve c m)
unfolding lookup begin_scan set_groups set_delete_plan record_deleted mark_deleting mark_cancelled
    mark_failed lock_survivor unlock_survivor set_delete_intent clear_delete_intent
    clear_all_intents cleanup_old_sessions
call-AllExclusive resolve (begin_scan_call s roots meta now) m h =
    insert-All IsExclusive s (new_record s (map resolve roots) meta now) m.scans (λ k. refl) h
call-AllExclusive resolve (set_groups_call s gs now) m h =
    or_raise-AllExclusive s _ _ m (λ r. refl) (λ r x. x) h
call-AllExclusive resolve (set_delete_plan_call s plan now) m h =
    or_raise-AllExclusive s _ _ m (λ r. refl) (λ r x. x) h
call-AllExclusive resolve (record_deleted_call s gone kept now) m h =
    or_raise-AllExclusive s _ _ m (λ r. refl) (λ r x. x) h
call-AllExclusive resolve (mark_deleting_call s now) m h =
    or_skip-AllExclusive s _ _ m (λ r. refl) (λ r x. x) h
call-AllExclusive resolve (mark_cancelled_call s why now) m h =
    or_skip-AllExclusive s _ _ m (λ r. refl) (λ r x. x) h
call-AllExclusive resolve (mark_failed_call s why now) m h =
    or_skip-AllExclusive s _ _ m (λ r. refl) (λ r x. x) h
call-AllExclusive resolve (lock_survivor_call s p why now) m h =
    or_raise-AllExclusive s _ _ m (λ r. refl)
      (lock-IsExclusive (resolve p) (record { path = p; reason = why; timestamp = now }) now) h
call-AllExclusive resolve (unlock_survivor_call s p now) m h =
    or_skip-AllExclusive s _ _ m (λ r. refl) (unlock-IsExclusive (resolve p) now) h
call-AllExclusive resolve (set_delete_intent_call s p why now) m h =
    let i : Intent = record { path = p; reason = why; timestamp = now } in
    or_raise-AllExclusive s (asked (resolve p) i now) _ m
      (with_intent-scans s (resolve p) p why now m) (asked-IsExclusive (resolve p) i now) h
call-AllExclusive resolve (clear_delete_intent_call s p now) m h =
    or_skip-AllExclusive s _ _ m (λ r. refl) (clear-IsExclusive (resolve p) now) h
call-AllExclusive resolve (clear_all_intents_call s now) m h =
    or_skip-AllExclusive s _ _ m (λ r. refl) (λ r x k. refl) h
call-AllExclusive resolve (cleanup_call ticks days now) m h = cleanup-AllExclusive _ m.scans m h

-- Whatever calls are made one after the other, no scan has a path that is both locked as a
-- survivor and meant to be deleted, where no scan had one before.
pub calls-AllExclusive :
    (resolve : String → String) (cs : List Call) (m : SessionManager)
    → AllExclusive m
    → AllExclusive (calls resolve cs m)
calls-AllExclusive resolve [] m h = h
calls-AllExclusive resolve (c ∷ cs) m h =
    calls-AllExclusive resolve cs (call resolve c m) (call-AllExclusive resolve c m h)
