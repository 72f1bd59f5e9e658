-- ===== src/Session/Tests.antt =====
-- A scan whose files are locked, marked for deletion and unlocked again.
use backhouse_dff.Base.{
  ◌≡◌, refl, if◌then◌else◌, String, false, true, none, some, List, [], ◌∷◌, text_key, ◌==◌,
}
use backhouse_dff.Base.Value.{num}
use backhouse_dff.Base.Dict.{insert, erase, lookup}
use backhouse_dff.Session.{SessionManager, begin_scan, set_groups}
use backhouse_dff.Session.Intents.{lock_survivor, set_delete_intent, build_effective_plan}
use backhouse_dff.Session.Calls.{
  AllExclusive, Call, begin_scan_call, set_groups_call, lock_survivor_call, set_delete_intent_call,
  calls,
}
use backhouse_dff.Session.Locks.{calls-AllExclusive}

abbrev resolve : String → String
resolve p = if p == "b" then "/b" else p

abbrev fresh : SessionManager
fresh = record { scans = []; current_scan_id = none; persisted = [] }

abbrev history : List Call
history =
    begin_scan_call "s1" ("b" ∷ []) [] 10
    ∷ set_groups_call "s1" (num 1 ∷ []) 20
    ∷ set_delete_intent_call "s1" "/b" "same" 25
    ∷ lock_survivor_call "s1" "b" "keep" 30
    ∷ set_delete_intent_call "s1" "/b" "again" 35
    ∷ set_delete_intent_call "s1" "/c" "old" 40
    ∷ lock_survivor_call "s2" "/c" "unknown scan" 50
    ∷ []

-- The lock takes the first intent away and turns the second down.
history_plan :
    build_effective_plan "s1" none "x" "trash" (calls resolve history fresh)
    ≡ some (record {
      token = "ui_x";
      policy = "trash";
      items =
          record { path = "b"; reason = "keep"; survivor = true }
          ∷ record { path = "/c"; reason = "old"; survivor = false }
          ∷ [];
    })
unfolding begin_scan set_groups lock_survivor set_delete_intent build_effective_plan insert erase
    lookup
history_plan = refl

calls-AllExclusive_example : AllExclusive (calls resolve history fresh)
calls-AllExclusive_example = calls-AllExclusive resolve history fresh tt
