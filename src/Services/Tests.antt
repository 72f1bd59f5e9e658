-- ===== src/Services/Tests.antt =====
-- Runs on small inputs.
use backhouse_dff.Base.{
  ℕ, ◌≡◌, refl, String, Bool, true, false, none, some, [], ◌∷◌, arith, map, filter, text_key,
}
use backhouse_dff.Base.Dict.{insert, erase, lookup}
use backhouse_dff.Services.Scheduler.{
  ScheduledJob, Table, check_and_fire, reschedule, reschedule_all, is_due,
}
use backhouse_dff.Services.Scheduler.Firing.{IsTable, RisesFrom, fired, check_and_fire-fired}
use backhouse_dff.Services.Thumbnails.{Thumbnails, get, remember, evict, loaded}
use backhouse_dff.Services.Thumbnails.Recency.{IsCache, Served, or_loaded, get-Served}
use backhouse_dff.Services.Json.{str, num, Fields, of_list, get as get_field}
use backhouse_dff.Services.Migration.{migrate_config}
use backhouse_dff.Services.Migration.Chain.{version_of, migrate_config-version_of}

abbrev job : ℕ → Bool → ℕ → ScheduledJob
job id enabled next_run = record {
  id = id;
  label = "photos";
  folders = "/photos" ∷ [];
  mode = "photos";
  interval_hours = 2;
  enabled = enabled;
  last_run = none;
  next_run = next_run;
}

abbrev table : Table
table = record { rows = job 1 true 50 ∷ job 2 false 40 ∷ job 4 true 90 ∷ []; next_id = 5 }

table-IsTable : IsTable table
unfolding IsTable RisesFrom
table-IsTable = (
  (omega arith, (omega arith, (omega arith, tt))),
  (omega arith, (omega arith, (omega arith, tt))),
)

check_and_fire_run : check_and_fire 10 60 table ≡ (
  record table {
    rows = record (job 1 true 80) { last_run = some 60 } ∷ job 2 false 40 ∷ job 4 true 90 ∷ [];
  },
  job 1 true 50 ∷ [],
)
unfolding check_and_fire reschedule_all reschedule
check_and_fire_run = refl

check_and_fire-fired_example :
    check_and_fire 10 60 table
    ≡ (record table { rows = map (fired 10 60) table.rows }, filter (is_due 10 60) table.rows)
check_and_fire-fired_example = check_and_fire-fired 10 60 table table-IsTable

abbrev thumbs : Thumbnails
thumbs = ("a", some "A") ∷ ("b", none) ∷ []

get_run : get 2 "a" true none thumbs ≡ (("b", none) ∷ ("a", some "A") ∷ [], some "A")
unfolding get lookup erase
get_run = refl

get_miss : get 2 "c" true (some "C") thumbs ≡ (("b", none) ∷ ("c", some "C") ∷ [], some "C")
unfolding get lookup erase remember evict insert
get_miss = refl

thumbs-IsCache : IsCache 2 thumbs
unfolding IsCache
thumbs-IsCache = (omega arith, (refl, (refl, tt)))

get-Served_example :
    ((get 2 "c" true (some "C") thumbs).1 ≡ or_loaded (lookup "c" thumbs) (loaded true (some "C")))
    × Served 2 "c" thumbs (get 2 "c" true (some "C") thumbs).1 (get 2 "c" true (some "C") thumbs).0
get-Served_example = get-Served 2 "c" true (some "C") thumbs (omega arith) thumbs-IsCache

abbrev old_config : Fields
old_config = of_list (("config_version", str "1.0.0") ∷ ("font_size", num 14) ∷ [])

abbrev joined : String → String → String
joined dir name = name

migrate_config-version_of_example :
    (d' : Fields) × (migrate_config (λ p. p) joined "home" "2.0.0" old_config ≡ some d')
    × (version_of d' ≡ str "2.0.0")
unfolding get_field
migrate_config-version_of_example =
    migrate_config-version_of (λ p. p) joined "home" "2.0.0" old_config
      (record { version = "1.0.0"; has_version = refl; dir = "home"; has_dir = refl })
