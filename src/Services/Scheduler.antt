-- ===== src/Services/Scheduler.antt =====
-- cerebro/core/scheduler.py: the table of the scheduled jobs. Times are whole numbers of a fixed
-- small unit, intervals whole numbers of a fixed small part of an hour, which lasts `hour` of them. The rows stand in the order of their ids, as `ORDER BY id`
-- reads them; `next_id` is what AUTOINCREMENT gives next, larger than every id ever used.
pub mod Firing
use backhouse_dff.Base.{
  ℕ, suc, ◌+◌, ◌*◌, String, Bool, true, false, ◌&&◌, not, Option, none, some, List, [], ◌∷◌, ◌++◌,
  if◌then◌else◌, nat_beq, leb, map, filter,
}

pub record ScheduledJob : Type 0 where
  pub id : ℕ
  pub label : String
  pub folders : List String
  pub mode : String
  pub interval_hours : ℕ
  pub enabled : Bool
  pub last_run : Option ℕ
  pub next_run : ℕ

pub record Table : Type 0 where
  pub rows : List ScheduledJob
  pub next_id : ℕ

abbrev pub empty_table : Table
empty_table = record { rows = []; next_id = 1 }

module _ (hour : ℕ) where
  abbrev pub new_job : ℕ → ℕ → String → List String → String → ℕ → ScheduledJob
  new_job now id label folders mode interval_hours = record {
    id = id;
    label = label;
    folders = folders;
    mode = mode;
    interval_hours = interval_hours;
    enabled = true;
    last_run = none;
    next_run = now + interval_hours * hour;
  }

  unfoldable pub add_job : ℕ → String → List String → String → ℕ → Table → Table × ScheduledJob
  add_job now label folders mode interval_hours table =
      let job = new_job now table.next_id label folders mode interval_hours in
      (record { rows = table.rows ++ job ∷ []; next_id = suc table.next_id }, job)

  abbrev pub is_due : ℕ → ScheduledJob → Bool
  is_due now job = job.enabled && leb job.next_run now

  -- `UPDATE ... SET last_run = ?, next_run = ? WHERE id = ?`
  unfoldable pub reschedule : ℕ → ℕ → ℕ → List ScheduledJob → List ScheduledJob
  reschedule now next_run job_id [] = []
  reschedule now next_run job_id (row ∷ rows) =
      (if nat_beq row.id job_id
        then record row { last_run = some now; next_run = next_run }
        else row)
      ∷ reschedule now next_run job_id rows

  -- The loop over the rows that the query found.
  unfoldable pub reschedule_all : ℕ → List ScheduledJob → List ScheduledJob → List ScheduledJob
  reschedule_all now [] rows = rows
  reschedule_all now (job ∷ due) rows =
      reschedule_all now due (reschedule now (now + job.interval_hours * hour) job.id rows)

  -- The table afterwards, and the jobs that are fired.
  unfoldable pub check_and_fire : ℕ → Table → Table × List ScheduledJob
  check_and_fire now table =
      let due = filter (is_due now) table.rows in
      (record table { rows = reschedule_all now due table.rows }, due)

-- `DELETE FROM scheduled_jobs WHERE id = ?`
unfoldable pub remove_job : ℕ → Table → Table
remove_job job_id table = record table {
  rows = filter (λ row. not (nat_beq row.id job_id)) table.rows;
}

abbrev pub set_enabled : ℕ → Bool → ScheduledJob → ScheduledJob
set_enabled job_id enabled row =
    if nat_beq row.id job_id then record row { enabled = enabled } else row

unfoldable pub toggle_job : ℕ → Bool → Table → Table
toggle_job job_id enabled table = record table {
  rows = map (set_enabled job_id enabled) table.rows;
}

abbrev pub list_jobs : Table → List ScheduledJob
list_jobs table = table.rows
