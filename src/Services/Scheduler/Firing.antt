-- ===== src/Services/Scheduler/Firing.antt =====
-- The ids of the table, and what a check fires and leaves.
use backhouse_dff.Base.{
  ℕ, suc, ◌+◌, ◌*◌, ◌≤◌, ◌<◌, ◌≡◌, refl, ap, ◌∙◌, inl, inr, String, Bool, true, false, some, List,
  [], ◌∷◌, ◌++◌, arith, if◌then◌else◌, nat_beq, nat_beq_iff, map, filter, Bool-cases, All,
  All-append, All-map, All-filter,
}
use backhouse_dff.Services.Scheduler.{
  ScheduledJob, Table, add_job, is_due, reschedule, reschedule_all, check_and_fire, remove_job,
  set_enabled, toggle_job,
}

-- The ids rise along the rows, from a bound on.
unfoldable pub RisesFrom : ℕ → List ScheduledJob → Type 0
RisesFrom bound [] = Unit
RisesFrom bound (row ∷ rows) = (bound ≤ row.id) × RisesFrom (suc row.id) rows

-- The ids rise and are smaller than the next one.
unfoldable pub IsTable : Table → Type 0
IsTable table = RisesFrom 0 table.rows × All (λ row. row.id < table.next_id) table.rows

weaken : (a b : ℕ) (rows : List ScheduledJob) → a ≤ b → RisesFrom b rows → RisesFrom a rows
unfolding RisesFrom
weaken a b [] h r = tt
weaken a b (row ∷ rows) h r = (omega (arith, h, r.0), r.1)

filter-RisesFrom :
    (p : ScheduledJob → Bool) (b : ℕ) (rows : List ScheduledJob)
    → RisesFrom b rows
    → RisesFrom b (filter p rows)
unfolding RisesFrom
filter-RisesFrom p b [] r = tt
filter-RisesFrom p b (row ∷ rows) r =
    let rest = filter-RisesFrom p (suc row.id) rows r.1 in
    elim (Bool-cases (p row)) [
      | inl kept ↦ rw kept (r.0, rest)
      | inr out ↦ rw out (weaken b (suc row.id) (filter p rows) (omega (arith, r.0)) rest)
    ]

map-RisesFrom :
    (f : ScheduledJob → ScheduledJob) (b : ℕ) (rows : List ScheduledJob)
    → ((row : ScheduledJob) → (f row).id ≡ row.id)
    → RisesFrom b rows
    → RisesFrom b (map f rows)
unfolding RisesFrom
map-RisesFrom f b [] same r = tt
map-RisesFrom f b (row ∷ rows) same r =
    rw (same row) (r.0, map-RisesFrom f (suc row.id) rows same r.1)

snoc-RisesFrom :
    (b : ℕ) (rows : List ScheduledJob) (job : ScheduledJob)
    → RisesFrom b rows
    → b ≤ job.id
    → All (λ row. row.id < job.id) rows
    → RisesFrom b (rows ++ job ∷ [])
unfolding RisesFrom
snoc-RisesFrom b [] job r le all = (le, tt)
snoc-RisesFrom b (row ∷ rows) job r le all =
    (r.0, snoc-RisesFrom (suc row.id) rows job r.1 (omega (arith, all.0)) all.1)

set_enabled-id : (i : ℕ) (on : Bool) (row : ScheduledJob) → (set_enabled i on row).id ≡ row.id
set_enabled-id i on row = elim (Bool-cases (nat_beq row.id i)) [
  | inl here ↦ rw here refl
  | inr there ↦ rw there refl
]

-- What a check does to a row, independently of the others.
unfoldable pub fired : ℕ → ℕ → ScheduledJob → ScheduledJob
fired hour now row =
    if is_due hour now row
    then record row { last_run = some now; next_run = now + row.interval_hours * hour }
    else row

rises-All : (b : ℕ) (rows : List ScheduledJob) → RisesFrom b rows → All (λ row. b ≤ row.id) rows
unfolding RisesFrom
rises-All b [] r = tt
rises-All b (row ∷ rows) r =
    (r.0, All-map _ _ rows (λ x h. omega (arith, h, r.0)) (rises-All (suc row.id) rows r.1))

module _ (hour now : ℕ) where
  reschedule-miss :
      (next id : ℕ) (rows : List ScheduledJob)
      → All (λ row. suc id ≤ row.id) rows
      → reschedule hour now next id rows ≡ rows
  unfolding reschedule
  reschedule-miss next id [] h = refl
  reschedule-miss next id (row ∷ rows) h =
      let off : nat_beq row.id id ≡ false = ground (arith, h.0) in
      rw off (ap (◌∷◌ row) (reschedule-miss next id rows h.1))

  abbrev updated : ScheduledJob → ScheduledJob
  updated row = record row { last_run = some now; next_run = now + row.interval_hours * hour }

  reschedule-head :
      (row : ScheduledJob) (rows : List ScheduledJob)
      → All (λ x. suc row.id ≤ x.id) rows
      → reschedule hour now (now + row.interval_hours * hour) row.id (row ∷ rows)
        ≡ updated row ∷ rows
  unfolding reschedule
  reschedule-head row rows later =
      let self : nat_beq row.id row.id ≡ true = (nat_beq_iff row.id row.id).1 refl in
      rw self (
        ap (◌∷◌ (updated row))
          (reschedule-miss (now + row.interval_hours * hour) row.id rows later))

  reschedule_all-head :
      (due : List ScheduledJob) (row : ScheduledJob) (rows : List ScheduledJob)
      → All (λ job. suc row.id ≤ job.id) due
      → reschedule_all hour now due (row ∷ rows) ≡ row ∷ reschedule_all hour now due rows
  unfolding reschedule_all reschedule
  reschedule_all-head [] row rows h = refl
  reschedule_all-head (job ∷ due) row rows h =
      let off : nat_beq row.id job.id ≡ false = ground (arith, h.0) in
      rw off (reschedule_all-head due row _ h.1)

  reschedule_all-fired :
      (b : ℕ) (rows : List ScheduledJob)
      → RisesFrom b rows
      → reschedule_all hour now (filter (is_due hour now) rows) rows ≡ map (fired hour now) rows
  unfolding reschedule_all reschedule fired RisesFrom
  reschedule_all-fired b [] r = refl
  reschedule_all-fired b (row ∷ rows) r =
      let later = rises-All (suc row.id) rows r.1 in
      let due = filter (is_due hour now) rows in
      let due_later = All-filter (λ x. suc row.id ≤ x.id) (is_due hour now) rows later in
      let rest = reschedule_all-fired (suc row.id) rows r.1 in
      elim (Bool-cases (is_due hour now row)) [
        | inl on ↦ rw on (
            ap (reschedule_all hour now due) (reschedule-head row rows later)
            ∙ reschedule_all-head due (updated row) rows due_later
            ∙ ap (◌∷◌ (updated row)) rest)
        | inr off ↦ rw off (reschedule_all-head due row rows due_later ∙ ap (◌∷◌ row) rest)
      ]

  -- On a table whose ids rise, the loop of updates by id does to the rows what rescheduling each
  -- due row by itself does, and fires exactly the enabled jobs whose time has come, as they were.
  pub check_and_fire-fired :
      (table : Table)
      → IsTable table
      → check_and_fire hour now table ≡ (
        record table { rows = map (fired hour now) table.rows },
        filter (is_due hour now) table.rows,
      )
  unfolding check_and_fire IsTable
  check_and_fire-fired table h = rw (reschedule_all-fired 0 table.rows h.0) refl

  fired-id : (row : ScheduledJob) → (fired hour now row).id ≡ row.id
  unfolding fired
  fired-id row = elim (Bool-cases (is_due hour now row)) [
    | inl on ↦ rw on refl
    | inr off ↦ rw off refl
  ]

  fired-later :
      (row : ScheduledJob)
      → 0 < row.interval_hours * hour
      → is_due hour now (fired hour now row) ≡ false
  unfolding fired
  fired-later row h = elim (Bool-cases (is_due hour now row)) [
    | inl on ↦ rw on (ground (arith, h))
    | inr off ↦ rw off off
  ]

  none_due :
      (rows : List ScheduledJob)
      → All (λ row. 0 < row.interval_hours * hour) rows
      → filter (is_due hour now) (map (fired hour now) rows) ≡ []
  none_due [] h = refl
  none_due (row ∷ rows) h = rw (fired-later row h.0) (none_due rows h.1)

map-All-bound :
    (f : ScheduledJob → ScheduledJob) (n : ℕ) (rows : List ScheduledJob)
    → ((row : ScheduledJob) → (f row).id ≡ row.id)
    → All (λ row. row.id < n) rows
    → All (λ row. row.id < n) (map f rows)
map-All-bound f n [] same h = tt
map-All-bound f n (row ∷ rows) same h = (rw (same row) h.0, map-All-bound f n rows same h.1)

-- On a table whose ids rise and are below the next one, every operation of the scheduler leaves
-- them so.
pub operations-IsTable :
    (hour now : ℕ) (label : String) (folders : List String) (mode : String) (interval : ℕ)
    (job_id : ℕ) (enabled : Bool) (table : Table)
    → IsTable table
    → IsTable (add_job hour now label folders mode interval table).0
      × IsTable (remove_job job_id table)
      × IsTable (toggle_job job_id enabled table)
      × IsTable (check_and_fire hour now table).0
unfolding IsTable add_job remove_job toggle_job
operations-IsTable hour now label folders mode interval job_id enabled table h = (
  (
    snoc-RisesFrom 0 table.rows _ h.0 (omega arith) h.1,
    All-append _ table.rows _ (All-map _ _ table.rows (λ row k. omega (arith, k)) h.1)
        (omega arith, tt),
  ),
  (filter-RisesFrom _ 0 table.rows h.0, All-filter _ _ table.rows h.1),
  (
    map-RisesFrom (set_enabled job_id enabled) 0 table.rows (set_enabled-id job_id enabled) h.0,
    map-All-bound (set_enabled job_id enabled) table.next_id table.rows
        (set_enabled-id job_id enabled) h.1,
  ),
  rw (check_and_fire-fired hour now table h) (
    map-RisesFrom (fired hour now) 0 table.rows (fired-id hour now) h.0,
    map-All-bound (fired hour now) table.next_id table.rows (fired-id hour now) h.1,
  ),
)

-- Where all intervals are positive, a second check at the same time fires nothing.
pub check_and_fire-once :
    (hour now : ℕ) (table : Table)
    → IsTable table
    → All (λ row. 0 < row.interval_hours * hour) table.rows
    → (check_and_fire hour now (check_and_fire hour now table).0).1 ≡ []
unfolding check_and_fire
check_and_fire-once hour now table h positive =
    ap (λ rows. filter (is_due hour now) rows)
      (ap (λ out. out.0.rows) (check_and_fire-fired hour now table h))
    ∙ none_due hour now table.rows positive
