-- ===== src/Checkpoint/Delivery.antt =====
-- The queue delivers: what is enqueued is written, once.
use backhouse_dff.Base.{
  ℕ, String, some, ◌+◌, ◌≡◌, refl, ◌∙◌, ap, inl, inr, Bool, List, [], ◌∷◌, ◌++◌, arith, length,
  length-append, filter, filter-append, Bool-cases, ltb,
}
use backhouse_dff.Checkpoint.Writer.{
  HashResult, WriterStore, WriterEvent, enqueued, taken, written, synced, seeded, take_first,
  writer_step, run_writer, writer_end, flush_batch,
}
use backhouse_dff.Checkpoint.{FileCheckpoint}
use backhouse_dff.Checkpoint.Seeding.{row_at}
use backhouse_dff.Checkpoint.Written.{write_all, to_write, all_to_write, run_writer-row_at}

-- How many of the items pass a test.
abbrev pub count : (HashResult → Bool) → List HashResult → ℕ
count p items = length (filter p items)

count-append :
    (p : HashResult → Bool) (xs ys : List HashResult) → count p (xs ++ ys) ≡ count p xs + count p ys
count-append p xs ys = ap length (filter-append p xs ys) ∙ length-append (filter p xs) (filter p ys)

-- The results that the events enqueue.
abbrev pub all_enqueued : List WriterEvent → List HashResult
all_enqueued [] = []
all_enqueued (enqueued item ∷ events) = item ∷ all_enqueued events
all_enqueued (_ ∷ events) = all_enqueued events

-- How many of the items that wait pass a test.
abbrev pub waiting : (HashResult → Bool) → WriterStore → ℕ
waiting p s = count p s.pending + count p s.write_queue

take_first-waiting :
    (p : HashResult → Bool) (queue : List HashResult) (s : WriterStore)
    → s.write_queue ≡ queue
    → waiting p (take_first queue s) ≡ waiting p s
take_first-waiting p [] s h = refl
take_first-waiting p (item ∷ queue) s h = elim (Bool-cases (ltb (length s.pending) flush_batch)) [
  | inl room ↦
      rw (room, h)
        (let one = count-append p (item ∷ []) queue in
          omega (arith, count-append p s.pending (item ∷ []), one))
  | inr full ↦ rw full refl
]

-- What an event leaves waiting or writes was waiting before or is what it enqueues.
writer_step-waiting :
    (p : HashResult → Bool) (event : WriterEvent) (events : List WriterEvent) (s : WriterStore)
    → count p (to_write event s) + waiting p (writer_step event s) + count p (all_enqueued events)
      ≡ waiting p s + count p (all_enqueued (event ∷ events))
writer_step-waiting p (enqueued item) events s =
    let one = count-append p (item ∷ []) (all_enqueued events) in
    omega (arith, one, count-append p s.write_queue (item ∷ []))
writer_step-waiting p taken events s =
    let same = take_first-waiting p s.write_queue s refl in omega (arith, same)
writer_step-waiting p (written now) events s = omega arith
writer_step-waiting p (synced now) events s = omega arith
writer_step-waiting p (seeded now scan_id files chunk_size) events s = omega arith

-- Whatever the order of the calls, of the turns of the thread and of its writes, each result that
-- waited before or was enqueued has been written or still waits, as often as it was there: for
-- every test, the numbers of those that pass it agree.
pub run_writer-waiting :
    (p : HashResult → Bool) (events : List WriterEvent) (s : WriterStore)
    → count p (all_to_write events s) + waiting p (run_writer events s)
      ≡ waiting p s + count p (all_enqueued events)
unfolding run_writer all_to_write
run_writer-waiting p [] s = omega arith
run_writer-waiting p (event ∷ events) s =
    let later = run_writer-waiting p events (writer_step event s) in
    let now = writer_step-waiting p event events s in
    let both = count-append p (to_write event s) (all_to_write events (writer_step event s)) in
    omega (arith, later, now, both)

run_writer-append :
    (events later : List WriterEvent) (s : WriterStore)
    → run_writer (events ++ later) s ≡ run_writer later (run_writer events s)
unfolding run_writer
run_writer-append [] later s = refl
run_writer-append (event ∷ events) later s = run_writer-append events later (writer_step event s)

all_enqueued-writer_end :
    (events : List WriterEvent) (now : ℕ)
    → all_enqueued (events ++ writer_end now) ≡ all_enqueued events
all_enqueued-writer_end [] now = refl
all_enqueued-writer_end (enqueued item ∷ events) now =
    ap (◌∷◌ item) (all_enqueued-writer_end events now)
all_enqueued-writer_end (taken ∷ events) now = all_enqueued-writer_end events now
all_enqueued-writer_end (written t ∷ events) now = all_enqueued-writer_end events now
all_enqueued-writer_end (synced t ∷ events) now = all_enqueued-writer_end events now
all_enqueued-writer_end (seeded t scan_id files chunk_size ∷ events) now =
    all_enqueued-writer_end events now

run_writer-no_waiting :
    (p : HashResult → Bool) (events : List WriterEvent) (now : ℕ) (s : WriterStore)
    → waiting p (run_writer (events ++ writer_end now) s) ≡ 0
unfolding run_writer
run_writer-no_waiting p events now s =
    rw (run_writer-append events (writer_end now) s) (omega arith)

-- When SQLite's writes succeed: after any events and the end of the thread, every result that waited
-- or was enqueued stands in the list of results written exactly as often as it was there (for every
-- test, the numbers of those that pass it agree), and the row of each file that has one at first is
-- what the writes of that list, in turn, make of it.
pub run_writer-writer_end :
    (p : HashResult → Bool) (events : List WriterEvent) (now : ℕ) (s : WriterStore)
    (id path : String) (row : FileCheckpoint)
    → row_at id path s.db.file_checkpoints ≡ some row
    → (count p (all_to_write (events ++ writer_end now) s)
        ≡ waiting p s + count p (all_enqueued events))
      × (row_at id path (run_writer (events ++ writer_end now) s).db.file_checkpoints
          ≡ some (write_all (all_to_write (events ++ writer_end now) s) row))
run_writer-writer_end p events now s id path row h =
    let kept = run_writer-waiting p (events ++ writer_end now) s in
    let through = run_writer-no_waiting p events now s in
    let same = ap (count p) (all_enqueued-writer_end events now) in
    (
      omega (arith, kept, through, same),
      run_writer-row_at id path (events ++ writer_end now) s row h,
    )
