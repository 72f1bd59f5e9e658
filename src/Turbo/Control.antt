-- ===== src/Turbo/Control.antt =====
-- cerebro/engines/turbo_file_engine.py: pause, resume and cancel, in any order with the scanner's
-- reports, which come from other threads.
use backhouse_dff.Base.{
  ℕ, ◌≡◌, refl, ◌⊎◌, inl, inr, Bool, true, false, not, List, [], ◌∷◌, All, Bool-cases,
}
use backhouse_dff.Engine.{ScanState}
use backhouse_dff.Turbo.Progress.{
  Progress, TurboEngine, Report, is_terminal, is_final, on_turbo_progress,
}

-- `ScanProgress(state=..., files_scanned=..., files_total=..., stage=...)`, the rest by default.
abbrev pub short_progress : ScanState → Progress → Progress
short_progress state prev = record {
  state = state;
  files_scanned = prev.files_scanned;
  files_total = prev.files_total;
  stage = prev.stage;
  total_files_in_scope = 0;
  files_processed = 0;
  candidates_found = 0;
}

abbrev pub pause : TurboEngine → TurboEngine
pause e = record e {
  pause_event = false;
  state = ScanState.paused;
  progress = short_progress ScanState.paused e.progress;
  emitted = short_progress ScanState.paused e.progress ∷ e.emitted;
}

abbrev pub resume : TurboEngine → TurboEngine
resume e = record e {
  pause_event = true;
  state = ScanState.scanning;
  progress = short_progress ScanState.scanning e.progress;
  emitted = short_progress ScanState.scanning e.progress ∷ e.emitted;
}

abbrev pub cancel : TurboEngine → TurboEngine
cancel e = record e { cancel_event = true; state = ScanState.cancelled }

-- What reaches a running engine.
pub data Event : Type 0 where
  reported : Report → Event
  pause_clicked resume_clicked cancel_clicked : Event

unfoldable pub step : TurboEngine → Event → TurboEngine
step e (reported r) = on_turbo_progress e r
step e pause_clicked = pause e
step e resume_clicked = resume e
step e cancel_clicked = cancel e

unfoldable pub run : TurboEngine → List Event → TurboEngine
run e [] = e
run e (event ∷ events) = run (step e event) events

-- Not the report of a scanner that is through.
abbrev pub is_late : Event → Bool
is_late (reported r) = not (is_final r.stage)
is_late _ = true

-- The cancel event is set; the numbers of files scanned and in total that are shown, and the
-- engine's own number of candidates, are those given; the number of candidates shown is the one
-- given, or 0.
abbrev pub FrozenAt : ℕ → ℕ → ℕ → ℕ → TurboEngine → Type 0
FrozenAt scanned total found shown e =
    (e.cancel_event ≡ true)
    × (e.progress.files_scanned ≡ scanned)
    × (e.progress.files_total ≡ total)
    × (e.candidates ≡ found)
    × ((e.progress.candidates_found ≡ shown) ⊎ (e.progress.candidates_found ≡ 0))

on_turbo_progress-late :
    (e : TurboEngine) (r : Report)
    → e.cancel_event ≡ true
    → not (is_final r.stage) ≡ true
    → on_turbo_progress e r ≡ e
unfolding on_turbo_progress
on_turbo_progress-late e r set late = elim (Bool-cases (is_terminal e.state)) [
  | inl over ↦ rw over refl
  | inr live ↦ rw (live, set, late) refl
]

run-FrozenAt :
    (scanned total found shown : ℕ) (events : List Event) (e : TurboEngine)
    → FrozenAt scanned total found shown e
    → All (λ event. is_late event ≡ true) events
    → FrozenAt scanned total found shown (run e events)
unfolding run step
run-FrozenAt scanned total found shown [] e h late = h
run-FrozenAt scanned total found shown (reported r ∷ events) e h late =
    rw (on_turbo_progress-late e r h.0 late.0, run, step)
      (run-FrozenAt scanned total found shown events e h late.1)
run-FrozenAt scanned total found shown (pause_clicked ∷ events) e h late =
    run-FrozenAt scanned total found shown events (pause e) (h.0, h.1, h.2, h.3, inr refl) late.1
run-FrozenAt scanned total found shown (resume_clicked ∷ events) e h late =
    run-FrozenAt scanned total found shown events (resume e) (h.0, h.1, h.2, h.3, inr refl) late.1
run-FrozenAt scanned total found shown (cancel_clicked ∷ events) e h late =
    run-FrozenAt scanned total found shown events (cancel e) (refl, h.1, h.2, h.3, h.4) late.1

-- Once the cancel event is set, it stays set over any pauses, resumes, cancels and reports, except
-- reports of a final stage, and neither the numbers of files scanned and in total that the engine
-- shows nor its own number of candidates change. The number of candidates that it shows stays, or is
-- 0, as a pause or a resume sets it.
pub run-cancelled :
    (events : List Event) (e : TurboEngine)
    → e.cancel_event ≡ true
    → All (λ event. is_late event ≡ true) events
    → FrozenAt e.progress.files_scanned e.progress.files_total e.candidates
        e.progress.candidates_found
        (run e events)
run-cancelled events e set late =
    run-FrozenAt _ _ _ _ events e (set, refl, refl, refl, inl refl) late
