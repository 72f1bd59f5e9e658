-- ===== src/Turbo/Progress/Bounds.antt =====
-- What every report leaves of the progress.
use backhouse_dff.Base.{
  ◌≤◌, max, ◌≡◌, refl, ◌∙◌, sym, inl, inr, Bool, true, false, ◌&&◌, not, List, [], ◌∷◌, arith,
  if◌then◌else◌, ltb, Bool-cases,
}
use backhouse_dff.Engine.{ScanState}
use backhouse_dff.Turbo.Progress.{
  Stage, is_terminal, is_hashing, is_discovering, is_final, TurboEngine, Report, next_scanned,
  next_total, next_state, next_scope, next_processed, accept, on_turbo_progress, on_reports,
}

-- In a terminal state, no report changes the engine or reaches the callback.
pub on_reports-terminal :
    (e : TurboEngine) (rs : List Report) → is_terminal e.state ≡ true → on_reports e rs ≡ e
unfolding on_reports on_turbo_progress
on_reports-terminal e [] h = refl
on_reports-terminal e (r ∷ rs) h = rw (h, on_turbo_progress) (on_reports-terminal e rs h)

-- The counters of an engine against those of a later one.
pub record Grows (e e' : TurboEngine) : Type 0 where
  pub scope : e.total_in_scope ≤ e'.total_in_scope
  pub processed : e.processed_files ≤ e'.processed_files
  pub found : e.candidates ≤ e'.candidates
  pub paused : e.state ≡ ScanState.paused → e'.state ≡ ScanState.paused
  pub offset : e'.ckpt_completed_offset ≡ e.ckpt_completed_offset

Grows-refl : (e : TurboEngine) → Grows e e
Grows-refl e = record {
  scope = omega arith;
  processed = omega arith;
  found = omega arith;
  paused = λ h. h;
  offset = refl;
}

Grows-trans : (a b c : TurboEngine) → Grows a b → Grows b c → Grows a c
Grows-trans a b c g h = record {
  scope = omega (arith, g.scope, h.scope);
  processed = omega (arith, g.processed, h.processed);
  found = omega (arith, g.found, h.found);
  paused = λ p. h.paused (g.paused p);
  offset = h.offset ∙ g.offset;
}

next_scope-ge : (e : TurboEngine) (r : Report) → e.total_in_scope ≤ next_scope e r
next_scope-ge e r = elim (Bool-cases (ltb 0 (max e.total_in_scope r.metric_scope))) [
  | inl some_known ↦ rw some_known (omega arith)
  | inr unknown ↦ rw unknown (ground arith)
]

next_processed-ge : (e : TurboEngine) (r : Report) → e.processed_files ≤ next_processed e r
next_processed-ge e r = elim (Bool-cases (ltb 0 (max e.processed_files r.metric_processed))) [
  | inl some_known ↦ rw some_known (omega arith)
  | inr unknown ↦ rw unknown (ground arith)
]

next_state-paused :
    (e : TurboEngine) (r : Report) → e.state ≡ ScanState.paused → next_state e r ≡ ScanState.paused
next_state-paused e r h = rw h refl

accept-Grows : (e : TurboEngine) (r : Report) → Grows e (accept e r)
accept-Grows e r = record {
  scope = next_scope-ge e r;
  processed = next_processed-ge e r;
  found = omega arith;
  paused = next_state-paused e r;
  offset = refl;
}

on_turbo_progress-Grows : (e : TurboEngine) (r : Report) → Grows e (on_turbo_progress e r)
unfolding on_turbo_progress
on_turbo_progress-Grows e r =
    pick (is_terminal e.state) (Grows-refl e)
      (pick (e.cancel_event && not (is_final r.stage)) (Grows-refl e) (accept-Grows e r))
  where
    pick : (b : Bool) {x y : TurboEngine} → Grows e x → Grows e y → Grows e (if b then x else y)
    pick true g h = g
    pick false g h = h

-- Over any reports, the counters of the engine never fall, and a paused engine stays paused.
pub on_reports-Grows : (rs : List Report) (e : TurboEngine) → Grows e (on_reports e rs)
unfolding on_reports
on_reports-Grows [] e = Grows-refl e
on_reports-Grows (r ∷ rs) e =
    Grows-trans e (on_turbo_progress e r) (on_reports (on_turbo_progress e r) rs)
      (on_turbo_progress-Grows e r) (on_reports-Grows rs (on_turbo_progress e r))

hashing-apart : (s : Stage) → is_hashing s ≡ true → is_discovering s ≡ false
hashing-apart Stage.discovering h = sym h
hashing-apart Stage.grouping_by_size h = refl
hashing-apart Stage.tier_a_prefilter h = refl
hashing-apart Stage.hashing_partial h = refl
hashing-apart Stage.hashing_full h = refl
hashing-apart Stage.cancelled_stage h = refl
hashing-apart Stage.complete h = refl
hashing-apart Stage.no_stage h = refl
hashing-apart Stage.other h = refl

next_total-bounds :
    (e : TurboEngine) (r : Report)
    → is_hashing r.stage ≡ true
    → (next_scanned e r ≤ next_total e r)
      × (e.progress.files_total ≤ next_total e r)
      × (e.progress.files_scanned ≤ next_total e r)
next_total-bounds e r hashing =
    let apart = hashing-apart r.stage hashing in
    elim (Bool-cases (is_hashing e.progress.stage)) [
      | inl was ↦ rw (apart, hashing, was) (omega arith, omega arith, omega arith)
      | inr fresh ↦ rw (apart, hashing, fresh) (omega arith, omega arith, omega arith)
    ]

-- A report of a hashing stage to an engine that runs leaves no more files scanned than in total,
-- and a total that is at least the one before and the number of files scanned before.
pub on_turbo_progress-bounds :
    (e : TurboEngine) (r : Report)
    → is_terminal e.state ≡ false
    → e.cancel_event ≡ false
    → is_hashing r.stage ≡ true
    → ((on_turbo_progress e r).progress.files_scanned
        ≤ (on_turbo_progress e r).progress.files_total)
      × (e.progress.files_total ≤ (on_turbo_progress e r).progress.files_total)
      × (e.progress.files_scanned ≤ (on_turbo_progress e r).progress.files_total)
unfolding on_turbo_progress
on_turbo_progress-bounds e r live going hashing = rw (live, going) (next_total-bounds e r hashing)
