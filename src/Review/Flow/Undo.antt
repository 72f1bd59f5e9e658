-- ===== src/Review/Flow/Undo.antt =====
-- Undo and redo of the marks.
use mathlib.Core.List.{tail}
use backhouse_dff.Base.{ℕ, zero, suc, ◌≡◌, refl, sym, ap, ◌∙◌, List, [], ◌∷◌, String, length}
use backhouse_dff.Engine.{DuplicateGroup}
use backhouse_dff.Review.Flow.{
  Snapshot, ReviewFlowState, snapshot, restore_snapshot, undo_with, redo_with, undo, redo,
  apply_paths_for_group,
}

-- Several groups, one after the other, as the loop over the visible groups applies a rule.
abbrev pub apply_all : ReviewFlowState → List (DuplicateGroup × List String) → ReviewFlowState
apply_all st [] = st
apply_all st ((g, delete_paths) ∷ rest) = apply_all (apply_paths_for_group st g delete_paths) rest

abbrev pub undo_times : ℕ → ReviewFlowState → ReviewFlowState
undo_times zero st = st
undo_times (suc n) st = undo (undo_times n st)

abbrev head_or : Snapshot → List Snapshot → Snapshot
head_or d [] = d
head_or d (x ∷ xs) = x

nil-ne-cons {ℓ} : {A : Type ℓ} {x : A} {xs : List A} → [] ≡ x ∷ xs → ⊥
nil-ne-cons h = cc

undo-top :
    (st : ReviewFlowState) (stack : List Snapshot) (snap : Snapshot) (rest : List Snapshot)
    → stack ≡ snap ∷ rest
    → (snapshot (undo_with st stack) ≡ snap) × ((undo_with st stack).undo_stack ≡ rest)
unfolding restore_snapshot
undo-top st [] snap rest h = absurd (nil-ne-cons h)
undo-top st (top ∷ below) snap rest h = (ap (head_or top) h, ap tail h)

undo-snapshot :
    (st : ReviewFlowState) (snap : Snapshot) (rest : List Snapshot)
    → st.undo_stack ≡ snap ∷ rest
    → (snapshot (undo st) ≡ snap) × ((undo st).undo_stack ≡ rest)
unfolding undo
undo-snapshot st snap rest h = undo-top st st.undo_stack snap rest h

apply-undo_stack :
    (st : ReviewFlowState) (g : DuplicateGroup) (delete_paths : List String)
    → (apply_paths_for_group st g delete_paths).undo_stack ≡ snapshot st ∷ st.undo_stack
unfolding apply_paths_for_group
apply-undo_stack st g delete_paths = refl

-- As many undos as there were groups bring back the marks, the selected sets, the selections and
-- the undo stack of before, whatever groups and paths were applied.
pub undo_times-apply_all :
    (st : ReviewFlowState) (changes : List (DuplicateGroup × List String))
    → (snapshot (undo_times (length changes) (apply_all st changes)) ≡ snapshot st)
      × ((undo_times (length changes) (apply_all st changes)).undo_stack ≡ st.undo_stack)
undo_times-apply_all st [] = (refl, refl)
undo_times-apply_all st ((g, delete_paths) ∷ rest) =
    let next = apply_paths_for_group st g delete_paths in
    let (same, stack) = undo_times-apply_all next rest in
    undo-snapshot (undo_times (length rest) (apply_all next rest)) (snapshot st) st.undo_stack
      (stack ∙ apply-undo_stack st g delete_paths)

redo-undo_with :
    (st : ReviewFlowState) (stack : List Snapshot) (snap : Snapshot) (rest : List Snapshot)
    → st.undo_stack ≡ stack
    → stack ≡ snap ∷ rest
    → redo_with (undo_with st stack) (undo_with st stack).redo_stack ≡ st
unfolding restore_snapshot
redo-undo_with st [] snap rest e h = absurd (nil-ne-cons h)
redo-undo_with st (top ∷ below) snap rest e h = λ i. record st { undo_stack = sym e i }

-- `_redo` right after an `_undo` that had something to undo gives back the state of before.
pub redo-undo :
    (st : ReviewFlowState) (snap : Snapshot) (rest : List Snapshot)
    → st.undo_stack ≡ snap ∷ rest
    → redo (undo st) ≡ st
unfolding redo undo
redo-undo st snap rest h = redo-undo_with st st.undo_stack snap rest refl h
