-- ===== src/Review/Flow.antt =====
-- cerebro/v2/ui/flet_app/pages/review_flow/state.py, with the operations of review_flow/host.py
-- that change the marks, and its undo and redo. A stack is a list whose head is the last entry of
-- the Python list. `restore_snapshot` shares the selection objects of a snapshot that is popped and
-- dropped, and never with a stack that is read later, so they are modelled as values.
pub mod Undo
pub mod Alive
pub mod Samples
mod Tests
use backhouse_dff.Base.{
  ℕ, String, Bool, true, false, not, ◌&&◌, ◌||◌, List, [], ◌∷◌, ◌++◌, map, Option, none, some,
  filter, any, contains, text_key, nat_key, if◌then◌else◌, ◌==◌, ◌+◌, dedup,
}
use backhouse_dff.Base.Dict.{lookup, insert}
use backhouse_dff.Engine.{DuplicateFile, DuplicateGroup}
use backhouse_dff.Review.Rules.{paths}

pub data ReviewScreen : Type 0 where
  overview browse inspect : ReviewScreen

pub record SetSelection : Type 0 where
  pub kept_paths : List String
  pub deleted_paths : List String
  pub protected_paths : List String

abbrev pub empty_selection : SetSelection
empty_selection = record { kept_paths = []; deleted_paths = []; protected_paths = [] }

-- The dict of `push_undo_snapshot`.
pub record Snapshot : Type 0 where
  pub marked_paths : List String
  pub selected_set_ids : List ℕ
  pub set_selections : List (ℕ × SetSelection)

-- The fields that the modelled operations read or write.
pub record ReviewFlowState : Type 0 where
  pub active_screen : ReviewScreen
  pub screen_stack : List ReviewScreen
  pub scan_results : List DuplicateGroup
  pub selected_set_ids : List ℕ
  pub marked_paths : List String
  pub set_selections : List (ℕ × SetSelection)
  pub protected_path_prefixes : List String
  pub undo_stack : List Snapshot
  pub redo_stack : List Snapshot

-- `xs.add(x)`, `xs.discard(x)` and `xs.update(ys)`
abbrev pub add : String → List String → List String
add x xs = if contains xs x then xs else x ∷ xs

abbrev pub discard : String → List String → List String
discard x = filter (λ y. not (y == x))

abbrev pub update : List String → List String → List String
update [] xs = xs
update (y ∷ ys) xs = add y (update ys xs)

unfoldable pub group_by_id : List DuplicateGroup → ℕ → Option DuplicateGroup
group_by_id [] group_id = none
group_by_id (g ∷ gs) group_id = if g.group_id == group_id then some g else group_by_id gs group_id

-- `normalize p` is `p.replace("\\", "/").lower()`, and `starts_with` is `str.startswith`.
unfoldable pub is_path_protected :
    (String → String) → (String → String → Bool) → ReviewFlowState → String → Bool
is_path_protected normalize starts_with st path =
    any (λ prefix. starts_with (normalize path) (normalize prefix)) st.protected_path_prefixes

-- The bytes of the marked files of one group, and of all groups.
unfoldable pub marked_in : List String → List DuplicateFile → ℕ
marked_in marked [] = 0
marked_in marked (f ∷ fs) = (if contains marked f.path then f.size else 0) + marked_in marked fs

unfoldable pub bytes_in : List String → List DuplicateGroup → ℕ
unfolding marked_in
bytes_in marked [] = 0
bytes_in marked (g ∷ gs) = marked_in marked g.files + bytes_in marked gs

unfoldable pub marked_bytes : ReviewFlowState → ℕ
unfolding bytes_in
marked_bytes st = bytes_in st.marked_paths st.scan_results

abbrev pub snapshot : ReviewFlowState → Snapshot
snapshot st = record {
  marked_paths = st.marked_paths;
  selected_set_ids = st.selected_set_ids;
  set_selections = st.set_selections;
}

unfoldable pub push_undo_snapshot : ReviewFlowState → ReviewFlowState
push_undo_snapshot st = record st { undo_stack = snapshot st ∷ st.undo_stack; redo_stack = [] }

unfoldable pub restore_snapshot : ReviewFlowState → Snapshot → ReviewFlowState
restore_snapshot st snap = record st {
  marked_paths = snap.marked_paths;
  selected_set_ids = snap.selected_set_ids;
  set_selections = snap.set_selections;
}

-- `_undo` and `_redo` of the host.
abbrev pub undo_with : ReviewFlowState → List Snapshot → ReviewFlowState
undo_with st [] = st
undo_with st (snap ∷ rest) =
    restore_snapshot (record st { undo_stack = rest; redo_stack = snapshot st ∷ st.redo_stack })
      snap

unfoldable pub undo : ReviewFlowState → ReviewFlowState
unfolding restore_snapshot
undo st = undo_with st st.undo_stack

abbrev pub redo_with : ReviewFlowState → List Snapshot → ReviewFlowState
redo_with st [] = st
redo_with st (snap ∷ rest) =
    restore_snapshot (record st { redo_stack = rest; undo_stack = snapshot st ∷ st.undo_stack })
      snap

unfoldable pub redo : ReviewFlowState → ReviewFlowState
unfolding restore_snapshot
redo st = redo_with st st.redo_stack

-- `set_selections.setdefault(group_id, SetSelection())`
abbrev pub selection_or_empty : Option SetSelection → SetSelection
selection_or_empty none = empty_selection
selection_or_empty (some sel) = sel

abbrev pub selection_of : ReviewFlowState → ℕ → SetSelection
selection_of st group_id = selection_or_empty (lookup group_id st.set_selections)

-- `_apply_paths_for_group` of the host.
unfoldable pub apply_paths_for_group :
    ReviewFlowState → DuplicateGroup → List String → ReviewFlowState
unfolding push_undo_snapshot
apply_paths_for_group st group delete_paths =
    let pushed = push_undo_snapshot st in
    record pushed {
      set_selections =
          insert group.group_id
            (record (selection_of st group.group_id) {
              deleted_paths = delete_paths;
              kept_paths = filter (λ p. not (contains delete_paths p)) (paths group.files);
            })
            st.set_selections;
      marked_paths = update delete_paths st.marked_paths;
    }

-- `_inspect_keep_both` of the host, for a group that is there.
unfoldable pub inspect_keep_both : ReviewFlowState → DuplicateGroup → ReviewFlowState
unfolding push_undo_snapshot
inspect_keep_both st group =
    let pushed = push_undo_snapshot st in
    record pushed {
      set_selections =
          insert group.group_id
            (record (selection_of st group.group_id) {
              kept_paths = paths group.files;
              deleted_paths = [];
            })
            st.set_selections;
    }

-- `_browse_toggle_file_mark` of the host.
unfoldable pub browse_toggle_file_mark : ReviewFlowState → String → ℕ → Bool → ReviewFlowState
browse_toggle_file_mark st p group_id mark =
    let sel = selection_of st group_id in
    if mark
    then record st {
      marked_paths = add p st.marked_paths;
      set_selections =
          insert group_id
            (record sel {
              deleted_paths = add p sel.deleted_paths;
              kept_paths = discard p sel.kept_paths;
            })
            st.set_selections;
    }
    else record st {
      marked_paths = discard p st.marked_paths;
      set_selections =
          insert group_id (record sel { deleted_paths = discard p sel.deleted_paths })
            st.set_selections;
    }

-- `_reconcile_state_after_delete` of the host.
abbrev pub alive_paths : List DuplicateGroup → List String
alive_paths [] = []
alive_paths (g ∷ gs) = paths g.files ++ alive_paths gs

abbrev pub only : List String → List String → List String
only alive = filter (λ p. contains alive p)

abbrev pub alive_selection : List String → SetSelection → SetSelection
alive_selection alive sel = record {
  kept_paths = only alive sel.kept_paths;
  deleted_paths = only alive sel.deleted_paths;
  protected_paths = only alive sel.protected_paths;
}

unfoldable pub alive_selections :
    List ℕ → List String → List (ℕ × SetSelection) → List (ℕ × SetSelection)
alive_selections ids alive [] = []
alive_selections ids alive ((gid, sel) ∷ rest) =
    let kept = alive_selections ids alive rest in
    if contains ids gid then (gid, alive_selection alive sel) ∷ kept else kept

unfoldable pub reconcile_state_after_delete :
    ReviewFlowState → List DuplicateGroup → ReviewFlowState
unfolding alive_selections
reconcile_state_after_delete st new_groups =
    let alive = alive_paths new_groups in
    record st {
      scan_results = new_groups;
      marked_paths = only alive st.marked_paths;
      set_selections =
          alive_selections (map (λ (g : DuplicateGroup). g.group_id) new_groups) alive
            st.set_selections;
    }
