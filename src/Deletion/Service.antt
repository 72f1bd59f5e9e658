-- ===== src/Deletion/Service.antt =====
-- cerebro/v2/ui/flet_app/services/delete_service.py: the managed trash and its undo. The texts of
-- the places in the trash are parameters, and so is the file system; progress and the log of
-- deletions are left out.
pub mod Laws
pub mod Trashed
pub mod Restored
pub mod Kept
pub mod Files
pub mod Counts
mod Tests
use backhouse_dff.Base.{
  ℕ, suc, String, Bool, true, false, not, Option, none, some, List, [], ◌∷◌, ◌++◌, if◌then◌else◌,
  ltb, length, ◌==◌, text_key,
}

-- `make_dir` is `Path.mkdir(parents=True, exist_ok=True)`, `move` is `shutil.move`; each leaves the
-- text of an OSError. `exists` raises nothing.
pub record TrashOps (W : Type 0) : Type 0 where
  pub exists : W → String → Bool
  pub make_dir : W → String → W × Option String
  pub move : W → String → String → W × Option String
  pub parent : String → String
  -- `Path.home() / ".cerebro" / "trash" / "managed"`, and the folder of a transaction in it.
  pub trash_root : String
  pub tx_root : String → String
  -- `tx_root / safe_rel`, and the name with `__dup`.
  pub trash_place : String → String → String
  pub dup_name : String → String

pub record TrashUndoTransaction : Type 0 where
  pub tx_id : String
  pub moved : List (String × String)
  pub created_at : ℕ

-- The lists that the loop over the paths adds to.
pub record TrashBatch : Type 0 where
  pub moved : List (String × String)
  pub deleted_paths : List String
  pub failures : List (String × String)

abbrev pub empty_batch : TrashBatch
empty_batch = record { moved = []; deleted_paths = []; failures = [] }

abbrev pub max_trash_history : ℕ
max_trash_history = 5

-- `while len(_TRASH_HISTORY) > _MAX_TRASH_HISTORY: _TRASH_HISTORY.pop(0)`
unfoldable pub trim_history : List TrashUndoTransaction → List TrashUndoTransaction
trim_history [] = []
trim_history (tx ∷ history) =
    let rest = trim_history history in
    if ltb max_trash_history (length (tx ∷ history)) then rest else tx ∷ history

abbrev pub push_history :
    String → ℕ → List (String × String) → List TrashUndoTransaction → List TrashUndoTransaction
push_history tx_id now [] history = history
push_history tx_id now (m ∷ moved) history =
    trim_history (history ++ record { tx_id = tx_id; moved = m ∷ moved; created_at = now } ∷ [])

-- `text or default`
abbrev pub text_or : String → String → String
text_or default text = if text == "" then default else text

abbrev pub fail : String → String → TrashBatch → TrashBatch
fail src message b = record b { failures = b.failures ++ (src, message) ∷ [] }

abbrev pub succeed : String → String → TrashBatch → TrashBatch
succeed src dst b = record b {
  moved = b.moved ++ (src, dst) ∷ [];
  deleted_paths = b.deleted_paths ++ src ∷ [];
}

-- `_TRASH_HISTORY[-1]`, and the history without it.
abbrev pub last_transaction :
    List TrashUndoTransaction → Option (TrashUndoTransaction × List TrashUndoTransaction)
last_transaction [] = none
last_transaction (tx ∷ []) = some (tx, [])
last_transaction (tx ∷ next ∷ history) = elim (last_transaction (next ∷ history)) [
  | none ↦ none
  | some (last, before) ↦ some (last, tx ∷ before)
]

module _ {W : Type 0} (ops : TrashOps W) where
  abbrev pub after_move : String → String → TrashBatch → W × Option String → W × TrashBatch
  after_move src dst b (w, none) = (w, succeed src dst b)
  after_move src dst b (w, some e) = (w, fail src (text_or "Move to managed storage failed" e) b)

  abbrev pub free_place : W → String → String
  free_place w dst = if ops.exists w dst then ops.dup_name dst else dst

  abbrev pub after_mkdir : String → String → TrashBatch → W × Option String → W × TrashBatch
  after_mkdir src dst b (w, some e) = (w, fail src (text_or "Move to managed storage failed" e) b)
  after_mkdir src dst b (w, none) =
      let place = free_place w dst in after_move src place b (ops.move w src place)

  -- The body of the loop.
  unfoldable pub trash_one : String → String → W × TrashBatch → W × TrashBatch
  trash_one tx_id src (w, b) =
      let dst = ops.trash_place tx_id src in
      if not (ops.exists w src)
      then (w, fail src "File disappeared before move" b)
      else after_mkdir src dst b (ops.make_dir w (ops.parent dst))

  unfoldable pub trash_all : String → List String → W × TrashBatch → W × TrashBatch
  trash_all tx_id [] state = state
  trash_all tx_id (src ∷ srcs) state = trash_all tx_id srcs (trash_one tx_id src state)

  abbrev pub make_tx_root : String → W × Option String → W × Option String
  make_tx_root tx_id (w, some e) = (w, some e)
  make_tx_root tx_id (w, none) = ops.make_dir w (ops.tx_root tx_id)

  -- The folders of the trash and of the transaction; no handler stands around their `mkdir`.
  unfoldable pub make_roots : String → W → W × Option String
  make_roots tx_id w = make_tx_root tx_id (ops.make_dir w ops.trash_root)

  abbrev pub trash_into :
      String
      → ℕ
      → List String
      → List TrashUndoTransaction
      → W × Option String
      → (W × Option TrashBatch) × List TrashUndoTransaction
  trash_into tx_id now paths history (w, some e) = ((w, none), history)
  trash_into tx_id now paths history (w, none) =
      let out = trash_all tx_id paths (w, empty_batch) in
      ((out.0, some out.1), push_history tx_id now out.1.moved history)

  -- What the loop leaves, `none` where an OSError leaves the method, and the history.
  unfoldable pub delete_to_managed_trash :
      String
      → ℕ
      → List String
      → W
      → List TrashUndoTransaction
      → (W × Option TrashBatch) × List TrashUndoTransaction
  delete_to_managed_trash tx_id now paths w history =
      trash_into tx_id now paths history (make_roots tx_id w)

  -- The number of files restored, and whether no move has failed.
  abbrev pub after_restore : ℕ → Bool → W × Option String → W × ℕ × Bool
  after_restore n ok (w, none) = (w, suc n, ok)
  after_restore n ok (w, some e) = (w, n, false)

  abbrev pub restore_move : String → String → ℕ → Bool → W × Option String → W × ℕ × Bool
  restore_move src dst n ok (w, some e) = (w, n, false)
  restore_move src dst n ok (w, none) = after_restore n ok (ops.move w dst src)

  unfoldable pub restore_one : String × String → W × ℕ × Bool → W × ℕ × Bool
  restore_one (src, dst) (w, n, ok) =
      if ops.exists w dst
      then restore_move src dst n ok (ops.make_dir w (ops.parent src))
      else (w, n, ok)

  -- `for src, dst in reversed(moved)`
  unfoldable pub restore_reversed : List (String × String) → W × ℕ × Bool → W × ℕ × Bool
  restore_reversed [] state = state
  restore_reversed (m ∷ moved) state = restore_one m (restore_reversed moved state)

  abbrev pub finish_undo :
      List TrashUndoTransaction
      → List TrashUndoTransaction
      → W × ℕ × Bool
      → (W × List TrashUndoTransaction) × Bool × ℕ
  finish_undo history before (w, n, ok) = ((w, if ok then before else history), ok, n)

  abbrev pub undo_moved :
      W
      → List TrashUndoTransaction
      → List TrashUndoTransaction
      → List (String × String)
      → (W × List TrashUndoTransaction) × Bool × ℕ
  undo_moved w history before [] = ((w, history), false, 0)
  undo_moved w history before (m ∷ moved) =
      finish_undo history before (restore_reversed (m ∷ moved) (w, 0, true))

  abbrev pub undo_found :
      W
      → List TrashUndoTransaction
      → Option (TrashUndoTransaction × List TrashUndoTransaction)
      → (W × List TrashUndoTransaction) × Bool × ℕ
  undo_found w history none = ((w, history), false, 0)
  undo_found w history (some (tx, before)) = undo_moved w history before tx.moved

  unfoldable pub undo_last_trash_delete :
      W → List TrashUndoTransaction → (W × List TrashUndoTransaction) × Bool × ℕ
  undo_last_trash_delete w history = undo_found w history (last_transaction history)
