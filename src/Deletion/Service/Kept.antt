-- ===== src/Deletion/Service/Kept.antt =====
-- The history of the undo: its bound, and that a deletion is undone first.
use backhouse_dff.Base.{
  ℕ, suc, ◌-◌, ◌≡◌, refl, sym, ap, ◌∙◌, inl, inr, String, Bool, true, false, All, Option, none,
  some, List, [], ◌∷◌, ◌++◌, arith, length, drop, ltb, Bool-cases,
}
use backhouse_dff.Deletion.Service.{
  TrashOps, TrashUndoTransaction, empty_batch, max_trash_history, trim_history, push_history,
  trash_all, delete_to_managed_trash, last_transaction, restore_reversed, undo_found, finish_undo,
  undo_last_trash_delete, make_roots, make_tx_root, trash_into,
}
use backhouse_dff.Deletion.Service.Laws.{TrashLaws}
use backhouse_dff.Deletion.Service.Trashed.{IsFree, AreApart}
use backhouse_dff.Deletion.Service.Restored.{restore_reversed-trash_all}

-- The history keeps its last five transactions.
pub trim_history-drop :
    (history : List TrashUndoTransaction)
    → trim_history history ≡ drop (length history - max_trash_history) history
unfolding trim_history
trim_history-drop [] = refl
trim_history-drop (tx ∷ history) = elim (Bool-cases (ltb 5 (length (tx ∷ history)))) [
  | inl long ↦
      let less : suc (length history) - 5 ≡ suc (length history - 5) = ground (arith, long) in
      rw (long, less) (trim_history-drop history)
  | inr short ↦
      let all : suc (length history) - 5 ≡ 0 = ground (arith, short) in rw (short, all) refl
]

last_transaction-snoc :
    (history : List TrashUndoTransaction) (tx : TrashUndoTransaction)
    → (before : List TrashUndoTransaction) × (last_transaction (history ++ tx ∷ [])
        ≡ some (tx, before))
last_transaction-snoc [] tx = ([], refl)
last_transaction-snoc (t ∷ []) tx = (t ∷ [], refl)
last_transaction-snoc (t ∷ next ∷ history) tx =
    let rest = last_transaction-snoc (next ∷ history) tx in
    (
      t ∷ rest.0,
      ap (λ o. elim o [ none ↦ none | some (last, before) ↦ some (last, t ∷ before) ]) rest.1,
    )

last_transaction-trim_history :
    (history : List TrashUndoTransaction) (tx : TrashUndoTransaction)
    → (before : List TrashUndoTransaction) × (last_transaction (trim_history (history ++ tx ∷ []))
        ≡ some (tx, before))
unfolding trim_history
last_transaction-trim_history [] tx = ([], refl)
last_transaction-trim_history (t ∷ history) tx =
    elim (Bool-cases (ltb 5 (length (t ∷ (history ++ tx ∷ []))))) [
      | inl long ↦ rw long (last_transaction-trim_history history tx)
      | inr short ↦ rw short (last_transaction-snoc (t ∷ history) tx)
    ]

module _ {W C : Type 0} (ops : TrashOps W) (file_at : W → String → Option C)
    (is_dir : W → String → Bool) (is_above : String → String → Bool)
    (laws : TrashLaws ops file_at is_dir is_above) (tx_id : String) where
  -- What the deletion leaves where the folders of the trash can be made and a file is moved.
  delete-some :
      (now : ℕ) (paths : List String) (w : W) (history : List TrashUndoTransaction)
      (m : String × String) (moved : List (String × String))
      → (make_roots ops tx_id w).1 ≡ none
      → (trash_all ops tx_id paths ((make_roots ops tx_id w).0, empty_batch)).1.moved ≡ m ∷ moved
      → (delete_to_managed_trash ops tx_id now paths w history).1
        ≡ trim_history
            (history ++ record { tx_id = tx_id; moved = m ∷ moved; created_at = now } ∷ [])
  unfolding delete_to_managed_trash
  delete-some now paths w history m moved made some_ =
      ap (λ e. (trash_into ops tx_id now paths history ((make_roots ops tx_id w).0, e)).1) made
      ∙ ap (λ ms. push_history tx_id now ms history) some_

  delete-world :
      (now : ℕ) (paths : List String) (w : W) (history : List TrashUndoTransaction)
      → (make_roots ops tx_id w).1 ≡ none
      → (delete_to_managed_trash ops tx_id now paths w history).0.0
        ≡ (trash_all ops tx_id paths ((make_roots ops tx_id w).0, empty_batch)).0
  unfolding delete_to_managed_trash
  delete-world now paths w history made =
      ap (λ e. (trash_into ops tx_id now paths history ((make_roots ops tx_id w).0, e)).0.0) made

  make_tx_root-file_at :
      (out : W × Option String) (x : String)
      → file_at (make_tx_root ops tx_id out).0 x ≡ file_at out.0 x
  make_tx_root-file_at (w, none) x = laws.dir_files w (ops.tx_root tx_id) x
  make_tx_root-file_at (w, some e) x = refl

  make_roots-file_at : (w : W) (x : String) → file_at (make_roots ops tx_id w).0 x ≡ file_at w x
  unfolding make_roots
  make_roots-file_at w x =
      make_tx_root-file_at (ops.make_dir w ops.trash_root) x ∙ laws.dir_files w ops.trash_root x

  -- When the file system follows its laws, the folders of the trash can be made, and then the
  -- places in it are free and apart and no file lies above a path: if a managed-trash deletion has
  -- moved at least one file, then in every later world with the files that it left and no folder at
  -- one of the paths, whatever other folders have come or gone, the undo succeeds, restores as many
  -- files as were moved, and leaves every file of the file system as it was before the deletion.
  pub undo-delete_to_managed_trash :
      (now : ℕ) (paths : List String) (w w1 : W) (history : List TrashUndoTransaction)
      (m : String × String) (moved : List (String × String))
      → (make_roots ops tx_id w).1 ≡ none
      → All (IsFree ops file_at is_dir is_above laws tx_id (make_roots ops tx_id w).0) paths
      → AreApart ops file_at is_dir is_above laws tx_id paths
      → (trash_all ops tx_id paths ((make_roots ops tx_id w).0, empty_batch)).1.moved ≡ m ∷ moved
      → ((x : String)
          → file_at w1 x ≡ file_at (delete_to_managed_trash ops tx_id now paths w history).0.0 x)
      → All (λ src. is_dir w1 src ≡ false) paths
      → (w' : W) × (before : List TrashUndoTransaction) × (undo_last_trash_delete ops w1
            (delete_to_managed_trash ops tx_id now paths w history).1
          ≡ ((w', before), true, length (m ∷ moved)))
        × ((x : String) → file_at w' x ≡ file_at w x)
  unfolding undo_last_trash_delete
  undo-delete_to_managed_trash now paths w w1 history m moved made free apart some_ files dirs =
      let w0 = (make_roots ops tx_id w).0 in
      let out = trash_all ops tx_id paths (w0, empty_batch) in
      let tx : TrashUndoTransaction = record {
        tx_id = tx_id;
        moved = m ∷ moved;
        created_at = now;
      } in
      let last = last_transaction-trim_history history tx in
      let same : (x : String) → file_at w1 x ≡ file_at out.0 x =
        λ x. files x ∙ ap (λ v. file_at v x) (delete-world now paths w history made) in
      let back =
        restore_reversed-trash_all ops file_at is_dir is_above laws tx_id paths w0 w1 free apart
          same dirs in
      let full = trim_history (history ++ tx ∷ []) in
      let restored : restore_reversed ops (m ∷ moved) (w1, 0, true)
          ≡ (back.0, length (m ∷ moved), true) =
        ap (λ ms. restore_reversed ops ms (w1, 0, true)) (sym some_)
        ∙ back.1
        ∙ ap (λ ms. (back.0, length ms, true)) some_ in
      (
        back.0,
        last.0,
        ap (λ h. undo_found ops w1 h (last_transaction h))
              (delete-some now paths w history m moved made some_)
            ∙ ap (undo_found ops w1 full) last.1
            ∙ ap (finish_undo ops full last.0) restored,
        λ x. back.2 x ∙ make_roots-file_at w x,
      )
