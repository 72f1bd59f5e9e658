-- ===== src/Checkpoint/Seeding.antt =====
-- The bulk insertion of the files that were found: what it adds, and that it loses no progress.
use backhouse_dff.Base.{
  ℕ, zero, suc, ◌+◌, ◌≤◌, ◌<◌, ◌≡◌, refl, sym, ◌∙◌, ap, inl, inr, String, Bool, true, false, Option,
  none, some, List, [], ◌∷◌, ◌++◌, map, if◌then◌else◌, arith, length, take, drop, length-append,
  length-drop, take-append-drop, any, Bool-cases, &&-true, text_key,
}
use mathlib.Core.List.{map-append}
use backhouse_dff.Checkpoint.{FileCheckpoint, CheckpointDb}
use backhouse_dff.Checkpoint.Files.{
  PendingFile, has_key, pending_row, insert_or_ignore, insert_rows, insert_chunks,
  insert_pending_files_batch,
}

insert_rows-append :
    (xs ys table : List FileCheckpoint)
    → insert_rows (xs ++ ys) table ≡ insert_rows ys (insert_rows xs table)
unfolding insert_rows
insert_rows-append [] ys table = refl
insert_rows-append (x ∷ xs) ys table = insert_rows-append xs ys (insert_or_ignore x table)

-- The chunks together insert every file in order, and count each.
insert_chunks-all :
    (fuel c now : ℕ) (scan_id : String) (files : List PendingFile) (table : List FileCheckpoint)
    (inserted : ℕ)
    → length files ≤ fuel
    → insert_chunks fuel (suc c) now scan_id files (table, inserted)
      ≡ (insert_rows (map (pending_row now scan_id) files) table, inserted + length files)
unfolding insert_chunks insert_rows
insert_chunks-all zero c now scan_id [] table inserted h =
    let eq : inserted + 0 ≡ inserted = omega arith in rw eq refl
insert_chunks-all zero c now scan_id (file ∷ files) table inserted h = absurd (omega (arith, h))
insert_chunks-all (suc fuel) c now scan_id [] table inserted h =
    let eq : inserted + 0 ≡ inserted = omega arith in rw eq refl
insert_chunks-all (suc fuel) c now scan_id (file ∷ files) table inserted h =
    let chunk = take (suc c) (file ∷ files) in
    let rest = drop (suc c) (file ∷ files) in
    let make = pending_row now scan_id in
    let parts = take-append-drop (suc c) (file ∷ files) in
    let sizes : length chunk + length rest ≡ length (file ∷ files) =
      sym (length-append chunk rest) ∙ ap length parts in
    let left = length-drop c files in
    insert_chunks-all fuel c now scan_id rest (insert_rows (map make chunk) table)
      (inserted + length chunk) (omega (arith, h, left))
    ∙ λ i. (
      (sym (insert_rows-append (map make chunk) (map make rest) table)
            ∙ ap (λ rows. insert_rows rows table)
                (sym (map-append make chunk rest) ∙ ap (map make) parts))
          i,
      total inserted (length chunk) (length rest) _ sizes i,
    )
  where
    total : (a b d e : ℕ) → b + d ≡ e → a + b + d ≡ a + e
    total a b d e eq = omega (arith, eq)

-- The row with a primary key.
abbrev pub row_at : String → String → List FileCheckpoint → Option FileCheckpoint
row_at id path [] = none
row_at id path (row ∷ rows) = if has_key id path row then some row else row_at id path rows

abbrev pub first_some : Option FileCheckpoint → Option FileCheckpoint → Option FileCheckpoint
first_some none other = other
first_some (some row) other = some row

first_some-none : (a : Option FileCheckpoint) → a ≡ first_some a none
first_some-none none = refl
first_some-none (some row) = refl

first_some_assoc :
    (a b c : Option FileCheckpoint) → first_some (first_some a b) c ≡ first_some a (first_some b c)
first_some_assoc none b c = refl
first_some_assoc (some row) b c = refl

row_at-append :
    (id path : String) (xs ys : List FileCheckpoint)
    → row_at id path (xs ++ ys) ≡ first_some (row_at id path xs) (row_at id path ys)
row_at-append id path [] ys = refl
row_at-append id path (x ∷ xs) ys = elim (Bool-cases (has_key id path x)) [
  | inl e ↦ rw e refl
  | inr e ↦ rw e (row_at-append id path xs ys)
]

-- A row that has a key has the texts of the key.
has_key-texts :
    (id path : String) (row : FileCheckpoint)
    → has_key id path row ≡ true
    → (row.scan_id ≡ id) × (row.file_path ≡ path)
has_key-texts id path row h =
    let both = &&-true _ _ h in
    ((text_key.eqb_iff row.scan_id id).0 both.0, (text_key.eqb_iff row.file_path path).0 both.1)

row_at-any :
    (id path : String) (table : List FileCheckpoint)
    → any (has_key id path) table ≡ true
    → (row : FileCheckpoint) × (row_at id path table ≡ some row)
row_at-any id path [] h = absurd (ground (arith, h))
row_at-any id path (x ∷ xs) h = elim (Bool-cases (has_key id path x)) [
  | inl e ↦ (x, rw e refl)
  | inr e ↦ rw e (row_at-any id path xs (rw e at h))
]

insert_or_ignore-row_at :
    (id path : String) (row : FileCheckpoint) (table : List FileCheckpoint)
    → row_at id path (insert_or_ignore row table)
      ≡ first_some (row_at id path table) (row_at id path (row ∷ []))
insert_or_ignore-row_at id path row table =
    elim (Bool-cases (any (has_key row.scan_id row.file_path) table)) [
      | inl old ↦
          rw (old, insert_or_ignore)
            (elim (Bool-cases (has_key id path row)) [
              | inl same ↦
                  let texts = has_key-texts id path row same in
                  let there = row_at-any id path table (rw (texts.0, texts.1) at old) in
                  rw there.1 refl
              | inr other ↦ rw other (first_some-none (row_at id path table))
            ])
      | inr new ↦ rw (new, insert_or_ignore) (row_at-append id path table (row ∷ []))
    ]

pub insert_rows-row_at :
    (id path : String) (rows table : List FileCheckpoint)
    → row_at id path (insert_rows rows table)
      ≡ first_some (row_at id path table) (row_at id path rows)
unfolding insert_rows
insert_rows-row_at id path [] table = first_some-none (row_at id path table)
insert_rows-row_at id path (row ∷ rows) table =
    insert_rows-row_at id path rows (insert_or_ignore row table)
    ∙ ap (λ a. first_some a (row_at id path rows)) (insert_or_ignore-row_at id path row table)
    ∙ first_some_assoc (row_at id path table) (row_at id path (row ∷ [])) (row_at id path rows)
    ∙ ap (first_some (row_at id path table)) (sym (row_at-append id path (row ∷ []) rows))

insert_chunks-row_at :
    (now c : ℕ) (scan_id : String) (files : List PendingFile) (table : List FileCheckpoint)
    (id path : String) (fuel : ℕ)
    → length files ≤ fuel
    → (row_at id path (insert_chunks fuel (suc c) now scan_id files (table, 0)).0
        ≡ first_some (row_at id path table) (row_at id path (map (pending_row now scan_id) files)))
      × ((insert_chunks fuel (suc c) now scan_id files (table, 0)).1 ≡ length files)
insert_chunks-row_at now c scan_id files table id path fuel h =
    let eq : 0 + length files ≡ length files = omega arith in
    rw (insert_chunks-all fuel c now scan_id files table 0 h)
      (insert_rows-row_at id path (map (pending_row now scan_id) files) table, eq)

-- A batch in chunks of at least one file leaves each row of the table as it was, adds a pending row
-- for each file without one, the first of that path in the batch, and returns the number of files
-- given.
pub insert_pending_files_batch-row_at :
    (now : ℕ) (scan_id : String) (files : List PendingFile) (update_total : Bool) (chunk_size : ℕ)
    (db : CheckpointDb) (id path : String)
    → 0 < chunk_size
    → (row_at id path
          (insert_pending_files_batch now scan_id files update_total chunk_size
            db).0.file_checkpoints
        ≡ first_some
            (row_at id path db.file_checkpoints)
            (row_at id path (map (pending_row now scan_id) files)))
      × ((insert_pending_files_batch now scan_id files update_total chunk_size db).1 ≡ length files)
unfolding insert_pending_files_batch
insert_pending_files_batch-row_at now scan_id [] update_total chunk_size db id path h =
    (first_some-none (row_at id path db.file_checkpoints), refl)
insert_pending_files_batch-row_at now scan_id (file ∷ files) update_total zero db id path h =
    absurd (omega (arith, h))
insert_pending_files_batch-row_at now scan_id (file ∷ files) true (suc c) db id path h =
    insert_chunks-row_at now c scan_id (file ∷ files) db.file_checkpoints id path
      (suc (length files)) (omega arith)
insert_pending_files_batch-row_at now scan_id (file ∷ files) false (suc c) db id path h =
    insert_chunks-row_at now c scan_id (file ∷ files) db.file_checkpoints id path
      (suc (length files)) (omega arith)
