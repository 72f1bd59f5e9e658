-- ===== src/Checkpoint/Consistency.antt =====
-- The table of the files in every state that the writer's events reach: known statuses, the primary
-- key and the counts.
use backhouse_dff.Base.{
  ℕ, zero, suc, ◌+◌, ◌≡◌, ◌↔◌, refl, inl, inr, String, Bool, true, ◌||◌, not, List, [], ◌∷◌, map,
  arith, ◌==◌, text_key, nat_beq_iff, length, take, drop, filter, any, All, All-append, Bool-cases,
}
use backhouse_dff.Checkpoint.{FileCheckpoint, CheckpointDb}
use backhouse_dff.Checkpoint.Files.{
  PendingFile, has_key, of_scan, pending_row, insert_or_ignore, insert_rows, insert_chunks,
  verify_consistency,
}
use backhouse_dff.Checkpoint.Writer.{HashResult, write_row, write_rows}

-- Whether a status is one of the three that the check counts.
abbrev pub is_known_status : String → Bool
is_known_status status = status == "pending" || status == "complete" || status == "error"

abbrev pub is_known : FileCheckpoint → Bool
is_known row = is_known_status row.hash_status

abbrev with_status : String → List FileCheckpoint → ℕ
with_status status rows = length (filter (λ row. row.hash_status == status) rows)

-- Each row has one of the statuses, or none of them.
statuses-sum :
    (rows : List FileCheckpoint)
    → with_status "pending" rows
        + with_status "complete" rows
        + with_status "error" rows
        + length (filter (λ row. not (is_known row)) rows)
      ≡ length rows
statuses-sum [] = omega arith
statuses-sum (row ∷ rows) = elim (Bool-cases (row.hash_status == "pending")) [
  | inl e ↦ rw ((text_key.eqb_iff _ _).0 e) (omega (arith, statuses-sum rows))
  | inr not_pending ↦ elim (Bool-cases (row.hash_status == "complete")) [
    | inl e ↦ rw ((text_key.eqb_iff _ _).0 e) (omega (arith, statuses-sum rows))
    | inr not_complete ↦ elim (Bool-cases (row.hash_status == "error")) [
      | inl e ↦ rw ((text_key.eqb_iff _ _).0 e) (omega (arith, statuses-sum rows))
      | inr not_error ↦ rw (not_pending, not_complete, not_error) (omega (arith, statuses-sum rows))
    ]
  ]
]

none_left-All :
    (rows : List FileCheckpoint)
    → length (filter (λ row. not (is_known row)) rows) ≡ 0
    → All (λ row. is_known row ≡ true) rows
none_left-All [] h = tt
none_left-All (row ∷ rows) h = elim (Bool-cases (is_known row)) [
  | inl e ↦ (e, none_left-All rows (rw e at h))
  | inr e ↦ absurd (let k = rw e at h in omega (arith, k))
]

All-none_left :
    (rows : List FileCheckpoint)
    → All (λ row. is_known row ≡ true) rows
    → length (filter (λ row. not (is_known row)) rows) ≡ 0
All-none_left [] h = refl
All-none_left (row ∷ rows) h = rw (h.0) (All-none_left rows h.1)

-- The check of a scan succeeds exactly when each of its rows has one of the three statuses.
pub verify_consistency_iff :
    (scan_id : String) (db : CheckpointDb)
    → (verify_consistency scan_id db ≡ true)
      ↔ All (λ row. is_known row ≡ true) (filter (of_scan scan_id) db.file_checkpoints)
verify_consistency_iff scan_id db =
    let rows = filter (of_scan scan_id) db.file_checkpoints in
    let sum = statuses-sum rows in
    let test =
      nat_beq_iff (length rows)
        (with_status "pending" rows + with_status "complete" rows + with_status "error" rows) in
    (
      λ ok. let eq = test.0 ok in none_left-All rows (omega (arith, sum, eq)),
      λ all. let zero_left = All-none_left rows all in test.1 (omega (arith, sum, zero_left)),
    )

-- What holds of every row that is written holds of the table.
abbrev pub AllKnown : List FileCheckpoint → Type 0
AllKnown = All (λ row. is_known row ≡ true)

insert_rows-AllKnown :
    (rows table : List FileCheckpoint)
    → AllKnown rows
    → AllKnown table
    → AllKnown (insert_rows rows table)
unfolding insert_rows
insert_rows-AllKnown [] table h k = k
insert_rows-AllKnown (row ∷ rows) table h k =
    insert_rows-AllKnown rows (insert_or_ignore row table) h.1
      (elim (Bool-cases (any (has_key row.scan_id row.file_path) table)) [
        | inl old ↦ rw (old, insert_or_ignore) k
        | inr new ↦ rw (new, insert_or_ignore) (All-append _ table (row ∷ []) k (h.0, tt))
      ])

pending_rows-AllKnown :
    (now : ℕ) (scan_id : String) (files : List PendingFile)
    → AllKnown (map (pending_row now scan_id) files)
pending_rows-AllKnown now scan_id [] = tt
pending_rows-AllKnown now scan_id (file ∷ files) = (refl, pending_rows-AllKnown now scan_id files)

pub insert_chunks-AllKnown :
    (fuel chunk_size now : ℕ) (scan_id : String) (files : List PendingFile)
    (table : List FileCheckpoint) (inserted : ℕ)
    → AllKnown table
    → AllKnown (insert_chunks fuel chunk_size now scan_id files (table, inserted)).0
unfolding insert_chunks
insert_chunks-AllKnown zero chunk_size now scan_id files table inserted k = k
insert_chunks-AllKnown (suc fuel) chunk_size now scan_id [] table inserted k = k
insert_chunks-AllKnown (suc fuel) chunk_size now scan_id (file ∷ files) table inserted k =
    let chunk = take chunk_size (file ∷ files) in
    insert_chunks-AllKnown fuel chunk_size now scan_id (drop chunk_size (file ∷ files))
      (insert_rows (map (pending_row now scan_id) chunk) table) (inserted + length chunk)
      (insert_rows-AllKnown (map (pending_row now scan_id) chunk) table
        (pending_rows-AllKnown now scan_id chunk) k)

pub write_rows-AllKnown :
    (items : List HashResult) (table : List FileCheckpoint)
    → All (λ item. is_known_status item.status ≡ true) items
    → AllKnown table
    → AllKnown (write_rows items table)
unfolding write_rows
write_rows-AllKnown [] table h k = k
write_rows-AllKnown (item ∷ items) table h k =
    write_rows-AllKnown items (map (write_row item) table) h.1 (one table k)
  where
    one : (rows : List FileCheckpoint) → AllKnown rows → AllKnown (map (write_row item) rows)
    one [] g = tt
    one (row ∷ rows) g = elim (Bool-cases (has_key item.scan_id item.file_path row)) [
      | inl e ↦ rw e (h.0, one rows g.1)
      | inr e ↦ rw e (g.0, one rows g.1)
    ]
