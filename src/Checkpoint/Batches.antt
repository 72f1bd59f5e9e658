-- ===== src/Checkpoint/Batches.antt =====
-- The batches of pending files that a resumed scan reads.
use backhouse_dff.Base.{
  ℕ, zero, suc, ◌+◌, ◌-◌, ◌<◌, ◌≡◌, refl, sym, ◌∙◌, ap, inl, inr, String, List, [], ◌∷◌, ◌++◌,
  arith, ltb, nat_beq, length, take, drop, drop-drop, take_all, length-take, take-append-drop,
  Bool-cases, nat_beq_iff, ltb→lt, ltb-false→le,
}
use mathlib.Core.List.{append-nil}
use backhouse_dff.Checkpoint.{CheckpointDb, FileCheckpoint}
use backhouse_dff.Checkpoint.Files.{
  pending_rows, completed_rows, row_batches, iter_pending_files, iter_completed_hashes,
}

abbrev pub concat {ℓ} : {A : Type ℓ} → List (List A) → List A
concat [] = []
concat (xs ∷ xss) = xs ++ concat xss

length-drop-sum {ℓ} : {A : Type ℓ} (n : ℕ) (xs : List A) → length (drop n xs) ≡ length xs - n
length-drop-sum zero xs = omega arith
length-drop-sum (suc n) [] = omega arith
length-drop-sum (suc n) (x ∷ xs) = omega (arith, length-drop-sum n xs)

length-zero {ℓ} : {A : Type ℓ} (xs : List A) → length xs ≡ 0 → xs ≡ []
length-zero [] h = refl
length-zero (x ∷ xs) h = absurd (omega (arith, h))

row_batches-concat :
    (fuel query : ℕ) (all : List FileCheckpoint) (c offset : ℕ)
    → length (drop offset all) < fuel
    → concat (row_batches fuel (λ _. all) query (suc c) offset) ≡ drop offset all
unfolding row_batches
row_batches-concat zero query all c offset h = absurd (omega (arith, h))
row_batches-concat (suc fuel) query all c offset h =
    let left = drop offset all in
    let size = length-take (suc c) left in
    elim (Bool-cases (nat_beq (length (take (suc c) left)) 0)) [
      | inl over ↦
          let none_left : length left ≡ 0 =
            let e = (nat_beq_iff _ _).0 over in omega (arith, e, size) in
          rw over (sym (length-zero left none_left))
      | inr some_left ↦ elim (Bool-cases (ltb (length (take (suc c) left)) (suc c))) [
        | inl short ↦
            let lt = ltb→lt _ _ short in
            rw (some_left, short)
              (append-nil (take (suc c) left) ∙ take_all (suc c) left (omega (arith, lt, size)))
        | inr full ↦
            let ge = ltb-false→le _ _ full in
            let rest = drop-drop offset (suc c) all in
            let shorter = ap length rest in
            let measure = length-drop-sum (suc c) left in
            rw (some_left, full)
              (ap (λ xs. take (suc c) left ++ xs)
                  (row_batches-concat fuel (suc query) all c (offset + suc c)
                      (omega (arith, ge, size, shorter, measure, h))
                    ∙ sym rest)
                ∙ take-append-drop (suc c) left)
      ]
    ]

row_batches-all :
    (fuel : ℕ) (all : List FileCheckpoint) (batch_size : ℕ)
    → 0 < batch_size
    → length all < fuel
    → concat (row_batches fuel (λ _. all) 0 batch_size 0) ≡ all
row_batches-all fuel all zero pos h = absurd (omega (arith, pos))
row_batches-all fuel all (suc c) pos h = row_batches-concat fuel 0 all c 0 h

-- While nothing else writes to the database, the batches of at least one row are together the
-- pending files of the scan, the largest first, and those of the completed files are together the
-- completed files with a hash, in the order of their paths, each file once, when there are more
-- turns than pending files and than completed files.
pub iter_files-concat :
    (fuel : ℕ) (db : CheckpointDb) (scan_id : String) (batch_size : ℕ)
    → 0 < batch_size
    → length (pending_rows scan_id db) < fuel
    → length (completed_rows scan_id db) < fuel
    → (concat (iter_pending_files fuel (λ _. db) scan_id batch_size) ≡ pending_rows scan_id db)
      × (concat (iter_completed_hashes fuel (λ _. db) scan_id batch_size)
          ≡ completed_rows scan_id db)
unfolding iter_pending_files iter_completed_hashes
iter_files-concat fuel db scan_id batch_size pos h k = (
  row_batches-all fuel (pending_rows scan_id db) batch_size pos h,
  row_batches-all fuel (completed_rows scan_id db) batch_size pos k,
)
