-- ===== src/Checkpoint/Resumable.antt =====
-- The manifest that a scan is resumed from.
use backhouse_dff.Base.{
  ℕ, ◌≤◌, ◌≡◌, inl, inr, String, Bool, true, false, ◌&&◌, Option, none, some, List, [], ◌∷◌, All,
  All-map, arith, Bool-cases, filter, filter-All, All-unfilter,
}
use backhouse_dff.Base.Sort.{
  sort_desc, sort_desc-All, sort_desc-IsDescending, All-sort_desc, IsDescending,
}
use backhouse_dff.Checkpoint.{
  CheckpointDb, is_resumable, in_scope, cutoff_days, first_row, find_resumable_manifest,
}

module _ {ℓ} {A : Type ℓ} (key : A → ℕ) (test : A → Bool) where
  -- The row passes the test with the greatest key of all that pass it; without a row none does.
  abbrev pub IsLatest : List A → Option A → Type 0
  IsLatest rows none = All (λ row. test row ≡ false) rows
  IsLatest rows (some row) =
      (test row ≡ true) × All (λ other. test other ≡ true → key other ≤ key row) rows

  refuted : (a : A) → (test a ≡ true → ⊥) → test a ≡ false
  refuted a h = elim (Bool-cases (test a)) [ inl e ↦ absurd (h e) | inr e ↦ e ]

  first_row-IsLatest :
      (rows sorted : List A)
      → All (λ row. test row ≡ true) sorted
      → IsDescending key sorted
      → ((P : A → Type 0) → All P sorted → All (λ row. test row ≡ true → P row) rows)
      → IsLatest rows (first_row sorted)
  first_row-IsLatest rows [] h d back = All-map _ _ rows refuted (back (λ _. ⊥) tt)
  first_row-IsLatest rows (x ∷ xs) h d back =
      (h.0, back (λ other. key other ≤ key x) (omega arith, d.0))

  pub sorted_filter-IsLatest :
      (rows : List A) → IsLatest rows (first_row (sort_desc key (filter test rows)))
  sorted_filter-IsLatest rows =
      let kept = filter test rows in
      first_row-IsLatest rows (sort_desc key kept)
        (sort_desc-All key (λ row. test row ≡ true) kept (filter-All test rows))
        (sort_desc-IsDescending key kept)
        (λ P h. All-unfilter P test rows (All-sort_desc key P kept h))

-- A manifest that is found has the scope asked for, may be resumed and was created last of all such
-- manifests; when none is found, no manifest of the table has the scope and may be resumed.
pub find_resumable_manifest-IsLatest :
    (now : ℕ) (roots_json scope_str : String) (max_age_days : ℕ) (db : CheckpointDb)
    → IsLatest
        (λ m. m.created_at)
        (λ m. in_scope roots_json scope_str m && is_resumable (cutoff_days now max_age_days) m)
        db.scan_manifests
        (find_resumable_manifest now roots_json scope_str max_age_days db)
unfolding find_resumable_manifest
find_resumable_manifest-IsLatest now roots_json scope_str max_age_days db =
    sorted_filter-IsLatest (λ m. m.created_at)
      (λ m. in_scope roots_json scope_str m && is_resumable (cutoff_days now max_age_days) m)
      db.scan_manifests
