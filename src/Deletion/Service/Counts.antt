-- ===== src/Deletion/Service/Counts.antt =====
-- The counts of an outcome against the paths.
use backhouse_dff.Base.{ℕ, ◌+◌, ◌≡◌, ◌⊎◌, String, Option, none, some, length}
use backhouse_dff.Deletion.Adapters.{FileOps, DeletionPolicy, trash}
use backhouse_dff.Deletion.Engine.{Tally}
use backhouse_dff.Deletion.Service.{TrashOps}
use backhouse_dff.Deletion.Service.Files.{Checked, DeleteFilesResult}

module _ {W : Type 0} (fs : FileOps W String) (ops : TrashOps W) where
  abbrev checked_count : Checked → ℕ
  checked_count c = length c.existing_paths + length c.missing_paths

  tally_count : Tally String → ℕ
  tally_count t = length t.deleted + length t.failed

  -- The outcome has counts that add up to `n`, or an OSError of a folder of the trash leaves.
  abbrev pub Accounts : ℕ → DeletionPolicy → Option String → Option DeleteFilesResult → Type 0
  Accounts n policy roots out =
      ((result : DeleteFilesResult) × (out ≡ some result)
        × (result.deleted_count + result.failed_count ≡ n))
      ⊎ ((policy ≡ trash) × ((e : String) × (roots ≡ some e)) × (out ≡ none))
