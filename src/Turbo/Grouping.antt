-- ===== src/Turbo/Grouping.antt =====
-- cerebro/core/scanners/turbo_scanner.py, `_group_files_by_size`: the grouping of a list, and that
-- of rows read in the order of size. Log lines and progress reports are left out.
use backhouse_dff.Base.{
  ℕ, suc, ◌%◌, String, Bool, ◌&&◌, Option, none, some, List, [], ◌∷◌, ◌++◌, if◌then◌else◌, length,
  nat_beq, leb, filter, nat_key,
}
use backhouse_dff.Base.Dict.{insert}
use backhouse_dff.Base.Buckets.{append_to}

-- A path with its time of change.
abbrev pub Entry : Type 0
Entry = String × ℕ

-- Path, size and time of change.
abbrev pub FoundFile : Type 0
FoundFile = String × ℕ × ℕ

abbrev pub Groups : Type 0
Groups = List (ℕ × List Entry)

abbrev pub size_of : FoundFile → ℕ
size_of (path, size, mtime) = size

abbrev pub entry_of : FoundFile → Entry
entry_of (path, size, mtime) = (path, mtime)

abbrev pub keep_groups : Option Groups → Groups
keep_groups none = []
keep_groups (some size_groups) = filter (λ g. leb 2 (length g.1)) size_groups

abbrev pub flush_bucket : ℕ → List Entry → Groups → Groups
flush_bucket size_key bucket size_groups =
    if leb 2 (length bucket) then insert size_key bucket size_groups else size_groups

-- `cancelled i` is what the cancel event says when file `i` is reached; it is read at every 128th.
module _ (cancelled : ℕ → Bool) where
  abbrev pub stops : ℕ → Bool
  stops i = nat_beq (i % 128) 0 && cancelled i

  -- `none` is the early `return {}`.
  unfoldable pub group_loop : ℕ → List FoundFile → Groups → Option Groups
  group_loop gi [] size_groups = some size_groups
  group_loop gi (file ∷ files) size_groups =
      let rest = group_loop (suc gi) files (append_to (size_of file) (entry_of file) size_groups) in
      if stops gi then none else rest

  unfoldable pub group_list : List FoundFile → Groups
  group_list files = keep_groups (group_loop 0 files [])

  unfoldable pub row_loop : ℕ → ℕ → List Entry → List FoundFile → Groups → Groups
  row_loop processed current_size bucket [] size_groups =
      flush_bucket current_size bucket size_groups
  row_loop processed current_size bucket (row ∷ rows) size_groups =
      let same = nat_beq (size_of row) current_size in
      let bucket' = if same then bucket ++ entry_of row ∷ [] else entry_of row ∷ [] in
      let flushed = if same then size_groups else flush_bucket current_size bucket size_groups in
      let rest = row_loop (suc processed) (size_of row) bucket' rows flushed in
      if stops processed then [] else rest

  -- The first row has no size before it.
  unfoldable pub group_rows : List FoundFile → Groups
  group_rows [] = []
  group_rows (row ∷ rows) =
      if stops 0 then [] else row_loop 1 (size_of row) (entry_of row ∷ []) rows []
