-- ===== src/Turbo/Results.antt =====
-- cerebro/engines/turbo_file_engine.py: from the scanner's groups to the results of the engine, in
-- `_do_scan` and `_convert_groups`. The file system is a parameter. The cancel event is read at
-- each group and at each path; `reads` is how many reads find it clear, after which it stays set.
use backhouse_dff.Base.{
  ℕ, zero, suc, ◌≤◌, ◌≡◌, ap, inl, inr, String, Bool, true, false, not, Option, none, some, List,
  [], ◌∷◌, ◌++◌, arith, if◌then◌else◌, length, ltb, leb, filter, filter-All, All, All-append,
  Bool-cases, Option-cases, some-inj,
}
use backhouse_dff.Engine.{DuplicateFile, DuplicateGroup, new_group}
use backhouse_dff.Engine.Reclaim.{new_group-fields}
use backhouse_dff.Turbo.Guard.{GroupRow}

-- The groups without the paths under a protected directory; the loop stops at a cancel. The time
-- limit of the loop only cuts it where the cancel event is set already.
unfoldable pub safe_groups : (String → Bool) → ℕ → List (GroupRow String) → List (GroupRow String)
safe_groups is_protected reads [] = []
safe_groups is_protected zero (g ∷ groups) = []
safe_groups is_protected (suc reads) (g ∷ groups) =
    let safe_paths = filter (λ p. not (is_protected p)) g.paths in
    let rest = safe_groups is_protected reads groups in
    if leb 2 (length safe_paths) then record g { paths = safe_paths } ∷ rest else rest

-- `stat` is the size and time of change of a file, `none` for an OSError.
module _ (suffix : String → String) (stat : String → Option (ℕ × ℕ)) where
  abbrev pub new_file : String → ℕ × ℕ → DuplicateFile
  new_file path (size, modified) = record {
    path = path;
    size = size;
    modified = modified;
    extension = suffix path;
    is_keeper = false;
    similarity = 1;
    metadata = [];
  }

  abbrev pub add_file : String → List DuplicateFile → List DuplicateFile
  add_file path files = elim (stat path) [
    | none ↦ files
    | some info ↦ files ++ new_file path info ∷ []
  ]

  -- The files of one group and the reads that are left; `none` is `cancelled_mid_group`.
  unfoldable pub group_files :
      ℕ → List String → List DuplicateFile → Option (ℕ × List DuplicateFile)
  group_files reads [] files = some (reads, files)
  group_files zero (path ∷ paths) files = none
  group_files (suc reads) (path ∷ paths) files = group_files reads paths (add_file path files)

  abbrev pub add_group : ℕ → List DuplicateFile → List DuplicateGroup → List DuplicateGroup
  add_group idx files results =
      if ltb (length files) 2 then results else results ++ new_group idx files "exact" ∷ []

  unfoldable pub convert_groups :
      ℕ → ℕ → List (GroupRow String) → List DuplicateGroup → List DuplicateGroup
  convert_groups reads idx [] results = results
  convert_groups zero idx (g ∷ groups) results = results
  convert_groups (suc reads) idx (g ∷ groups) results =
      let skipped = convert_groups reads (suc idx) groups results in
      if ltb (length g.paths) 2 then skipped else elim (group_files reads g.paths []) [
        | none ↦ results
        | some (left, files) ↦ convert_groups left (suc idx) groups (add_group idx files results)
      ]

  module _ (is_protected : String → Bool) where
    -- A path that no protected directory holds.
    abbrev pub IsSafe : String → Type 0
    IsSafe path = not (is_protected path) ≡ true

    -- A group to delete from: two files at least, none of them protected.
    abbrev pub IsResult : DuplicateGroup → Type 0
    IsResult g = (2 ≤ length g.files) × All (λ f. IsSafe f.path) g.files

    add_file-IsSafe :
        (path : String) (files : List DuplicateFile)
        → IsSafe path
        → All (λ f. IsSafe f.path) files
        → All (λ f. IsSafe f.path) (add_file path files)
    add_file-IsSafe path files safe h = elim (Option-cases (stat path)) [
      | inl gone ↦ rw (gone, add_file) h
      | inr found ↦ rw (found.1, add_file) (All-append (λ f. IsSafe f.path) files _ h (safe, tt))
    ]

    group_files-IsSafe :
        (reads : ℕ) (paths : List String) (files : List DuplicateFile) (left : ℕ)
        (out : List DuplicateFile)
        → All IsSafe paths
        → All (λ f. IsSafe f.path) files
        → group_files reads paths files ≡ some (left, out)
        → All (λ f. IsSafe f.path) out
    unfolding group_files
    group_files-IsSafe reads [] files left out safe h eq =
        let same = ap (λ x. x.1) (some-inj eq) in rw⁻¹ same h
    group_files-IsSafe zero (path ∷ paths) files left out safe h eq = ground arith
    group_files-IsSafe (suc reads) (path ∷ paths) files left out safe h eq =
        group_files-IsSafe reads paths (add_file path files) left out safe.1
          (add_file-IsSafe path files safe.0 h) eq

    add_group-IsResult :
        (idx : ℕ) (files : List DuplicateFile) (results : List DuplicateGroup)
        → All (λ f. IsSafe f.path) files
        → All IsResult results
        → All IsResult (add_group idx files results)
    add_group-IsResult idx files results safe h =
        let same = (new_group-fields idx files "exact").0 in
        elim (Bool-cases (ltb (length files) 2)) [
          | inl few ↦ rw few h
          | inr two ↦
              rw two (All-append IsResult results _ h ((rw same (ground arith), rw same safe), tt))
        ]

    convert_groups-IsResult :
        (reads idx : ℕ) (groups : List (GroupRow String)) (results : List DuplicateGroup)
        → All (λ g. All IsSafe g.paths) groups
        → All IsResult results
        → All IsResult (convert_groups reads idx groups results)
    unfolding convert_groups
    convert_groups-IsResult reads idx [] results safe h = h
    convert_groups-IsResult zero idx (g ∷ groups) results safe h = h
    convert_groups-IsResult (suc reads) idx (g ∷ groups) results safe h =
        elim (Bool-cases (ltb (length g.paths) 2)) [
          | inl few ↦ rw few (convert_groups-IsResult reads (suc idx) groups results safe.1 h)
          | inr two ↦ elim (Option-cases (group_files reads g.paths [])) [
            | inl cut ↦ rw (two, cut) h
            | inr full ↦
                rw (two, full.1)
                  (convert_groups-IsResult full.0.0 (suc idx) groups
                    (add_group idx full.0.1 results) safe.1
                    (add_group-IsResult idx full.0.1 results
                      (group_files-IsSafe reads g.paths [] full.0.0 full.0.1 safe.0 tt full.1) h))
          ]
        ]

    safe_groups-IsSafe :
        (reads : ℕ) (groups : List (GroupRow String))
        → All (λ g. All IsSafe g.paths) (safe_groups is_protected reads groups)
    unfolding safe_groups
    safe_groups-IsSafe reads [] = tt
    safe_groups-IsSafe zero (g ∷ groups) = tt
    safe_groups-IsSafe (suc reads) (g ∷ groups) =
        let safe_paths = filter (λ p. not (is_protected p)) g.paths in
        elim (Bool-cases (leb 2 (length safe_paths))) [
          | inl kept ↦
              rw kept
                (filter-All (λ p. not (is_protected p)) g.paths, safe_groups-IsSafe reads groups)
          | inr out ↦ rw out (safe_groups-IsSafe reads groups)
        ]

    -- Wherever the scan is cancelled, every group of the results has at least two files, and none
    -- of them is under a protected directory.
    pub convert_groups-IsResult_safe :
        (reads later_reads : ℕ) (groups : List (GroupRow String))
        → All IsResult (convert_groups later_reads 0 (safe_groups is_protected reads groups) [])
    convert_groups-IsResult_safe reads later_reads groups =
        convert_groups-IsResult later_reads 0 (safe_groups is_protected reads groups) []
          (safe_groups-IsSafe reads groups) tt
