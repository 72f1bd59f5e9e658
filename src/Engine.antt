-- ===== src/Engine.antt =====
-- cerebro/engines/base_engine.py: the files and groups that every scan engine produces.
-- A timestamp and a similarity are floats in the source; they stand here as whole numbers of a
-- fixed small unit, since the code only copies and compares them.
pub mod Reclaim
pub mod Samples
mod Tests
use backhouse_dff.Base.{
  ℕ, ◌+◌, ◌-◌, ltb, length, max, sum_of, filter, String, Bool, List, [], ◌∷◌, if◌then◌else◌,
}
use backhouse_dff.Base.Best.{best_index}
use backhouse_dff.Base.Value.{Value}

pub data ScanState : Type 0 where
  idle scanning paused completed cancelled error : ScanState

-- Two objects with equal fields may be distinct; where the code tells them apart by `is`, the
-- model tells them apart by their place in the list.
pub record DuplicateFile : Type 0 where
  pub path : String
  pub size : ℕ
  pub modified : ℕ
  pub extension : String
  pub is_keeper : Bool
  pub similarity : ℕ
  pub metadata : List (String × Value)

pub record DuplicateGroup : Type 0 where
  pub group_id : ℕ
  pub files : List DuplicateFile
  pub total_size : ℕ
  pub reclaimable : ℕ
  pub similarity_type : String

abbrev pub file_size : DuplicateFile → ℕ
file_size f = f.size

-- `max(f.size for f in files)`
abbrev pub max_size : List DuplicateFile → ℕ
max_size [] = 0
max_size (f ∷ fs) = max f.size (max_size fs)

abbrev pub flagged : List DuplicateFile → List DuplicateFile
flagged = filter (λ f. f.is_keeper)

-- The bytes of `keepers`, or of the largest file where there is none.
abbrev pub kept_bytes : List DuplicateFile → List DuplicateFile → ℕ
kept_bytes files [] = max_size files
kept_bytes files (k ∷ ks) = sum_of file_size (k ∷ ks)

unfoldable pub keeper_size : List DuplicateFile → ℕ
keeper_size files = kept_bytes files (flagged files)

abbrev pub derive : DuplicateGroup → List DuplicateFile → DuplicateGroup
derive g [] = g
derive g (f ∷ fs) = record g {
  total_size = sum_of file_size g.files;
  reclaimable = sum_of file_size g.files - keeper_size g.files;
}

-- `__post_init__`
unfoldable pub post_init : DuplicateGroup → DuplicateGroup
post_init g = derive g g.files

-- `DuplicateGroup(group_id=..., files=..., similarity_type=...)`
unfoldable pub new_group : ℕ → List DuplicateFile → String → DuplicateGroup
unfolding post_init
new_group group_id files similarity_type = post_init (record {
  group_id = group_id;
  files = files;
  total_size = 0;
  reclaimable = 0;
  similarity_type = similarity_type;
})

pub file_count : DuplicateGroup → ℕ
file_count g = length g.files

-- The indices of the flagged files, counted from `i`.
unfoldable pub flagged_indices : ℕ → List DuplicateFile → List ℕ
flagged_indices i [] = []
flagged_indices i (f ∷ fs) =
    let rest = flagged_indices (i + 1) fs in if f.is_keeper then i ∷ rest else rest

abbrev pub first_or_largest : List DuplicateFile → List ℕ → ℕ
first_or_largest files [] = best_index (λ new old. ltb old new) file_size files
first_or_largest files (i ∷ is) = i

unfoldable pub get_keeper_index : DuplicateGroup → ℕ
get_keeper_index g = first_or_largest g.files (flagged_indices 0 g.files)
