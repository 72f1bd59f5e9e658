-- ===== src/Cluster/Images/Grouped.antt =====
-- The groups of images against the chains of near images.
use backhouse_dff.Base.{ℕ, ◌≤◌, ◌≡◌, String, some, List, length, map, All, nat_key, get_elem?}
use backhouse_dff.Engine.{DuplicateGroup}
use backhouse_dff.Cluster.UnionFind.{UnionFind}
use backhouse_dff.Cluster.UnionFind.Classes.{Closure}
use backhouse_dff.Cluster.Images.{ImageRecord}
use backhouse_dff.Cluster.Images.Clusters.{Similar}
use backhouse_dff.Cluster.Images.Grouping.{group_records, image_file}
use backhouse_dff.Cluster.Images.Keepers.{IsBest}

module _ (records : List ImageRecord) where
  -- An index of a record.
  abbrev pub HasRecord : ℕ → Type 0
  HasRecord i = (r : ImageRecord) × (get_elem? records i ≡ some r)

module _ (suffix : String → String) (resolution : ℕ → ℕ → String) (records : List ImageRecord)
    (p d : ℕ) where
  -- Any two of the images are joined by a chain of near images.
  abbrev pub Chained : List ℕ → Type 0
  Chained indices = All (λ i. All (λ j. Closure (Similar records p d) i j) indices) indices

  -- A group shows the records of at least two images that are chained to each other, with the flag
  -- of the keeper at the records of its path, and no record has a larger area than the keeper, or
  -- the same area and more bytes.
  abbrev pub IsImageGroup : DuplicateGroup → Type 0
  IsImageGroup g =
      (indices : List ℕ) × (rs : List ImageRecord) × (keeper : ImageRecord) × (group_records records
          indices
        ≡ some rs)
      × (2 ≤ length indices)
      × Chained indices
      × (g.files ≡ map (image_file suffix resolution keeper) rs)
      × IsBest keeper rs

  Good : List ℕ → Type 0
  Good indices = All (HasRecord records) indices × Chained indices
