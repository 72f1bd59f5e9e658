-- ===== src/Cluster/Images/Grouping.antt =====
-- cerebro/engines/image_dedup_engine.py, `_build_duplicate_groups` and `_group_images`: the groups
-- that the clusters become. A similarity is a whole number of 128ths. The lower case of a path's
-- suffix and the text of a resolution are parameters; progress and log lines are left out.
use backhouse_dff.Base.{
  ℕ, suc, ◌+◌, ◌-◌, ◌*◌, String, Bool, ◌&&◌, ◌||◌, Option, none, some, List, [], ◌∷◌, map,
  if◌then◌else◌, ltb, leb, nat_beq, ◌==◌, text_key, nat_key, length, get_elem?, sum_of,
}
use backhouse_dff.Base.Value.{Value}
use backhouse_dff.Engine.{DuplicateFile, DuplicateGroup, post_init}
use backhouse_dff.Cluster.UnionFind.{UnionFind, get_groups}
use backhouse_dff.Cluster.Hamming.{hamming_distance}
use backhouse_dff.Cluster.Images.{ImageRecord, cluster_by_hamming}

-- `[records[i] for i in group_indices]`, `none` for an IndexError.
abbrev pub group_records : List ImageRecord → List ℕ → Option (List ImageRecord)
group_records records [] = some []
group_records records (i ∷ indices) = elim (get_elem? records i) [
  | none ↦ none
  | some r ↦ elim (group_records records indices) [ none ↦ none | some rs ↦ some (r ∷ rs) ]
]

-- Whether a pair of an area and a size is greater than another.
abbrev pub greater_key : ℕ → ℕ → ℕ → ℕ → Bool
greater_key area size area' size' = ltb area' area || nat_beq area area' && ltb size' size

abbrev pub beats : ImageRecord → ImageRecord → Bool
beats a b = greater_key (a.width * a.height) a.size (b.width * b.height) b.size

-- `max(group_records, key=...)`: the first record that no other beats, from the best one so far.
unfoldable pub max_record : ImageRecord → List ImageRecord → ImageRecord
max_record best [] = best
max_record best (r ∷ rs) = max_record (if beats r best then r else best) rs

-- `max(0.0, 1.0 - distance / 64)`, in 64ths.
abbrev pub similarity_from_hamming : ℕ → ℕ
similarity_from_hamming distance = 64 - distance

module _ (suffix : String → String) (resolution : ℕ → ℕ → String) where
  abbrev pub resolution_text : ℕ → ℕ → String
  resolution_text w h = if nat_beq w 0 || nat_beq h 0 then "—" else resolution w h

  abbrev pub image_file : ImageRecord → ImageRecord → DuplicateFile
  image_file keeper r = record {
    path = r.path;
    size = r.size;
    modified = r.modified;
    extension = suffix r.path;
    is_keeper = r.path == keeper.path;
    similarity =
        similarity_from_hamming (hamming_distance r.phash_int keeper.phash_int)
        + similarity_from_hamming (hamming_distance r.dhash_int keeper.dhash_int);
    metadata =
        ("width", Value.num r.width)
        ∷ ("height", Value.num r.height)
        ∷ ("resolution", Value.str (resolution_text r.width r.height))
        ∷ [];
  }

  -- The group of some records, and `__post_init__`.
  abbrev pub image_group : ℕ → ImageRecord → List ImageRecord → DuplicateGroup
  image_group group_id r rs =
      let keeper = max_record r rs in
      let total = sum_of (λ (x : ImageRecord). x.size) (r ∷ rs) in
      post_init (record {
        group_id = group_id;
        files = map (image_file keeper) (r ∷ rs);
        total_size = total;
        reclaimable = total - keeper.size;
        similarity_type = "perceptual";
      })

  -- `max` of no record is a ValueError.
  abbrev pub group_of : ℕ → Option (List ImageRecord) → Option DuplicateGroup
  group_of group_id none = none
  group_of group_id (some []) = none
  group_of group_id (some (r ∷ rs)) = some (image_group group_id r rs)

  abbrev pub add_group :
      Option DuplicateGroup → Option (List DuplicateGroup) → Option (List DuplicateGroup)
  add_group none rest = none
  add_group (some g) none = none
  add_group (some g) (some gs) = some (g ∷ gs)

  unfoldable pub build_duplicate_groups :
      List ImageRecord → ℕ → List (List ℕ) → Option (List DuplicateGroup)
  build_duplicate_groups records group_id [] = some []
  build_duplicate_groups records group_id (indices ∷ rest) =
      let later = build_duplicate_groups records (suc group_id) rest in
      if leb (length indices) 1
      then later
      else add_group (group_of group_id (group_records records indices)) later

  abbrev pub build_clusters :
      List ImageRecord → Option (UnionFind ℕ × List (List ℕ)) → Option (List DuplicateGroup)
  build_clusters records none = none
  build_clusters records (some (uf, groups)) = build_duplicate_groups records 0 groups

  abbrev pub build_of : List ImageRecord → Option (UnionFind ℕ) → Option (List DuplicateGroup)
  build_of records none = none
  build_of records (some uf) = build_clusters records (get_groups uf)

  -- The groups of the records of the images that could be hashed.
  unfoldable pub group_images : List ImageRecord → ℕ → ℕ → Option (List DuplicateGroup)
  group_images records phash_threshold dhash_threshold =
      build_of records (cluster_by_hamming records phash_threshold dhash_threshold)
