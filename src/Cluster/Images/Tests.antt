-- ===== src/Cluster/Images/Tests.antt =====
-- A run of the grouping on small inputs.
use backhouse_dff.Base.{ℕ, ◌≡◌, refl, String, Option, none, some, List, [], ◌∷◌, map}
use backhouse_dff.Base.Dict.{insert, lookup}
use backhouse_dff.Engine.{DuplicateGroup, post_init, keeper_size}
use backhouse_dff.Cluster.UnionFind.{add, union, find_from, link, get_groups, collect, push}
use backhouse_dff.Cluster.Hamming.{hamming_distance, hamming_from}
use backhouse_dff.Cluster.BkTree.{walk, push_near, size, add_node}
use backhouse_dff.Cluster.Images.{
  ImageRecord, cluster_by_hamming, add_indices, add_hashes, link_records, link_pairs, link_pair,
}
use backhouse_dff.Cluster.Images.Grouping.{group_images, build_duplicate_groups, max_record}

abbrev photo : String → ℕ → ℕ → ImageRecord
photo path ph width = record {
  path = path;
  size = 9;
  modified = 7;
  phash_int = ph;
  dhash_int = 0;
  width = width;
  height = 10;
}

abbrev photos : List ImageRecord
photos = photo "a" 0 10 ∷ photo "b" 12 10 ∷ photo "c" 1 20 ∷ photo "d" 3 15 ∷ []

abbrev suffix : String → String
suffix path = ".jpg"

abbrev resolution : ℕ → ℕ → String
resolution w h = "w×h"

shown : Option (List DuplicateGroup) → List (List (String × ℕ))
shown none = []
shown (some gs) = map (λ g. map (λ f. (f.path, f.similarity)) g.files) gs

group_images_run :
    shown (group_images suffix resolution photos 1 1)
    ≡ (("a", 127) ∷ ("c", 128) ∷ ("d", 127) ∷ []) ∷ []
unfolding shown group_images build_duplicate_groups max_record post_init keeper_size get_groups
    collect push cluster_by_hamming add_indices add_hashes link_records link_pairs link_pair
    add_node walk push_near size hamming_distance hamming_from add union lookup insert find_from
    link
group_images_run = refl
