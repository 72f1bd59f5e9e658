-- ===== src/Cluster/Tests.antt =====
-- Runs on small inputs.
use backhouse_dff.Base.{ℕ, ◌≡◌, refl, ◌↔◌, some, none, List, [], ◌∷◌, nat_key}
use backhouse_dff.Base.Dict.{lookup, insert}
use backhouse_dff.Cluster.UnionFind.{
  UnionFind, new_union_find, add, add_new, union, find_from, link,
}
use backhouse_dff.Cluster.UnionFind.Labels.{Represents}
use backhouse_dff.Cluster.UnionFind.Classes.{Closure}
use backhouse_dff.Cluster.Hamming.{hamming_distance, hamming_from}
use backhouse_dff.Cluster.BkTree.{query, add_node, walk, push_near, size}
use backhouse_dff.Cluster.BkTree.Hits.{count}
use backhouse_dff.Cluster.BkTree.Query.{add_all, near, query-near}
use backhouse_dff.Cluster.Images.{
  ImageRecord, cluster_by_hamming, add_indices, add_hashes, link_records, link_pairs, link_pair,
}
use backhouse_dff.Cluster.Images.Clusters.{Similar, cluster_by_hamming-Closure}

abbrev ids : ℕ → ℕ
ids x = x

abbrev hashes : List (ℕ × ℕ)
hashes = (5, 0) ∷ (4, 1) ∷ (10, 2) ∷ (7, 3) ∷ (5, 4) ∷ []

abbrev image : ℕ → ℕ → ImageRecord
image ph dh = record {
  path = "p";
  size = 1;
  modified = 7;
  phash_int = ph;
  dhash_int = dh;
  width = 1;
  height = 1;
}

abbrev photos : List ImageRecord
photos = image 0 1 ∷ image 12 1 ∷ image 1 1 ∷ image 3 0 ∷ image 3 9 ∷ []

hamming_distance_run : hamming_distance 5 10 ≡ 4
unfolding hamming_distance hamming_from
hamming_distance_run = refl

query_run : query (add_all none hashes) 5 1 ≡ some (0 ∷ 4 ∷ 1 ∷ 3 ∷ [])
unfolding add_all add_node walk push_near size hamming_distance hamming_from
query_run = refl

query-near_example :
    (found : List ℕ) × (query (add_all none hashes) 5 1 ≡ some found)
    × ((i : ℕ) → count i found ≡ count i (near 5 1 hashes))
query-near_example = query-near hashes 5 1

abbrev two_sets : UnionFind ℕ
two_sets = add_new (add_new new_union_find 1) 2

cluster_by_hamming_run :
    cluster_by_hamming photos 1 1
    ≡ some (record {
      parent = (0, 0) ∷ (1, 1) ∷ (2, 0) ∷ (3, 0) ∷ (4, 0) ∷ [];
      rank = (0, 1) ∷ (1, 0) ∷ (2, 0) ∷ (3, 0) ∷ (4, 0) ∷ [];
      count = 5;
    })
unfolding cluster_by_hamming add_indices add_hashes link_records link_pairs link_pair add_all
    add_node walk push_near size hamming_distance hamming_from add union lookup insert find_from
    link
cluster_by_hamming_run = refl

cluster_by_hamming-Closure_example :
    (uf : UnionFind ℕ) × (label : ℕ → ℕ) × (cluster_by_hamming photos 1 1 ≡ some uf)
    × Represents uf label
    × ((i j : ℕ) → (label i ≡ label j) ↔ Closure (Similar photos 1 1) i j)
cluster_by_hamming-Closure_example = cluster_by_hamming-Closure photos 1 1
