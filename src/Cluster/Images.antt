-- ===== src/Cluster/Images.antt =====
-- cerebro/engines/image_dedup_engine.py, `_cluster_by_hamming`. `none` is an IndexError or a
-- KeyError, or that the fuel of `find` or of `query` ran out.
pub mod Edges
pub mod Rows
pub mod Clusters
pub mod Grouping
pub mod Keepers
pub mod Ranges
pub mod Grouped
mod Tests
use backhouse_dff.Base.{
  ℕ, zero, suc, String, Option, none, some, List, [], ◌∷◌, if◌then◌else◌, leb, nat_key, get_elem?,
  length,
}
use backhouse_dff.Cluster.UnionFind.{UnionFind, new_union_find, add, union}
use backhouse_dff.Cluster.Hamming.{hamming_distance}
use backhouse_dff.Cluster.BkTree.{Node, query}
use backhouse_dff.Cluster.BkTree as BkTree

-- A record of a hashed image; the texts of the hashes are left out.
pub record ImageRecord : Type 0 where
  pub path : String
  pub size : ℕ
  pub modified : ℕ
  pub phash_int : ℕ
  pub dhash_int : ℕ
  pub width : ℕ
  pub height : ℕ

-- `for idx in range(...): uf.add(idx)`, from an index on.
unfoldable pub add_indices : ℕ → List ImageRecord → UnionFind ℕ → UnionFind ℕ
add_indices idx [] uf = uf
add_indices idx (record_ ∷ rest) uf = add_indices (suc idx) rest (add uf idx)

unfoldable pub add_hashes : ℕ → List ImageRecord → Option Node → Option Node
add_hashes i [] tree = tree
add_hashes i (r ∷ rest) tree = add_hashes (suc i) rest (BkTree.add tree r.phash_int i)

module _ (records : List ImageRecord) (phash_threshold dhash_threshold : ℕ) where
  -- The body of the inner loop.
  unfoldable pub link_pair : ℕ → ImageRecord → UnionFind ℕ → ℕ → Option (UnionFind ℕ)
  link_pair i a uf j = if leb j i then some uf else elim (get_elem? records j) [
    | none ↦ none
    | some b ↦
        if leb (hamming_distance a.dhash_int b.dhash_int) dhash_threshold
        then union uf i j
        else some uf
  ]

  unfoldable pub link_pairs : ℕ → ImageRecord → UnionFind ℕ → List ℕ → Option (UnionFind ℕ)
  link_pairs i a uf [] = some uf
  link_pairs i a uf (j ∷ js) = elim (link_pair i a uf j) [
    | none ↦ none
    | some uf' ↦ link_pairs i a uf' js
  ]

  -- The pairs of one record with all that the tree finds.
  abbrev pub link_record : Option Node → ℕ → ImageRecord → UnionFind ℕ → Option (UnionFind ℕ)
  link_record tree i a uf = elim (query tree a.phash_int phash_threshold) [
    | none ↦ none
    | some js ↦ link_pairs i a uf js
  ]

  unfoldable pub link_records :
      Option Node → ℕ → List ImageRecord → UnionFind ℕ → Option (UnionFind ℕ)
  link_records tree i [] uf = some uf
  link_records tree i (a ∷ rest) uf = elim (link_record tree i a uf) [
    | none ↦ none
    | some uf' ↦ link_records tree (suc i) rest uf'
  ]

  unfoldable pub cluster_by_hamming : Option (UnionFind ℕ)
  cluster_by_hamming =
      link_records (add_hashes 0 records none) 0 records (add_indices 0 records new_union_find)
