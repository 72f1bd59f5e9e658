-- ===== src/Cluster/Images/Clusters.antt =====
-- The clusters against the pairs of images that are near.
use backhouse_dff.Base.{
  ℕ, suc, ◌+◌, ◌≤◌, ◌<◌, ◌≡◌, refl, ◌∙◌, ◌↔◌, inl, inr, Option, none, some, List, [], ◌∷◌, arith,
  ltb, nat_key, get_elem?, Bool-cases, Option-cases,
}
use backhouse_dff.Base.Dict.{lookup}
use backhouse_dff.Cluster.UnionFind.{UnionFind, new_union_find, add}
use backhouse_dff.Cluster.UnionFind.Labels.{Represents, new_union_find-Represents}
use backhouse_dff.Cluster.UnionFind.Climbs.{add_new-Represents}
use backhouse_dff.Cluster.UnionFind.Classes.{
  Edge, Closure, base, same, back, Related, map_closure, unions-Closure,
}
use backhouse_dff.Cluster.Hamming.{hamming_distance, hamming_distance_symm}
use backhouse_dff.Cluster.Images.{ImageRecord, add_indices, cluster_by_hamming}
use backhouse_dff.Cluster.Images.Rows.{OrderedPair, tree, link_records-unions}

add_indices-Represents :
    (k : ℕ) (rs : List ImageRecord) (uf : UnionFind ℕ)
    → Represents uf (λ x. x)
    → Represents (add_indices k rs uf) (λ x. x)
unfolding add_indices add
add_indices-Represents k [] uf r = r
add_indices-Represents k (a ∷ rs) uf r = elim (Option-cases (lookup k uf.parent)) [
  | inl out ↦
      rw (out, add_indices, add)
        (add_indices-Represents (suc k) rs _ (add_new-Represents (λ x. x) uf k r out))
  | inr known ↦ rw (known.1, add_indices, add) (add_indices-Represents (suc k) rs uf r)
]

-- Near in both hashes.
pub NearBoth : ℕ → ℕ → Option ImageRecord → Option ImageRecord → Type 0
NearBoth phash_threshold dhash_threshold none b = ⊥
NearBoth phash_threshold dhash_threshold (some a) none = ⊥
NearBoth phash_threshold dhash_threshold (some a) (some b) =
    (hamming_distance a.phash_int b.phash_int ≤ phash_threshold)
    × (hamming_distance a.dhash_int b.dhash_int ≤ dhash_threshold)

module _ (records : List ImageRecord) (p d : ℕ) where
  -- The images with two indices are near.
  abbrev pub Similar : ℕ → ℕ → Type 0
  Similar i j = NearBoth p d (get_elem? records i) (get_elem? records j)

  to_pair :
      (i j : ℕ) (oa ob : Option ImageRecord)
      → i < j
      → NearBoth p d oa ob
      → get_elem? records j ≡ ob
      → OrderedPair records p d i j oa
  unfolding NearBoth OrderedPair
  to_pair i j none ob lt h at = absurd h
  to_pair i j (some a) none lt h at = absurd h
  to_pair i j (some a) (some b) lt h at = rw at (ground (arith, h.1), h.0)

  of_pair :
      (i j : ℕ) (oa ob : Option ImageRecord)
      → get_elem? records j ≡ ob
      → OrderedPair records p d i j oa
      → NearBoth p d oa ob
  unfolding NearBoth OrderedPair
  of_pair i j none ob at h = absurd h
  of_pair i j (some a) none at h = absurd (rw at at h).1
  of_pair i j (some a) (some b) at h = let k = rw at at h in (k.1, ground arith)

  NearBoth-symm : (oa ob : Option ImageRecord) → NearBoth p d oa ob → NearBoth p d ob oa
  unfolding NearBoth
  NearBoth-symm none ob h = absurd h
  NearBoth-symm (some a) none h = absurd h
  NearBoth-symm (some a) (some b) h = (
    omega (arith, h.0, hamming_distance_symm a.phash_int b.phash_int),
    omega (arith, h.1, hamming_distance_symm a.dhash_int b.dhash_int),
  )

  to_Similar :
      (es : List (ℕ × ℕ))
      → ((x y : ℕ)
          → Edge es x y
            ↔ ((m : ℕ) × (x ≡ 0 + m) × OrderedPair records p d x y (get_elem? records m)))
      → (i j : ℕ) → Related (λ x. x) es i j
      → Closure Similar i j
  to_Similar es h i j (inl eq) = same eq
  to_Similar es h i j (inr e) =
      let (m, at, pair) = (h i j).0 e in
      let eq : m ≡ i = omega (arith, at) in
      let pair' = rw eq at pair in
      base (of_pair i j (get_elem? records i) (get_elem? records j) refl pair')

  of_Similar :
      (es : List (ℕ × ℕ))
      → ((x y : ℕ)
          → Edge es x y
            ↔ ((m : ℕ) × (x ≡ 0 + m) × OrderedPair records p d x y (get_elem? records m)))
      → (i j : ℕ) → Similar i j
      → Closure (Related (λ x. x) es) i j
  of_Similar es h i j s = elim (Bool-cases (ltb i j)) [
    | inl lt ↦ base (inr ((h i j).1 (i, omega arith, to_pair i j _ _ (ground arith) s refl)))
    | inr ge ↦ elim (Bool-cases (ltb j i)) [
      | inl gt ↦ back (
          base (
            inr (
              (h j i).1
                (j, omega arith, to_pair j i _ _ (ground arith) (NearBoth-symm _ _ s) refl))))
      | inr le ↦ let eq : i ≡ j = ground arith in same eq
    ]
  ]

  -- The clustering ends without an error, and puts two images in one set exactly when a chain of
  -- images leads from one to the other in which neighbours are near in both hashes.
  pub cluster_by_hamming-Closure :
      (uf : UnionFind ℕ) × (label : ℕ → ℕ) × (cluster_by_hamming records p d ≡ some uf)
      × Represents uf label
      × ((i j : ℕ) → (label i ≡ label j) ↔ Closure Similar i j)
  unfolding cluster_by_hamming tree
  cluster_by_hamming-Closure =
      let all = link_records-unions records p d 0 records in
      let start = add_indices 0 records new_union_find in
      let r = add_indices-Represents 0 records new_union_find new_union_find-Represents in
      let united = unions-Closure all.0 start (λ x. x) r in
      (
        united.0,
        united.1,
        all.1 start ∙ united.2,
        united.3,
        λ i j. (
          λ h. map_closure (to_Similar all.0 all.2) i j ((united.4 i j).0 h),
          λ c. (united.4 i j).1 (map_closure (of_Similar all.0 all.2) i j c),
        ),
      )
