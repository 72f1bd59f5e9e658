-- ===== src/Cluster/Images/Rows.antt =====
-- The loops of the clustering as unions of a list of pairs.
use backhouse_dff.Base.{
  ℕ, zero, suc, ◌+◌, ◌<◌, ◌≡◌, refl, sym, ◌∙◌, ◌↔◌, ◌⊎◌, inl, inr, true, Option, none, some, List,
  [], ◌∷◌, ◌++◌, arith, nat_key, get_elem?, Bool-cases, filter,
}
use backhouse_dff.Cluster.UnionFind.{UnionFind}
use backhouse_dff.Cluster.UnionFind.Classes.{Edge, unions, unions-append}
use backhouse_dff.Cluster.BkTree.{Node}
use backhouse_dff.Cluster.BkTree.Hits.{count}
use backhouse_dff.Cluster.BkTree.Query.{near, query-near}
use backhouse_dff.Cluster.Images.{ImageRecord, link_record, link_records, add_hashes}
use backhouse_dff.Cluster.Images.Edges.{
  indexed, add_hashes-add_all, NearAt, count-NearAt, passes, row_edges, Edge-append, Edge-row,
  count-filter, link_pairs-unions,
}

pub NearAt-some :
    (value limit : ℕ) (o : Option ImageRecord)
    → NearAt value limit o
    → (b : ImageRecord) × (o ≡ some b)
NearAt-some value limit none h = absurd h
NearAt-some value limit (some b) h = (b, refl)

module _ (records : List ImageRecord) (phash_threshold dhash_threshold : ℕ) where
  -- Near in both hashes, and in this order.
  unfoldable pub OrderedPair : ℕ → ℕ → Option ImageRecord → Type 0
  OrderedPair x y none = ⊥
  OrderedPair x y (some a) =
      (passes records phash_threshold dhash_threshold x a y ≡ true)
      × NearAt a.phash_int phash_threshold (get_elem? records y)

  row_edges-Edge :
      (k : ℕ) (a : ImageRecord) (js : List ℕ)
      → ((i : ℕ) → count i js ≡ count i (near a.phash_int phash_threshold (indexed 0 records)))
      → (x y : ℕ)
      → Edge (row_edges records phash_threshold dhash_threshold k a js) x y
        ↔ ((x ≡ k) × OrderedPair x y (some a))
  unfolding OrderedPair
  row_edges-Edge k a js same_counts x y =
      let c = passes records phash_threshold dhash_threshold k a in
      let row = Edge-row k (filter c js) x y in
      let counted = count-filter c y js in
      let near_y = count-NearAt a.phash_int phash_threshold 0 y records in
      let zero_y : 0 + y ≡ y = omega arith in
      let near_y' = rw zero_y at near_y in
      elim (Bool-cases (c y)) [
        | inl on ↦ (
          λ h.
              let r = row.0 h in
              (r.0, (rw r.0 on, near_y'.0 (ground (arith, r.1, counted, same_counts y, on)))),
          λ h. row.1 (h.0, ground (arith, near_y'.1 h.1.1, counted, same_counts y, on)),
        )
        | inr off ↦ (
          λ h. let r = row.0 h in absurd (ground (arith, r.1, counted, off)),
          λ h. absurd (ground arith),
        )
      ]

  unfoldable pub tree : Option Node
  tree = add_hashes 0 records none

  -- One record: the pairs that are united.
  link_record-unions :
      (k : ℕ) (a : ImageRecord)
      → (es : List (ℕ × ℕ)) × ((uf : UnionFind ℕ)
          → link_record records phash_threshold dhash_threshold tree k a uf ≡ unions uf es)
        × ((x y : ℕ) → Edge es x y ↔ ((x ≡ k) × OrderedPair x y (some a)))
  unfolding tree
  link_record-unions k a =
      let hashes = indexed 0 records in
      let found = query-near hashes a.phash_int phash_threshold in
      let valid : (j : ℕ)
          → 0 < count j found.0
          → (b : ImageRecord) × (get_elem? records j ≡ some b) =
        λ j h.
          let at_j = count-NearAt a.phash_int phash_threshold 0 j records in
          let zero_j : 0 + j ≡ j = omega arith in
          NearAt-some a.phash_int phash_threshold (get_elem? records j)
            ((rw zero_j at at_j).0 (omega (arith, h, found.2 j))) in
      (
        row_edges records phash_threshold dhash_threshold k a found.0,
        λ uf.
            rw (add_hashes-add_all 0 records none, found.1, link_record)
              (link_pairs-unions records phash_threshold dhash_threshold k a found.0 uf valid),
        row_edges-Edge k a found.0 found.2,
      )

  after :
      {f g : UnionFind ℕ → Option (UnionFind ℕ)} (o : Option (UnionFind ℕ))
      → ((uf : UnionFind ℕ) → f uf ≡ g uf)
      → (elim o as (λ _. Option (UnionFind ℕ)) [ none ↦ none | some uf ↦ f uf ])
        ≡ (elim o as (λ _. Option (UnionFind ℕ)) [ none ↦ none | some uf ↦ g uf ])
  after none h = refl
  after (some uf) h = h uf

  -- The first record, or a later one.
  split :
      {P Q : Type 0} (k : ℕ) (a : ImageRecord) (rest : List ImageRecord) (x y : ℕ)
      → ((m : ℕ) × (x ≡ k + m) × OrderedPair x y (get_elem? (a ∷ rest) m))
      → ((x ≡ k) × OrderedPair x y (some a) → P)
      → ((m : ℕ) × (x ≡ suc k + m) × OrderedPair x y (get_elem? rest m) → Q)
      → P ⊎ Q
  split k a rest x y (zero, at, h) now later = inl (now (omega (arith, at), h))
  split k a rest x y (suc m, at, h) now later = inr (later (m, omega (arith, at), h))

  -- All records from an index on.
  pub link_records-unions :
      (k : ℕ) (rest : List ImageRecord)
      → (es : List (ℕ × ℕ)) × ((uf : UnionFind ℕ)
          → link_records records phash_threshold dhash_threshold tree k rest uf ≡ unions uf es)
        × ((x y : ℕ) → Edge es x y ↔ ((m : ℕ) × (x ≡ k + m) × OrderedPair x y (get_elem? rest m)))
  unfolding link_records unions OrderedPair
  link_records-unions k [] = ([], λ uf. refl, λ x y. (λ h. absurd h, λ h. absurd h.2))
  link_records-unions k (a ∷ rest) =
      let one = link_record-unions k a in
      let more = link_records-unions (suc k) rest in
      (
        one.0 ++ more.0,
        λ uf.
            rw (one.1 uf, link_records)
              (after (unions uf one.0) more.1 ∙ sym (unions-append one.0 more.0 uf)),
        λ x y. (
          λ h. elim ((Edge-append one.0 more.0 x y).0 h) [
            | inl now ↦ let p = (one.2 x y).0 now in (0, omega (arith, p.0), p.1)
            | inr later ↦ let p = (more.2 x y).0 later in (suc p.0, omega (arith, p.1), p.2)
          ],
          λ h. (Edge-append one.0 more.0 x y).1 (split k a rest x y h (one.2 x y).1 (more.2 x y).1),
        ),
      )
