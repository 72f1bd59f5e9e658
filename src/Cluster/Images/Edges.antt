-- ===== src/Cluster/Images/Edges.antt =====
-- The pairs of images that the clustering unites, and that it unites no others.
use backhouse_dff.Base.{
  ℕ, zero, suc, ◌+◌, ◌≤◌, ◌<◌, ◌≡◌, refl, ◌↔◌, ◌⊎◌, inl, inr, Bool, true, false, ◌&&◌, Option, none,
  some, List, [], ◌∷◌, ◌++◌, arith, if◌then◌else◌, nat_beq, leb, ltb, nat_key, get_elem?,
  Bool-cases, map, filter,
}
use backhouse_dff.Cluster.UnionFind.{UnionFind, union}
use backhouse_dff.Cluster.UnionFind.Classes.{Edge, unions}
use backhouse_dff.Cluster.Hamming.{hamming_distance}
use backhouse_dff.Cluster.BkTree.{Node}
use backhouse_dff.Cluster.BkTree.Hits.{count}
use backhouse_dff.Cluster.BkTree.Query.{near, add_all}
use backhouse_dff.Cluster.Images.{ImageRecord, link_pair, link_pairs, add_hashes}

-- The hashes with their indices, from an index on.
unfoldable pub indexed : ℕ → List ImageRecord → List (ℕ × ℕ)
indexed k [] = []
indexed k (r ∷ rs) = (r.phash_int, k) ∷ indexed (suc k) rs

pub add_hashes-add_all :
    (k : ℕ) (rs : List ImageRecord) (tree : Option Node)
    → add_hashes k rs tree ≡ add_all tree (indexed k rs)
unfolding add_hashes add_all indexed
add_hashes-add_all k [] tree = refl
add_hashes-add_all k (r ∷ rs) tree = add_hashes-add_all (suc k) rs _

-- The image with an index has a hash near the value.
abbrev pub NearAt : ℕ → ℕ → Option ImageRecord → Type 0
NearAt value limit none = ⊥
NearAt value limit (some r) = hamming_distance value r.phash_int ≤ limit

count-below :
    (value limit k y : ℕ) (rs : List ImageRecord)
    → y < k
    → count y (near value limit (indexed k rs)) ≡ 0
unfolding indexed
count-below value limit k y [] h = refl
count-below value limit k y (r ∷ rs) h =
    let rest = count-below value limit (suc k) y rs (omega arith) in
    elim (Bool-cases (leb (hamming_distance value r.phash_int) limit)) [
      | inl inside ↦ rw inside (ground (arith, rest))
      | inr outside ↦ rw outside rest
    ]

pub count-NearAt :
    (value limit k m : ℕ) (rs : List ImageRecord)
    → (0 < count (k + m) (near value limit (indexed k rs))) ↔ NearAt value limit (get_elem? rs m)
unfolding indexed
count-NearAt value limit k m [] = (λ h. elim h [ ], λ h. absurd h)
count-NearAt value limit k zero (r ∷ rs) =
    let rest = count-below value limit (suc k) (k + 0) rs (omega arith) in
    elim (Bool-cases (leb (hamming_distance value r.phash_int) limit)) [
      | inl inside ↦ rw inside (ground (arith, rest))
      | inr outside ↦ rw outside (ground (arith, rest))
    ]
count-NearAt value limit k (suc m) (r ∷ rs) =
    let next : k + suc m ≡ suc k + m = omega arith in
    let rest = count-NearAt value limit (suc k) m rs in
    let other : nat_beq k (suc k + m) ≡ false = ground arith in
    rw next (elim (Bool-cases (leb (hamming_distance value r.phash_int) limit)) [
      | inl inside ↦
          rw (inside, other) ((λ h. rest.0 (omega (arith, h))), (λ h. omega (arith, rest.1 h)))
      | inr outside ↦ rw outside rest
    ])

pub count-filter :
    (c : ℕ → Bool) (y : ℕ) (js : List ℕ) → count y (filter c js) ≡ (if c y then count y js else 0)
count-filter c y [] = ground arith
count-filter c y (j ∷ js) =
    let rest = count-filter c y js in
    elim (Bool-cases (nat_beq j y)) [
      | inl here ↦ let eq : j ≡ y = ground arith in rw eq (ground (arith, rest))
      | inr there ↦ elim (Bool-cases (c j)) [
        | inl kept ↦ rw kept (ground (arith, rest))
        | inr dropped ↦ rw dropped (ground (arith, rest))
      ]
    ]

pub Edge-append :
    (es fs : List (ℕ × ℕ)) (a b : ℕ) → Edge (es ++ fs) a b ↔ (Edge es a b ⊎ Edge fs a b)
Edge-append [] fs a b = (λ h. inr h, λ h. elim h [ inl n ↦ absurd n | inr f ↦ f ])
Edge-append (e ∷ es) fs a b =
    let rest = Edge-append es fs a b in
    (
      λ h. elim h [
        | inl here ↦ inl (inl here)
        | inr later ↦ elim (rest.0 later) [ inl l ↦ inl (inr l) | inr r ↦ inr r ]
      ],
      λ h. elim h [
        | inl l ↦ elim l [ inl here ↦ inl here | inr later ↦ inr (rest.1 (inl later)) ]
        | inr r ↦ inr (rest.1 (inr r))
      ],
    )

pub Edge-row :
    (i : ℕ) (js : List ℕ) (a b : ℕ) → Edge (map (λ j. (i, j)) js) a b ↔ ((a ≡ i) × (0 < count b js))
Edge-row i [] a b = (λ h. absurd h, λ h. elim h.1 [ ])
Edge-row i (j ∷ js) a b =
    let rest = Edge-row i js a b in
    (
      λ h. elim h [
        | inl here ↦ let eq = here.1 in (here.0, ground arith)
        | inr later ↦ let more = rest.0 later in (more.0, omega (arith, more.1))
      ],
      λ h. elim (Bool-cases (nat_beq j b)) [
        | inl here ↦ let eq : b ≡ j = ground arith in inl (h.0, eq)
        | inr there ↦ let more = h.1 in inr (rest.1 (h.0, ground arith))
      ],
    )

-- The pairs with a later image that one record is united with.
module _ (records : List ImageRecord) (phash_threshold dhash_threshold : ℕ) where
  abbrev pub dhash_near : ImageRecord → Option ImageRecord → Bool
  dhash_near a none = false
  dhash_near a (some b) = leb (hamming_distance a.dhash_int b.dhash_int) dhash_threshold

  abbrev pub passes : ℕ → ImageRecord → ℕ → Bool
  passes i a j = ltb i j && dhash_near a (get_elem? records j)

  abbrev pub row_edges : ℕ → ImageRecord → List ℕ → List (ℕ × ℕ)
  row_edges i a js = map (λ j. (i, j)) (filter (passes i a) js)

  link_pair-passes :
      (i : ℕ) (a : ImageRecord) (j : ℕ) (uf : UnionFind ℕ) (b : ImageRecord)
      → get_elem? records j ≡ some b
      → link_pair records phash_threshold dhash_threshold i a uf j
        ≡ (if passes i a j then union uf i j else some uf)
  unfolding link_pair
  link_pair-passes i a j uf b at = elim (Bool-cases (leb j i)) [
    | inl early ↦ let off : ltb i j ≡ false = ground arith in rw (early, off) refl
    | inr late ↦ let on : ltb i j ≡ true = ground arith in rw (late, on, at) refl
  ]

  pub link_pairs-unions :
      (i : ℕ) (a : ImageRecord) (js : List ℕ) (uf : UnionFind ℕ)
      → ((j : ℕ) → 0 < count j js → (b : ImageRecord) × (get_elem? records j ≡ some b))
      → link_pairs records phash_threshold dhash_threshold i a uf js ≡ unions uf (row_edges i a js)
  unfolding link_pairs unions
  link_pairs-unions i a [] uf valid = refl
  link_pairs-unions i a (j ∷ js) uf valid =
      let b = valid j (ground arith) in
      rw (link_pair-passes i a j uf b.0 b.1, link_pairs)
        (step (passes i a j)
          (λ uf'. link_pairs-unions i a js uf' (λ x h. valid x (omega (arith, h)))))
    where
      rest : List ℕ
      rest = filter (passes i a) js

      go : UnionFind ℕ → Option (UnionFind ℕ)
      go uf' = link_pairs records phash_threshold dhash_threshold i a uf' js

      step :
          (c : Bool)
          → ((uf' : UnionFind ℕ) → go uf' ≡ unions uf' (row_edges i a js))
          → (elim (if c then union uf i j else some uf) [ none ↦ none | some uf' ↦ go uf' ])
            ≡ unions uf (map (λ j. (i, j)) (if c then j ∷ rest else rest))
      step true later = under (union uf i j)
        where
          under :
              (o : Option (UnionFind ℕ))
              → (elim o [ none ↦ none | some uf' ↦ go uf' ])
                ≡ (elim o [ none ↦ none | some uf' ↦ unions uf' (row_edges i a js) ])
          under none = refl
          under (some uf') = later uf'
      step false later = later uf
