-- ===== src/Cluster/Images/Ranges.antt =====
-- The elements of a union-find structure that a property holds of, and the indices of images.
use backhouse_dff.Base.{
  ℕ, zero, suc, ◌≡◌, inl, inr, Option, none, some, List, [], ◌∷◌, arith, All, KeyEq, ◌==◌, nat_key,
  ltb, Bool-cases, Option-cases, some-inj,
}
use backhouse_dff.Base.Dict.{insert, lookup, keys}
use backhouse_dff.Cluster.UnionFind.{
  UnionFind, max_rank, add, compress, find_from, find, link_ranks, link, link_second, link_first,
  union,
}

module _ {K : Type 0} ⦃e : KeyEq K⦄ (P : K → Type 0) where
  -- The property holds of every element and of what it points to.
  abbrev pub Within : UnionFind K → Type 0
  Within uf = All (λ entry. P entry.0 × P entry.1) uf.parent

  insert-Within :
      (k v : K) (d : List (K × K))
      → P k
      → P v
      → All (λ entry. P entry.0 × P entry.1) d
      → All (λ entry. P entry.0 × P entry.1) (insert k v d)
  unfolding insert
  insert-Within k v [] p q h = ((p, q), tt)
  insert-Within k v (entry ∷ d) p q h = elim (Bool-cases (entry.0 == k)) [
    | inl here ↦ rw here ((h.0.0, q), h.1)
    | inr there ↦ rw there (h.0, insert-Within k v d p q h.1)
  ]

  lookup-Within :
      (k v : K) (d : List (K × K))
      → All (λ entry. P entry.0 × P entry.1) d
      → lookup k d ≡ some v
      → P v
  unfolding lookup
  lookup-Within k v [] h found = ground (arith, found)
  lookup-Within k v (entry ∷ d) h found = elim (Bool-cases (entry.0 == k)) [
    | inl here ↦ rw⁻¹ (some-inj (rw here at found)) h.0.1
    | inr there ↦ lookup-Within k v d h.1 (rw there at found)
  ]

  abbrev FindWithin : Option (UnionFind K × K) → Type 0
  FindWithin none = Unit
  FindWithin (some (uf, r)) = Within uf × P r

  compress-Within :
      (x : K) (o : Option (UnionFind K × K)) → P x → FindWithin o → FindWithin (compress x o)
  compress-Within x none p h = tt
  compress-Within x (some (uf, r)) p h = (insert-Within x r uf.parent p h.1 h.0, h.1)

  find_from-Within :
      (fuel : ℕ) (uf : UnionFind K) (x : K) → Within uf → P x → FindWithin (find_from fuel uf x)
  unfolding find_from
  find_from-Within zero uf x h p = tt
  find_from-Within (suc fuel) uf x h p = elim (Option-cases (lookup x uf.parent)) [
    | inl out ↦ rw (out, find_from) (insert-Within x x uf.parent p p h, p)
    | inr (q, inside) ↦
        let pq = lookup-Within x q uf.parent h inside in
        elim (Bool-cases (q == x)) [
          | inl top ↦ rw (inside, find_from) (rw top (h, pq))
          | inr below ↦
              rw (inside, find_from)
                (rw below
                  (compress-Within x (find_from fuel uf q) p (find_from-Within fuel uf q h pq)))
        ]
  ]

  abbrev pub UnionWithin : Option (UnionFind K) → Type 0
  UnionWithin none = Unit
  UnionWithin (some uf) = Within uf

  link_ranks-Within :
      (uf : UnionFind K) (x y : K) (a b : Option ℕ)
      → Within uf
      → P x
      → P y
      → UnionWithin (link_ranks uf x y a b)
  link_ranks-Within uf x y none b h p q = tt
  link_ranks-Within uf x y (some a) none h p q = tt
  link_ranks-Within uf x y (some a) (some b) h p q = elim (Bool-cases (ltb a b)) [
    | inl less ↦ rw less (insert-Within x y uf.parent p q h)
    | inr not_less ↦ elim (Bool-cases (ltb b a)) [
      | inl more ↦ rw (not_less, more) (insert-Within y x uf.parent q p h)
      | inr equal ↦ rw (not_less, equal) (insert-Within y x uf.parent q p h)
    ]
  ]

  link-Within : (uf : UnionFind K) (x y : K) → Within uf → P x → P y → UnionWithin (link uf x y)
  unfolding link
  link-Within uf x y h p q = elim (Bool-cases (x == y)) [
    | inl same ↦ rw same h
    | inr apart ↦ rw apart (link_ranks-Within uf x y (lookup x uf.rank) (lookup y uf.rank) h p q)
  ]

  link_second-Within :
      (x : K) (o : Option (UnionFind K × K)) → P x → FindWithin o → UnionWithin (link_second x o)
  link_second-Within x none p h = tt
  link_second-Within x (some (uf, y)) p h = link-Within uf x y h.0 p h.1

  link_first-Within :
      (y : K) (o : Option (UnionFind K × K)) → P y → FindWithin o → UnionWithin (link_first y o)
  link_first-Within y none p h = tt
  link_first-Within y (some (uf, x)) p h =
      link_second-Within x (find uf y) h.1 (find_from-Within (suc (max_rank uf.rank)) uf y h.0 p)

  pub union-Within :
      (uf : UnionFind K) (x y : K) → Within uf → P x → P y → UnionWithin (union uf x y)
  unfolding union
  union-Within uf x y h p q =
      link_first-Within y (find uf x) q (find_from-Within (suc (max_rank uf.rank)) uf x h p)

  pub add-Within : (uf : UnionFind K) (x : K) → Within uf → P x → Within (add uf x)
  unfolding add
  add-Within uf x h p = elim (Option-cases (lookup x uf.parent)) [
    | inl out ↦ rw (out, add) (insert-Within x x uf.parent p p h)
    | inr known ↦ rw (known.1, add) h
  ]

  pub Within-keys : (d : List (K × K)) → All (λ entry. P entry.0 × P entry.1) d → All P (keys d)
  Within-keys [] h = tt
  Within-keys (entry ∷ d) h = (h.0.0, Within-keys d h.1)
