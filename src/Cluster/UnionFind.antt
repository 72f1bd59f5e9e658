-- ===== src/Cluster/UnionFind.antt =====
-- cerebro/engines/image_formats.py, `UnionFind`: disjoint sets in two dicts. `none` is a KeyError,
-- or that the fuel of `find` ran out: the fuel is one more than the largest rank, and each step up
-- the tree raises the rank.
pub mod Labels
pub mod Climbs
pub mod Merges
pub mod Links
pub mod Classes
pub mod Groups
use backhouse_dff.Base.{
  ℕ, zero, suc, max, Bool, true, false, Option, none, some, List, [], ◌∷◌, ◌++◌, if◌then◌else◌, ltb,
  KeyEq, ◌==◌,
}
use backhouse_dff.Base.Dict.{insert, lookup, keys, values}

pub record UnionFind {ℓ} (K : Type ℓ) : Type ℓ where
  pub parent : List (K × K)
  pub rank : List (K × ℕ)
  pub count : ℕ

abbrev pub new_union_find {ℓ} : {K : Type ℓ} → UnionFind K
new_union_find = record { parent = []; rank = []; count = 0 }

-- The largest rank.
abbrev pub max_rank {ℓ} : {K : Type ℓ} → List (K × ℕ) → ℕ
max_rank [] = 0
max_rank (entry ∷ rest) = max entry.1 (max_rank rest)

module _ {ℓ} {K : Type ℓ} ⦃e : KeyEq K⦄ where
  abbrev pub add_new : UnionFind K → K → UnionFind K
  add_new uf x = record {
    parent = insert x x uf.parent;
    rank = insert x 0 uf.rank;
    count = suc uf.count;
  }

  unfoldable pub add : UnionFind K → K → UnionFind K
  add uf x = elim (lookup x uf.parent) [ none ↦ add_new uf x | some _ ↦ uf ]

  -- `self.parent[x] = r`, and `r` as the result.
  abbrev pub compress : K → Option (UnionFind K × K) → Option (UnionFind K × K)
  compress x none = none
  compress x (some (uf, r)) = some (record uf { parent = insert x r uf.parent }, r)

  unfoldable pub find_from : ℕ → UnionFind K → K → Option (UnionFind K × K)
  find_from zero uf x = none
  find_from (suc fuel) uf x = elim (lookup x uf.parent) [
    | none ↦ some (add_new uf x, x)
    | some p ↦
        let climb = compress x (find_from fuel uf p) in if p == x then some (uf, p) else climb
  ]

  abbrev pub find : UnionFind K → K → Option (UnionFind K × K)
  find uf x = find_from (suc (max_rank uf.rank)) uf x

  -- Union by rank, of two roots.
  abbrev pub link_ranks : UnionFind K → K → K → Option ℕ → Option ℕ → Option (UnionFind K)
  link_ranks uf root_x root_y none b = none
  link_ranks uf root_x root_y (some a) none = none
  link_ranks uf root_x root_y (some a) (some b) = some (
      if ltb a b
      then record uf { parent = insert root_x root_y uf.parent }
      else if ltb b a
      then record uf { parent = insert root_y root_x uf.parent }
      else record uf {
        parent = insert root_y root_x uf.parent;
        rank = insert root_x (suc a) uf.rank;
      })

  unfoldable pub link : UnionFind K → K → K → Option (UnionFind K)
  link uf root_x root_y =
      if root_x == root_y
      then some uf
      else link_ranks uf root_x root_y (lookup root_x uf.rank) (lookup root_y uf.rank)

  abbrev pub link_second : K → Option (UnionFind K × K) → Option (UnionFind K)
  link_second root_x none = none
  link_second root_x (some (uf, root_y)) = link uf root_x root_y

  abbrev pub link_first : K → Option (UnionFind K × K) → Option (UnionFind K)
  link_first y none = none
  link_first y (some (uf, root_x)) = link_second root_x (find uf y)

  unfoldable pub union : UnionFind K → K → K → Option (UnionFind K)
  union uf x y = link_first y (find uf x)

  -- `groups[root].append(x)`, with a new list where there is none.
  abbrev pub members : K → List (K × List K) → List K
  members root groups = elim (lookup root groups) [ none ↦ [] | some xs ↦ xs ]

  unfoldable pub push : K → K → List (K × List K) → List (K × List K)
  push root x groups = insert root (members root groups ++ x ∷ []) groups

  unfoldable pub collect :
      List K → UnionFind K → List (K × List K) → Option (UnionFind K × List (K × List K))
  collect [] uf groups = some (uf, groups)
  collect (x ∷ xs) uf groups = elim (find uf x) [
    | none ↦ none
    | some (uf', root) ↦ collect xs uf' (push root x groups)
  ]

  abbrev pub group_lists :
      Option (UnionFind K × List (K × List K)) → Option (UnionFind K × List (List K))
  group_lists none = none
  group_lists (some (uf, groups)) = some (uf, values groups)

  unfoldable pub get_groups : UnionFind K → Option (UnionFind K × List (List K))
  get_groups uf = group_lists (collect (keys uf.parent) uf [])
