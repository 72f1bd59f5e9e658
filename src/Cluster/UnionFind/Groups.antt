-- ===== src/Cluster/UnionFind/Groups.antt =====
-- `get_groups`: the groups of a structure against its labels.
use backhouse_dff.Base.{
  suc, ◌≡◌, refl, sym, ap, ◌∙◌, inl, inr, Bool, true, false, some, List, [], ◌∷◌, ◌++◌, arith,
  if◌then◌else◌, filter, KeyEq, ◌==◌, Bool-cases,
}
use mathlib.Core.List.{append_assoc, append-nil}
use backhouse_dff.Base.Dict.{lookup, lookup-insert, keys, values}
use backhouse_dff.Cluster.UnionFind.{
  UnionFind, max_rank, members, push, collect, group_lists, get_groups,
}
use backhouse_dff.Cluster.UnionFind.Labels.{Represents}
use backhouse_dff.Cluster.UnionFind.Climbs.{find_from-Found}

module _ {K : Type 0} ⦃e : KeyEq K⦄ (label : K → K) where
  -- The dict of the groups, by the labels alone.
  unfoldable pub classes : List K → List (K × List K) → List (K × List K)
  classes [] groups = groups
  classes (x ∷ xs) groups = classes xs (push (label x) x groups)

  collect_lem :
      (xs : List K) (uf : UnionFind K) (groups : List (K × List K))
      → Represents uf label
      → (uf' : UnionFind K) × (collect xs uf groups ≡ some (uf', classes xs groups))
        × Represents uf' label
  unfolding collect classes
  collect_lem [] uf groups r = (uf, refl, r)
  collect_lem (x ∷ xs) uf groups r =
      let one = find_from-Found label (suc (max_rank uf.rank)) uf x r (omega arith) in
      let rest = collect_lem xs one.0 (push (label x) x groups) one.2.represents in
      (rest.0, rw (one.1, collect) rest.1, rest.2)

  members-push :
      (root x r : K) (groups : List (K × List K))
      → members r (push root x groups)
        ≡ (if root == r then members r groups ++ x ∷ [] else members r groups)
  unfolding push
  members-push root x r groups = elim (Bool-cases (root == r)) [
    | inl here ↦
        rw (lookup-insert root r (members root groups ++ x ∷ []) groups, members)
          (rw here (ap (λ k. members k groups ++ x ∷ []) ((e.eqb_iff root r).0 here)))
    | inr there ↦
        rw (lookup-insert root r (members root groups ++ x ∷ []) groups, members) (rw there refl)
  ]

  -- The labels of `x` come first.
  members-classes :
      (xs : List K) (groups : List (K × List K)) (r : K)
      → members r (classes xs groups) ≡ members r groups ++ filter (λ x. label x == r) xs
  unfolding classes
  members-classes [] groups r = sym (append-nil (members r groups))
  members-classes (x ∷ xs) groups r =
      members-classes xs (push (label x) x groups) r
      ∙ step (label x == r) (members-push (label x) x r groups)
    where
      rest : List K
      rest = filter (λ x. label x == r) xs

      step :
          (b : Bool)
          → members r (push (label x) x groups)
            ≡ (if b then members r groups ++ x ∷ [] else members r groups)
          → members r (push (label x) x groups) ++ rest
            ≡ members r groups ++ (if b then x ∷ rest else rest)
      step true h = rw h (append_assoc (members r groups) (x ∷ []) rest)
      step false h = rw h refl

  pub get_groups-classes :
      (uf : UnionFind K)
      → Represents uf label
      → (uf' : UnionFind K) × (get_groups uf ≡ some (uf', values (classes (keys uf.parent) [])))
  unfolding get_groups
  get_groups-classes uf r =
      let all = collect_lem (keys uf.parent) uf [] r in (all.0, ap group_lists all.1)

  -- On a structure that represents labels, `get_groups` ends without a KeyError, leaves the sets as
  -- they are, and its groups are the values of a dict which has at each root exactly the elements
  -- of the root's set, in the order in which they were added.
  pub get_groups-members :
      (uf : UnionFind K)
      → Represents uf label
      → (uf' : UnionFind K) × (groups : List (K × List K)) × (get_groups uf
          ≡ some (uf', values groups))
        × Represents uf' label
        × ((r : K) → members r groups ≡ filter (λ x. label x == r) (keys uf.parent))
  unfolding get_groups lookup
  get_groups-members uf r =
      let all = collect_lem (keys uf.parent) uf [] r in
      (
        all.0,
        classes (keys uf.parent) [],
        ap group_lists all.1,
        all.2,
        λ root. members-classes (keys uf.parent) [] root,
      )
