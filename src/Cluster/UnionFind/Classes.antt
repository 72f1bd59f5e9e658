-- ===== src/Cluster/UnionFind/Classes.antt =====
-- Many unions, and the groups that are read off in the end.
use backhouse_dff.Base.{
  ◌≡◌, refl, sym, ap, ◌∙◌, ◌↔◌, ◌⊎◌, inl, inr, Option, none, some, List, [], ◌∷◌, ◌++◌, KeyEq,
}
use backhouse_dff.Cluster.UnionFind.{UnionFind, union}
use backhouse_dff.Cluster.UnionFind.Labels.{Represents}
use backhouse_dff.Cluster.UnionFind.Merges.{Joined}
use backhouse_dff.Cluster.UnionFind.Links.{union-Unites}

-- The least equivalence relation above a relation.
pub data Closure {K : Type 0} (R : K → K → Type 0) : K → K → Type 0 where
  base : {a b : K} → R a b → Closure R a b
  same : {a b : K} → a ≡ b → Closure R a b
  back : {a b : K} → Closure R b a → Closure R a b
  chain : {a b c : K} → Closure R a b → Closure R b c → Closure R a c

-- The pair is one of the list.
abbrev pub Edge : {K : Type 0} → List (K × K) → K → K → Type 0
Edge [] a b = ⊥
Edge (e ∷ es) a b = ((a ≡ e.0) × (b ≡ e.1)) ⊎ Edge es a b

-- In one set before, or a pair of the list.
abbrev pub Related : {K : Type 0} → (K → K) → List (K × K) → K → K → Type 0
Related label es a b = (label a ≡ label b) ⊎ Edge es a b

pub map_closure :
    {K : Type 0} {R S : K → K → Type 0}
    → ((a b : K) → R a b → Closure S a b)
    → (a b : K) → Closure R a b
    → Closure S a b
map_closure f a b (base r) = f a b r
map_closure f a b (same p) = same p
map_closure f a b (back c) = back (map_closure f b a c)
map_closure f a b (chain {b = m} c d) = chain (map_closure f a m c) (map_closure f m b d)

-- An equation of values of a function holds along its closure.
closed :
    {K : Type 0} (R : K → K → Type 0) (label : K → K)
    → ((a b : K) → R a b → label a ≡ label b)
    → (a b : K) → Closure R a b
    → label a ≡ label b
closed R label f a b (base r) = f a b r
closed R label f a b (same p) = ap label p
closed R label f a b (back c) = sym (closed R label f b a c)
closed R label f a b (chain {b = m} c d) = closed R label f a m c ∙ closed R label f m b d

module _ {K : Type 0} ⦃e : KeyEq K⦄ where
  -- The unions of a list of pairs, one after the other.
  unfoldable pub unions : UnionFind K → List (K × K) → Option (UnionFind K)
  unions uf [] = some uf
  unions uf (edge ∷ edges) = elim (union uf edge.0 edge.1) [
    | none ↦ none
    | some uf' ↦ unions uf' edges
  ]

  pub unions-append :
      (es fs : List (K × K)) (uf : UnionFind K)
      → unions uf (es ++ fs) ≡ (elim (unions uf es) as (λ _. Option (UnionFind K)) [
        | none ↦ none
        | some uf' ↦ unions uf' fs
      ])
  unfolding unions
  unions-append [] fs uf = refl
  unions-append (edge ∷ es) fs uf = under (union uf edge.0 edge.1) (λ uf'. unions-append es fs uf')
    where
      under :
          (o : Option (UnionFind K))
          → ((uf' : UnionFind K)
              → unions uf' (es ++ fs) ≡ (elim (unions uf' es) as (λ _. Option (UnionFind K)) [
                | none ↦ none
                | some last ↦ unions last fs
              ]))
          → (elim o as (λ _. Option (UnionFind K)) [
            | none ↦ none
            | some uf' ↦ unions uf' (es ++ fs)
          ])
            ≡ (elim (elim o as (λ _. Option (UnionFind K)) [
              | none ↦ none
              | some uf' ↦ unions uf' es
            ])
                as (λ _. Option (UnionFind K)) [ none ↦ none | some last ↦ unions last fs ])
      under none h = refl
      under (some uf') h = h uf'

  -- A union adds exactly its pair.
  Joined-Related :
      (label label' : K → K) (edge : K × K) (edges : List (K × K))
      → Joined label edge.0 edge.1 label'
      → (a b : K) → Related label' edges a b
      → Closure (Related label (edge ∷ edges)) a b
  Joined-Related label label' edge edges j a b (inr old) = base (inr (inr old))
  Joined-Related label label' edge edges j a b (inl h) =
      let pair : Closure (Related label (edge ∷ edges)) edge.0 edge.1 =
        base (inr (inl (refl, refl))) in
      elim (j.finest a b h) [
        | inl old ↦ base (inl old)
        | inr new ↦ elim new [
          | inl ab ↦ chain (base (inl ab.0)) (chain pair (back (base (inl ab.1))))
          | inr ba ↦ chain (base (inl ba.0)) (chain (back pair) (back (base (inl ba.1))))
        ]
      ]

  Joined-Closure :
      (label label' : K → K) (edge : K × K) (edges : List (K × K))
      → Joined label edge.0 edge.1 label'
      → (a b : K) → Related label (edge ∷ edges) a b
      → Closure (Related label' edges) a b
  Joined-Closure label label' edge edges j a b (inl old) = base (inl (j.coarser a b old))
  Joined-Closure label label' edge edges j a b (inr (inl ab)) =
      base (inl (ap label' ab.0 ∙ j.joins ∙ sym (ap label' ab.1)))
  Joined-Closure label label' edge edges j a b (inr (inr old)) = base (inr old)

  -- The unions of a list of pairs end without a KeyError, and two elements are in one set
  -- afterwards exactly when a chain of the pairs and of the sets before leads from one to the
  -- other.
  pub unions-Closure :
      (edges : List (K × K)) (uf : UnionFind K) (label : K → K)
      → Represents uf label
      → (uf' : UnionFind K) × (label' : K → K) × (unions uf edges ≡ some uf')
        × Represents uf' label'
        × ((a b : K) → (label' a ≡ label' b) ↔ Closure (Related label edges) a b)
  unfolding unions
  unions-Closure [] uf label r = (
    uf,
    label,
    refl,
    r,
    λ a b. (
      λ h. base (inl h),
      closed (Related label []) label (λ x y k. elim k [ inl h ↦ h | inr nothing ↦ absurd nothing ])
          a b,
    ),
  )
  unions-Closure (edge ∷ edges) uf label r =
      let one = union-Unites label uf edge.0 edge.1 r in
      let rest = unions-Closure edges one.0 one.1 one.3 in
      (
        rest.0,
        rest.1,
        rw (one.2, unions) rest.2,
        rest.3,
        λ a b. (
          λ h. map_closure (Joined-Related label one.1 edge edges one.4) a b ((rest.4 a b).0 h),
          λ c. (rest.4 a b).1 (map_closure (Joined-Closure label one.1 edge edges one.4) a b c),
        ),
      )
