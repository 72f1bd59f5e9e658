-- ===== src/Cluster/UnionFind/Labels.antt =====
-- A union-find structure against a function that gives each element the root of its set.
use backhouse_dff.Base.{
  ℕ, ◌≤◌, ◌<◌, ◌≡◌, ◌≢◌, refl, sym, ap, ◌∙◌, inl, inr, Bool, true, false, Option, none, some, List,
  [], ◌∷◌, arith, if◌then◌else◌, KeyEq, ◌==◌, eqb_refl, Bool-cases,
}
use backhouse_dff.Base.Dict.{insert, lookup, lookup-insert}
use backhouse_dff.Cluster.UnionFind.{UnionFind, new_union_find, max_rank}

abbrev pub or_zero : Option ℕ → ℕ
or_zero none = 0
or_zero (some n) = n

module _ {ℓ} {K : Type ℓ} ⦃e : KeyEq K⦄ where
  pub eqb-false : (a b : K) → a ≢ b → (a == b) ≡ false
  eqb-false a b h = elim (Bool-cases (a == b)) [
    | inl same ↦ absurd (h ((e.eqb_iff a b).0 same))
    | inr other ↦ other
  ]

  abbrev pub rank_of : UnionFind K → K → ℕ
  rank_of uf x = or_zero (lookup x uf.rank)

  -- Each element's parent is in the same set, each root is its set's label, ranks grow towards the
  -- roots, and exactly the elements have a rank.
  pub record Represents (uf : UnionFind K) (label : K → K) : Type ℓ where
    pub known : (x p : K) → lookup x uf.parent ≡ some p → (q : K) × (lookup p uf.parent ≡ some q)
    pub same : (x p : K) → lookup x uf.parent ≡ some p → label p ≡ label x
    pub root : (x : K) → lookup x uf.parent ≡ some x → label x ≡ x
    pub ranked : (x p : K) → lookup x uf.parent ≡ some p → p ≢ x → rank_of uf x < rank_of uf p
    pub has_rank : (x p : K) → lookup x uf.parent ≡ some p → (n : ℕ) × (lookup x uf.rank ≡ some n)
    pub fresh : (x : K) → lookup x uf.parent ≡ none → label x ≡ x
    pub no_rank : (x : K) → lookup x uf.parent ≡ none → lookup x uf.rank ≡ none

  pub new_union_find-Represents : Represents new_union_find (λ x. x)
  unfolding lookup
  new_union_find-Represents = record {
    known = λ x p h. ground arith;
    same = λ x p h. ground arith;
    root = λ x h. refl;
    ranked = λ x p h. ground arith;
    has_rank = λ x p h. ground arith;
    fresh = λ x h. refl;
    no_rank = λ x h. refl;
  }

  pub max_rank-ge : (rank : List (K × ℕ)) (x : K) → or_zero (lookup x rank) ≤ max_rank rank
  unfolding lookup
  max_rank-ge [] x = omega arith
  max_rank-ge (entry ∷ rest) x = elim (Bool-cases (entry.0 == x)) [
    | inl here ↦ rw here (omega arith)
    | inr there ↦ rw there (omega (arith, max_rank-ge rest x))
  ]

  -- What a lookup finds after a write.
  pub data Written (w v r p : K) (d : List (K × K)) : Type ℓ where
    at_key : w ≡ r → v ≡ p → Written w v r p d
    elsewhere : w ≢ r → lookup r d ≡ some p → Written w v r p d

  pub lookup-insert-cases :
      (w v r p : K) (d : List (K × K)) → lookup r (insert w v d) ≡ some p → Written w v r p d
  lookup-insert-cases w v r p d h = elim (Bool-cases (w == r)) [
    | inl here ↦ at_key ((e.eqb_iff w r).0 here) (ground (arith, lookup-insert w r v d))
    | inr there ↦
        elsewhere (λ eq. ground (arith, (e.eqb_iff w r).1 eq))
          (ground (arith, lookup-insert w r v d))
  ]

  -- A write that is not a write at `r` leaves no entry there where there was none.
  pub lookup-insert-none :
      (w v r : K) (d : List (K × K))
      → lookup r (insert w v d) ≡ none
      → (w ≢ r) × (lookup r d ≡ none)
  lookup-insert-none w v r d h = elim (Bool-cases (w == r)) [
    | inl here ↦
        absurd
          (cc (sym h ∙ lookup-insert w r v d ∙ ap (λ b. if b then some v else lookup r d) here))
    | inr there ↦
        ((λ eq. ground (arith, (e.eqb_iff w r).1 eq)), ground (arith, lookup-insert w r v d))
  ]

  pub insert-known {κ} :
      {V : Type κ} (w : K) (v : V) (r : K) (p : V) (d : List (K × V))
      → lookup r d ≡ some p
      → (q : V) × (lookup r (insert w v d) ≡ some q)
  insert-known w v r p d h = elim (Bool-cases (w == r)) [
    | inl here ↦ (v, ground (arith, lookup-insert w r v d))
    | inr there ↦ (p, ground (arith, lookup-insert w r v d))
  ]

  pub lookup-insert_other {κ} :
      {V : Type κ} (w r : K) (v : V) (d : List (K × V))
      → w ≢ r
      → lookup r (insert w v d) ≡ lookup r d
  lookup-insert_other w r v d h = lookup-insert w r v d ∙ rw (eqb-false w r h) refl

  pub lookup-insert_self {κ} :
      {V : Type κ} (w : K) (v : V) (d : List (K × V)) → lookup w (insert w v d) ≡ some v
  lookup-insert_self w v d = lookup-insert w w v d ∙ rw (eqb_refl w) refl

  pub present-ne {κ} :
      {V : Type κ} (x z : K) {q : V} (d : List (K × V))
      → lookup x d ≡ none
      → lookup z d ≡ some q
      → x ≢ z
  present-ne x z d out h same = cc (ap (λ k. lookup k d) same)

  pub ne_of_eqb : (a b : K) → (a == b) ≡ false → a ≢ b
  ne_of_eqb a b h same = cc ((e.eqb_iff a b).1 same)

  pub lookup-insert_root :
      (w v : K) (d : List (K × K)) → lookup v d ≡ some v → lookup v (insert w v d) ≡ some v
  lookup-insert_root w v d h = lookup-insert w v v d ∙ keeps (w == v)
    where
      keeps : (b : Bool) → (if b then some v else lookup v d) ≡ some v
      keeps true = refl
      keeps false = h
