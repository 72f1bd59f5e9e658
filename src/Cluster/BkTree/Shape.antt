-- ===== src/Cluster/BkTree/Shape.antt =====
-- The invariant of the tree, and that `add` keeps it.
use backhouse_dff.Base.{ℕ, ◌≡◌, refl, sym, ◌∙◌, inl, inr, arith, nat_beq, Bool-cases}
use backhouse_dff.Cluster.Hamming.{hamming_distance}
use backhouse_dff.Cluster.BkTree.{Node, node, Children, nil, edge, add_node, add_child}

-- All values of the tree are at a distance from one value.
unfoldable mutual
  pub At : ℕ → ℕ → Node → Type 0
  At v d (node w items children) = (hamming_distance w v ≡ d) × AtChildren v d children

  pub AtChildren : ℕ → ℕ → Children → Type 0
  AtChildren v d nil = Unit
  AtChildren v d (edge d' child rest) = At v d child × AtChildren v d rest

-- The edge to a child tells the distance of all values below it.
unfoldable mutual
  pub IsBk : Node → Type 0
  IsBk (node v items children) = IsBkChildren v children

  pub IsBkChildren : ℕ → Children → Type 0
  IsBkChildren v nil = Unit
  IsBkChildren v (edge d child rest) = At v d child × IsBk child × IsBkChildren v rest

mutual
  unfolding At add_node

  add_node-At :
      (v d value item : ℕ) (t : Node)
      → hamming_distance value v ≡ d
      → At v d t
      → At v d (add_node value item t)
  add_node-At v d value item (node w items children) h a = elim (Bool-cases (nat_beq value w)) [
    | inl here ↦ rw here a
    | inr there ↦
        rw there (a.0, add_child-At v d (hamming_distance value w) value item children h a.1)
  ]

  add_child-At :
      (v d dist value item : ℕ) (children : Children)
      → hamming_distance value v ≡ d
      → AtChildren v d children
      → AtChildren v d (add_child dist value item children)
  add_child-At v d dist value item nil h a = ((h, tt), tt)
  add_child-At v d dist value item (edge d' child rest) h a = elim (Bool-cases (nat_beq d' dist)) [
    | inl here ↦ rw here (add_node-At v d value item child h a.0, a.1)
    | inr there ↦ rw there (a.0, add_child-At v d dist value item rest h a.1)
  ]

mutual
  unfolding At IsBk add_node

  pub add_node-IsBk : (value item : ℕ) (t : Node) → IsBk t → IsBk (add_node value item t)
  add_node-IsBk value item (node v items children) b = elim (Bool-cases (nat_beq value v)) [
    | inl here ↦ rw here b
    | inr there ↦ rw there (add_child-IsBk v (hamming_distance value v) value item children refl b)
  ]

  add_child-IsBk :
      (v dist value item : ℕ) (children : Children)
      → hamming_distance value v ≡ dist
      → IsBkChildren v children
      → IsBkChildren v (add_child dist value item children)
  add_child-IsBk v dist value item nil h b = ((h, tt), tt, tt)
  add_child-IsBk v dist value item (edge d child rest) h b = elim (Bool-cases (nat_beq d dist)) [
    | inl here ↦
        let eq : d ≡ dist = ground arith in
        rw here (
          add_node-At v d value item child (h ∙ sym eq) b.0,
          add_node-IsBk value item child b.1,
          b.2,
        )
    | inr there ↦ rw there (b.0, b.1, add_child-IsBk v dist value item rest h b.2)
  ]
