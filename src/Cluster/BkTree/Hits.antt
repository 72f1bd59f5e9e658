-- ===== src/Cluster/BkTree/Hits.antt =====
-- How often an item stands under the near values of a tree, and after `add`.
use backhouse_dff.Base.{
  ℕ, ◌+◌, ◌-◌, ◌≡◌, refl, inl, inr, false, List, [], ◌∷◌, ◌++◌, arith, if◌then◌else◌, nat_beq, leb,
  Bool-cases, ◌&&◌,
}
use backhouse_dff.Cluster.Hamming.{
  hamming_distance, hamming_distance_symm, hamming_distance_triangle,
}
use backhouse_dff.Cluster.BkTree.{Node, node, Children, nil, edge, add_node, add_child, push_near}
use backhouse_dff.Cluster.BkTree.Shape.{At, AtChildren, IsBk, IsBkChildren}

-- How often an item stands in a list.
abbrev pub count : ℕ → List ℕ → ℕ
count i [] = 0
count i (x ∷ xs) = (if nat_beq x i then 1 else 0) + count i xs

pub count-append : (i : ℕ) (xs ys : List ℕ) → count i (xs ++ ys) ≡ count i xs + count i ys
count-append i [] ys = omega arith
count-append i (x ∷ xs) ys = omega (arith, count-append i xs ys)

-- How often an item stands under the near values of a tree.
abbrev pub at_value : ℕ → ℕ → ℕ → ℕ → List ℕ → ℕ
at_value value limit i v items = if leb (hamming_distance value v) limit then count i items else 0

unfoldable mutual
  pub hits : ℕ → ℕ → ℕ → Node → ℕ
  hits value limit i (node v items children) =
      at_value value limit i v items + hits_children value limit i children

  pub hits_children : ℕ → ℕ → ℕ → Children → ℕ
  hits_children value limit i nil = 0
  hits_children value limit i (edge d child rest) =
      hits value limit i child + hits_children value limit i rest

unfoldable pub hits_stack : ℕ → ℕ → ℕ → List Node → ℕ
hits_stack value limit i [] = 0
hits_stack value limit i (t ∷ stack) = hits value limit i t + hits_stack value limit i stack

-- Outside the bounds of the query, a child has no hit.
mutual
  unfolding At hits

  far-hits :
      (value limit i v d : ℕ) (t : Node)
      → At v d t
      → (leb (hamming_distance value v - limit) d && leb d (hamming_distance value v + limit))
        ≡ false
      → hits value limit i t ≡ 0
  far-hits value limit i v d (node w items children) a h =
      let to_v = hamming_distance_triangle value w v in
      let to_w = hamming_distance_triangle w value v in
      let swap = hamming_distance_symm value w in
      ground (arith, far-hits_children value limit i v d children a.1 h, a.0, to_v, to_w, swap)

  far-hits_children :
      (value limit i v d : ℕ) (children : Children)
      → AtChildren v d children
      → (leb (hamming_distance value v - limit) d && leb d (hamming_distance value v + limit))
        ≡ false
      → hits_children value limit i children ≡ 0
  far-hits_children value limit i v d nil a h = refl
  far-hits_children value limit i v d (edge d' child rest) a h = omega (
    arith,
    far-hits value limit i v d child a.0 h,
    far-hits_children value limit i v d rest a.1 h,
  )

pub push_near-hits :
    (value limit i v : ℕ) (children : Children) (stack : List Node)
    → IsBkChildren v children
    → hits_stack value limit i (push_near (hamming_distance value v) limit children stack)
      ≡ hits_children value limit i children + hits_stack value limit i stack
unfolding push_near hits hits_stack IsBk
push_near-hits value limit i v nil stack b = omega arith
push_near-hits value limit i v (edge d child rest) stack b =
    let dist = hamming_distance value v in
    elim (Bool-cases (leb (dist - limit) d && leb d (dist + limit))) [
      | inl inside ↦
          rw inside (omega (arith, push_near-hits value limit i v rest (child ∷ stack) b.2))
      | inr outside ↦ rw outside (
          omega (
            arith,
            push_near-hits value limit i v rest stack b.2,
            far-hits value limit i v d child b.0 outside,
          ))
    ]

-- What adding an entry adds to the hits.
abbrev pub entry_hits : ℕ → ℕ → ℕ → ℕ → ℕ → ℕ
entry_hits value limit i v item = at_value value limit i v (item ∷ [])

mutual
  unfolding add_node hits

  pub add_node-hits :
      (value limit i v item : ℕ) (t : Node)
      → hits value limit i (add_node v item t)
        ≡ hits value limit i t + entry_hits value limit i v item
  add_node-hits value limit i v item (node w items children) = elim (Bool-cases (nat_beq v w)) [
    | inl here ↦
        let eq : v ≡ w = ground arith in
        rw here (ground (arith, eq, count-append i items (item ∷ [])))
    | inr there ↦
        rw there
          (omega (arith, add_child-hits value limit i (hamming_distance v w) v item children))
  ]

  pub add_child-hits :
      (value limit i dist v item : ℕ) (children : Children)
      → hits_children value limit i (add_child dist v item children)
        ≡ hits_children value limit i children + entry_hits value limit i v item
  add_child-hits value limit i dist v item nil = omega arith
  add_child-hits value limit i dist v item (edge d child rest) =
      elim (Bool-cases (nat_beq d dist)) [
        | inl here ↦ rw here (omega (arith, add_node-hits value limit i v item child))
        | inr there ↦ rw there (omega (arith, add_child-hits value limit i dist v item rest))
      ]
