-- ===== src/Cluster/BkTree/Query.antt =====
-- The query against a scan of all entries.
use backhouse_dff.Base.{
  ℕ, zero, suc, ◌+◌, ◌-◌, ◌≤◌, ◌≡◌, refl, inl, inr, Option, none, some, List, [], ◌∷◌, ◌++◌, arith,
  if◌then◌else◌, leb, Bool-cases, map, filter, ◌&&◌,
}
use backhouse_dff.Cluster.Hamming.{hamming_distance}
use backhouse_dff.Cluster.BkTree.{
  Node, node, Children, nil, edge, add, size, size_children, push_near, walk, query,
}
use backhouse_dff.Cluster.BkTree.Shape.{IsBk, IsBkChildren, add_node-IsBk}
use backhouse_dff.Cluster.BkTree.Hits.{
  count, count-append, hits, hits_stack, push_near-hits, entry_hits, add_node-hits,
}

-- The items whose values are near, by a scan of all pairs of a value and an item.
abbrev pub near : ℕ → ℕ → List (ℕ × ℕ) → List ℕ
near value limit pairs = map (λ p. p.1) (filter (λ p. leb (hamming_distance value p.0) limit) pairs)

-- A tree with all pairs of a list, added in their order.
unfoldable pub add_all : Option Node → List (ℕ × ℕ) → Option Node
add_all root [] = root
add_all root (p ∷ pairs) = add_all (add root p.0 p.1) pairs

stack_size : List Node → ℕ
stack_size [] = 0
stack_size (t ∷ stack) = size t + stack_size stack

AllBk : List Node → Type 0
AllBk [] = Unit
AllBk (t ∷ stack) = IsBk t × AllBk stack

push_near-size :
    (dist limit : ℕ) (children : Children) (stack : List Node)
    → stack_size (push_near dist limit children stack) ≤ size_children children + stack_size stack
unfolding push_near stack_size size
push_near-size dist limit nil stack = omega arith
push_near-size dist limit (edge d child rest) stack =
    elim (Bool-cases (leb (dist - limit) d && leb d (dist + limit))) [
      | inl inside ↦ rw inside (omega (arith, push_near-size dist limit rest (child ∷ stack)))
      | inr outside ↦ rw outside (omega (arith, push_near-size dist limit rest stack))
    ]

push_near-AllBk :
    (v dist limit : ℕ) (children : Children) (stack : List Node)
    → IsBkChildren v children
    → AllBk stack
    → AllBk (push_near dist limit children stack)
unfolding push_near AllBk IsBk
push_near-AllBk v dist limit nil stack b s = s
push_near-AllBk v dist limit (edge d child rest) stack b s =
    elim (Bool-cases (leb (dist - limit) d && leb d (dist + limit))) [
      | inl inside ↦ rw inside (push_near-AllBk v dist limit rest (child ∷ stack) b.2 (b.1, s))
      | inr outside ↦ rw outside (push_near-AllBk v dist limit rest stack b.2 s)
    ]

-- The loop ends, and adds to the results what the trees of the stack hold near the value.
walk_lem :
    (fuel value limit : ℕ) (stack : List Node) (results : List ℕ)
    → AllBk stack
    → stack_size stack ≤ fuel
    → (found : List ℕ) × (walk fuel value limit stack results ≡ some found)
      × ((i : ℕ) → count i found ≡ count i results + hits_stack value limit i stack)
unfolding walk AllBk IsBk stack_size hits hits_stack size
walk_lem fuel value limit [] results s h = (results, refl, λ i. omega arith)
walk_lem zero value limit (node v items children ∷ stack) results s h = absurd (omega arith)
walk_lem (suc fuel) value limit (node v items children ∷ stack) results s h =
    let dist = hamming_distance value v in
    let next = push_near dist limit children stack in
    let kept = if leb dist limit then results ++ items else results in
    let rest =
      walk_lem fuel value limit next kept (push_near-AllBk v dist limit children stack s.0 s.1)
        (omega (arith, push_near-size dist limit children stack)) in
    (
      rest.0,
      rest.1,
      λ i.
          let pushed = push_near-hits value limit i v children stack s.0 in
          ground (arith, rest.2 i, pushed, count-append i results items),
    )

mutual
  unfolding hits

  hits-item :
      (value limit i v item : ℕ)
      → hits value limit i (node v (item ∷ []) nil) ≡ entry_hits value limit i v item
  hits-item value limit i v item = omega arith

hits_root : ℕ → ℕ → ℕ → Option Node → ℕ
hits_root value limit i none = 0
hits_root value limit i (some t) = hits value limit i t

IsBkRoot : Option Node → Type 0
IsBkRoot none = Unit
IsBkRoot (some t) = IsBk t

add-IsBkRoot : (root : Option Node) (v item : ℕ) → IsBkRoot root → IsBkRoot (add root v item)
unfolding IsBkRoot IsBk
add-IsBkRoot none v item b = tt
add-IsBkRoot (some t) v item b = add_node-IsBk v item t b

add-hits_root :
    (value limit i v item : ℕ) (root : Option Node)
    → hits_root value limit i (add root v item)
      ≡ hits_root value limit i root + entry_hits value limit i v item
unfolding hits_root
add-hits_root value limit i v item none = omega (arith, hits-item value limit i v item)
add-hits_root value limit i v item (some t) = add_node-hits value limit i v item t

add_all-IsBkRoot :
    (pairs : List (ℕ × ℕ)) (root : Option Node) → IsBkRoot root → IsBkRoot (add_all root pairs)
unfolding add_all
add_all-IsBkRoot [] root b = b
add_all-IsBkRoot (p ∷ pairs) root b =
    add_all-IsBkRoot pairs (add root p.0 p.1) (add-IsBkRoot root p.0 p.1 b)

add_all-hits_root :
    (value limit i : ℕ) (pairs : List (ℕ × ℕ)) (root : Option Node)
    → hits_root value limit i (add_all root pairs)
      ≡ hits_root value limit i root + count i (near value limit pairs)
unfolding add_all
add_all-hits_root value limit i [] root = omega arith
add_all-hits_root value limit i (p ∷ pairs) root = ground (
  arith,
  add_all-hits_root value limit i pairs (add root p.0 p.1),
  add-hits_root value limit i p.0 p.1 root,
)

query_lem :
    (value limit : ℕ) (root : Option Node)
    → IsBkRoot root
    → (found : List ℕ) × (query root value limit ≡ some found)
      × ((i : ℕ) → count i found ≡ hits_root value limit i root)
unfolding IsBkRoot hits_root hits_stack AllBk stack_size
query_lem value limit none b = ([], refl, λ i. refl)
query_lem value limit (some t) b =
    let all = walk_lem (size t) value limit (t ∷ []) [] (b, tt) (omega arith) in
    (all.0, all.1, λ i. omega (arith, all.2 i))

-- In a tree with any pairs of a hash and an item, a query ends, and finds each item exactly as
-- often as a scan of all the pairs for hashes at most the limit away.
pub query-near :
    (pairs : List (ℕ × ℕ)) (value limit : ℕ)
    → (found : List ℕ) × (query (add_all none pairs) value limit ≡ some found)
      × ((i : ℕ) → count i found ≡ count i (near value limit pairs))
unfolding IsBkRoot hits_root
query-near pairs value limit =
    let all = query_lem value limit (add_all none pairs) (add_all-IsBkRoot pairs none tt) in
    (all.0, all.1, λ i. omega (arith, all.2 i, add_all-hits_root value limit i pairs none))
