-- ===== src/Cluster/BkTree.antt =====
-- cerebro/engines/image_formats.py, `HammingBKTree`: the nodes by value, the stack with its top
-- first. `none` of the query is that its fuel ran out: the fuel is the number of nodes.
pub mod Shape
pub mod Hits
pub mod Query
use backhouse_dff.Base.{
  ℕ, zero, suc, ◌+◌, ◌-◌, ◌&&◌, Option, none, some, List, [], ◌∷◌, ◌++◌, if◌then◌else◌, nat_beq,
  leb,
}
use backhouse_dff.Cluster.Hamming.{hamming_distance}

mutual
  -- The value, its items, and the children by their distance.
  pub data Node : Type 0 where
    node : ℕ → List ℕ → Children → Node

  pub data Children : Type 0 where
    nil : Children
    edge : ℕ → Node → Children → Children

unfoldable mutual
  pub add_node : ℕ → ℕ → Node → Node
  add_node value item (node v items children) =
      let below = add_child (hamming_distance value v) value item children in
      if nat_beq value v then node v (items ++ item ∷ []) children else node v items below

  pub add_child : ℕ → ℕ → ℕ → Children → Children
  add_child dist value item nil = edge dist (node value (item ∷ []) nil) nil
  add_child dist value item (edge d child rest) =
      let here = add_node value item child in
      let later = add_child dist value item rest in
      if nat_beq d dist then edge d here rest else edge d child later

abbrev pub add : Option Node → ℕ → ℕ → Option Node
add none value item = some (node value (item ∷ []) nil)
add (some root) value item = some (add_node value item root)

unfoldable mutual
  pub size : Node → ℕ
  size (node v items children) = suc (size_children children)

  pub size_children : Children → ℕ
  size_children nil = 0
  size_children (edge d child rest) = size child + size_children rest

-- The children whose distance is at most `max_distance` off `dist`. A negative lower bound and 0
-- admit the same distances.
unfoldable pub push_near : ℕ → ℕ → Children → List Node → List Node
push_near dist max_distance nil stack = stack
push_near dist max_distance (edge d child rest) stack =
    push_near dist max_distance rest
      (if leb (dist - max_distance) d && leb d (dist + max_distance) then child ∷ stack else stack)

unfoldable pub walk : ℕ → ℕ → ℕ → List Node → List ℕ → Option (List ℕ)
walk fuel value max_distance [] results = some results
walk zero value max_distance (top ∷ stack) results = none
walk (suc fuel) value max_distance (node v items children ∷ stack) results =
    let dist = hamming_distance value v in
    walk fuel value max_distance (push_near dist max_distance children stack)
      (if leb dist max_distance then results ++ items else results)

abbrev pub query : Option Node → ℕ → ℕ → Option (List ℕ)
query none value max_distance = some []
query (some root) value max_distance = walk (size root) value max_distance (root ∷ []) []
