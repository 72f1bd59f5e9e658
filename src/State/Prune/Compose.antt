-- ===== src/State/Prune/Compose.antt =====
-- What is left after pruning, and pruning twice.
use backhouse_dff.Base.{
  ℕ, ◌+◌, ◌≤◌, ◌≡◌, refl, ap, ◌≢◌, ltb, length, filter-All, All-map, filter-filter, contains,
  text_key, contains-append, String, Bool, true, false, not, List, [], ◌∷◌, ◌++◌, map,
  if◌then◌else◌, arith, All, Bool-cases, inl, inr, length-filter-le, sum_of, tests,
}
use backhouse_dff.Engine.{DuplicateFile, DuplicateGroup, new_group, keeper_size, file_size}
use backhouse_dff.Engine.Reclaim.{new_group-fields, new_group-balance}
use backhouse_dff.State.Prune.{
  surviving, prune_groups, prune_set, path_set, prune_paths_from_groups,
}

surviving-append :
    (ps qs : List String) (fs : List DuplicateFile)
    → surviving qs (surviving ps fs) ≡ surviving (ps ++ qs) fs
surviving-append ps qs fs =
    filter-filter (λ f. not (contains ps f.path)) (λ f. not (contains qs f.path))
      (λ f. not (contains (ps ++ qs) f.path)) fs (λ f. ground (arith, contains-append ps qs f.path))

length-surviving-le :
    (ps qs : List String) (fs : List DuplicateFile)
    → length (surviving (ps ++ qs) fs) ≤ length (surviving ps fs)
length-surviving-le ps qs fs = omega (
  arith,
  ap length (surviving-append ps qs fs),
  length-filter-le (λ f. not (contains qs f.path)) (surviving ps fs),
)

-- One group, pruned again.
prune_groups-cons :
    (qs : List String) (group_id : ℕ) (fs : List DuplicateFile) (kind : String)
    (gs : List DuplicateGroup)
    → prune_groups qs (new_group group_id fs kind ∷ gs) ≡ (
        if ltb (length (surviving qs fs)) 2
        then prune_groups qs gs
        else new_group group_id (surviving qs fs) kind ∷ prune_groups qs gs)
unfolding prune_groups
prune_groups-cons qs group_id fs kind gs =
    let (files, ids, kinds) = new_group-fields group_id fs kind in rw (files, ids, kinds)

prune_groups-append :
    (ps qs : List String) (gs : List DuplicateGroup)
    → prune_groups qs (prune_groups ps gs) ≡ prune_groups (ps ++ qs) gs
unfolding prune_groups
prune_groups-append ps qs [] = refl
prune_groups-append ps qs (g ∷ gs) = elim (Bool-cases (ltb (length (surviving ps g.files)) 2)) [
  | inl few ↦
      let fewer : ltb (length (surviving (ps ++ qs) g.files)) 2 ≡ true =
        omega (tests, length-surviving-le ps qs g.files, few) in
      rw (few, fewer) (prune_groups-append ps qs gs)
  | inr many ↦ rw (
    many,
    prune_groups-cons qs g.group_id (surviving ps g.files) g.similarity_type _,
    surviving-append ps qs g.files,
    prune_groups-append ps qs gs,
  )
]

map-append : (f : String → String) (ps qs : List String) → map f (ps ++ qs) ≡ map f ps ++ map f qs
map-append f [] qs = refl
map-append f (p ∷ ps) qs = ap (◌∷◌ (f p)) (map-append f ps qs)

append-nil : (ps : List String) → ps ++ [] ≡ ps
append-nil [] = refl
append-nil (p ∷ ps) = ap (◌∷◌ p) (append-nil ps)

prune_set-append :
    (ps qs : List String) (gs : List DuplicateGroup)
    → prune_set qs (prune_set ps gs) ≡ prune_set (ps ++ qs) gs
prune_set-append [] qs gs = refl
prune_set-append (p ∷ ps) [] gs = rw (append-nil (p ∷ ps))
prune_set-append (p ∷ ps) (q ∷ qs) gs = prune_groups-append (p ∷ ps) (q ∷ qs) gs

-- To prune some paths and then others gives the same groups as to prune them all at once.
pub prune_paths_from_groups-append :
    (norm : String → String) (groups : List DuplicateGroup) (ps qs : List String)
    → prune_paths_from_groups norm (prune_paths_from_groups norm groups ps) qs
      ≡ prune_paths_from_groups norm groups (ps ++ qs)
unfolding prune_paths_from_groups
prune_paths_from_groups-append norm groups ps qs =
    rw (map-append norm ps qs) (prune_set-append (map norm ps) (map norm qs) groups)

-- A group of at least two files, none of them removed, with the derived fields of those files.
pub record IsPruned (removed : List String) (g : DuplicateGroup) : Type 0 where
  pub several : 2 ≤ length g.files
  pub absent : All (λ f. contains removed f.path ≡ false) g.files
  pub total : g.total_size ≡ sum_of file_size g.files
  pub rest : g.reclaimable + keeper_size g.files ≡ g.total_size

not-true : (b : Bool) → not b ≡ true → b ≡ false
not-true b h = ground arith

some_files : {fs : List DuplicateFile} → 2 ≤ length fs → fs ≢ []
some_files h e = omega (arith, ap length e)

new_group-IsPruned :
    (removed : List String) (group_id : ℕ) (fs : List DuplicateFile) (kind : String)
    → 2 ≤ length (surviving removed fs)
    → IsPruned removed (new_group group_id (surviving removed fs) kind)
new_group-IsPruned removed group_id fs kind h =
    let left = surviving removed fs in
    let (files, _, _) = new_group-fields group_id left kind in
    let (total, balance) = new_group-balance group_id left kind (some_files h) in
    record {
      several = rw files h;
      absent = rw files (
          All-map _ _ left (λ f. not-true (contains removed f.path))
            (filter-All (λ f. not (contains removed f.path)) fs));
      total = rw files total;
      rest = rw files (omega (arith, balance, total));
    }

prune_groups-IsPruned :
    (removed : List String) (gs : List DuplicateGroup)
    → All (IsPruned removed) (prune_groups removed gs)
unfolding prune_groups
prune_groups-IsPruned removed [] = tt
prune_groups-IsPruned removed (g ∷ gs) =
    elim (Bool-cases (ltb (length (surviving removed g.files)) 2)) [
      | inl few ↦ rw few (prune_groups-IsPruned removed gs)
      | inr many ↦ rw many (
        new_group-IsPruned removed g.group_id g.files g.similarity_type (ground arith),
        prune_groups-IsPruned removed gs,
      )
    ]

prune_set-IsPruned :
    (removed : List String) (gs : List DuplicateGroup)
    → removed ≢ []
    → All (IsPruned removed) (prune_set removed gs)
prune_set-IsPruned [] gs h = absurd (h refl)
prune_set-IsPruned (p ∷ ps) gs h = prune_groups-IsPruned (p ∷ ps) gs

-- After the removal of at least one path every group that is left has at least two files, none of
-- them at a removed path, and `total_size` and `reclaimable` are those of its remaining files.
pub prune_paths_from_groups-IsPruned :
    (norm : String → String) (groups : List DuplicateGroup) (paths : List String)
    → paths ≢ []
    → All (IsPruned (path_set norm paths)) (prune_paths_from_groups norm groups paths)
unfolding prune_paths_from_groups
prune_paths_from_groups-IsPruned norm groups paths h =
    prune_set-IsPruned (path_set norm paths) groups (map-ne-nil paths h)
  where
    map-ne-nil : (ps : List String) → ps ≢ [] → map norm ps ≢ []
    map-ne-nil [] h = absurd (h refl)
    map-ne-nil (p ∷ ps) h = λ e. ground arith
