-- ===== src/State/Prune/Tests.antt =====
-- Pruning a small list of groups.
use backhouse_dff.Base.{◌≡◌, refl, false, List, [], ◌∷◌}
use backhouse_dff.Engine.{DuplicateGroup, new_group}
use backhouse_dff.Engine.Samples.{file, three_group}
use backhouse_dff.State.Prune.{prune_paths_from_groups}

abbrev groups : List DuplicateGroup
groups = three_group ∷ new_group 2 (file "/a" 5 false ∷ file "/d" 5 false ∷ []) "exact" ∷ []

-- The second group loses one of its two files, and is dropped.
groups_without_a :
    prune_paths_from_groups (λ p. p) groups ("/a" ∷ [])
    ≡ new_group 1 (file "/b" 30 false ∷ file "/c" 30 false ∷ []) "exact" ∷ []
unfolding prune_paths_from_groups new_group
groups_without_a = refl
