-- ===== src/State/Prune.antt =====
-- cerebro/v2/state/groups_prune.py: groups after files were removed. `norm p` is `str(Path(p))`, of
-- the standard library's pathlib.
pub mod Compose
mod Tests
use backhouse_dff.Base.{
  ℕ, ltb, length, filter, contains, text_key, String, Bool, not, List, [], ◌∷◌, map, if◌then◌else◌,
}
use backhouse_dff.Engine.{DuplicateFile, DuplicateGroup, new_group}

abbrev pub surviving : List String → List DuplicateFile → List DuplicateFile
surviving removed = filter (λ f. not (contains removed f.path))

-- The loop over the groups.
unfoldable pub prune_groups : List String → List DuplicateGroup → List DuplicateGroup
prune_groups removed [] = []
prune_groups removed (g ∷ gs) =
    let new_files = surviving removed g.files in
    let rest = prune_groups removed gs in
    if ltb (length new_files) 2
    then rest
    else new_group g.group_id new_files g.similarity_type ∷ rest

-- `if not rset: return list(groups)`
abbrev pub prune_set : List String → List DuplicateGroup → List DuplicateGroup
prune_set [] groups = groups
prune_set (p ∷ ps) groups = prune_groups (p ∷ ps) groups

module _ (norm : String → String) where
  abbrev pub path_set : List String → List String
  path_set = map norm

  unfoldable pub prune_paths_from_groups : List DuplicateGroup → List String → List DuplicateGroup
  unfolding prune_groups
  prune_paths_from_groups groups paths = prune_set (path_set paths) groups
