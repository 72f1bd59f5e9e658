-- ===== src/Turbo/Hashing.antt =====
-- cerebro/core/scanners/turbo_scanner.py, `_compute_hashes_parallel` and the phases of `scan` that
-- call it. The hash of a file, from the cache or of its bytes, and the order in which the workers
-- end are parameters; after a cancel, that order ends early. Log lines, progress and the writes to
-- the caches are left out.
use backhouse_dff.Base.{
  ℕ, String, Bool, Option, none, some, List, [], ◌∷◌, ◌++◌, map, if◌then◌else◌, ◌==◌, text_key,
}
use backhouse_dff.Base.Buckets.{append_all, keep_two}
use backhouse_dff.Turbo.Grouping.{Entry, Groups}

-- Groups under a hash.
abbrev pub HashGroups : Type 0
HashGroups = List (String × List Entry)

-- The files of all groups.
abbrev pub flatten {ℓ} : {K : Type ℓ} → List (K × List Entry) → List Entry
flatten [] = []
flatten (g ∷ groups) = g.1 ++ flatten groups

-- `if hash_val`: a file without a hash, or with an empty one, is left out.
abbrev pub add_hash : Entry → Option String → List (String × Entry) → List (String × Entry)
add_hash x none hashed = hashed
add_hash x (some h) hashed = if h == "" then hashed else (h, x) ∷ hashed

module _ (hash : String → Option String) where
  -- The hashes of the workers' results, in the order in which they end.
  abbrev pub with_hashes : List Entry → List (String × Entry)
  with_hashes [] = []
  with_hashes (x ∷ xs) = add_hash x (hash x.0) (with_hashes xs)

  module _ (as_completed : List Entry → List Entry) where
    abbrev pub hash_files : List Entry → HashGroups
    hash_files [] = []
    hash_files (x ∷ xs) =
        keep_two (append_all (λ p. p.0) (λ p. p.1) (with_hashes (as_completed (x ∷ xs))) [])

    unfoldable pub compute_hashes {ℓ} : {K : Type ℓ} → List (K × List Entry) → HashGroups
    compute_hashes groups = hash_files (flatten groups)

-- The options of the scan that choose the phases.
pub record HashConfig : Type 0 where
  pub use_quick_hash : Bool
  pub use_full_hash : Bool

-- `text` is `str` of a size, which is the key of a group when the quick phase is off.
unfoldable pub final_groups :
    HashConfig
    → (quick_hash full_hash : String → Option String) → (as_completed : List Entry → List Entry)
    → (text : ℕ → String) → Groups
    → HashGroups
final_groups config quick_hash full_hash as_completed text size_groups =
    let quick_hash_groups =
      if config.use_quick_hash
      then compute_hashes quick_hash as_completed size_groups
      else map (λ g. (text g.0, g.1)) size_groups in
    if config.use_full_hash
    then compute_hashes full_hash as_completed quick_hash_groups
    else quick_hash_groups
