-- ===== src/Turbo/Prefix.antt =====
-- cerebro/core/scanners/turbo_scanner.py, `_apply_tier_a_filter`: the filter by the hash of a
-- prefix. The order in which the workers end is a parameter. Log lines, progress and the counts of
-- the candidates that are returned beside the groups are left out.
use backhouse_dff.Base.{
  ℕ, ◌*◌, min, String, Bool, ◌&&◌, not, Option, none, some, List, [], ◌∷◌, ◌++◌, if◌then◌else◌,
  length, ltb, sum_of, nat_key, text_key, pair_key, map,
}
use backhouse_dff.Base.Dict.{insert}
use backhouse_dff.Base.Buckets.{bucket, append_all}
use backhouse_dff.Turbo.Grouping.{Entry, Groups}

-- A size with an entry of its group.
abbrev pub Job : Type 0
Job = ℕ × Entry

abbrev pub jobs_of : ℕ → List Entry → List Job
jobs_of size_key paths = map (λ entry. (size_key, entry)) paths

abbrev pub all_jobs : Groups → List Job
all_jobs [] = []
all_jobs (g ∷ rest) = jobs_of g.0 g.1 ++ all_jobs rest

-- A file that cannot be read is filed under this hash.
abbrev pub hash_or_error : Option String → String
hash_or_error none = "__error__"
hash_or_error (some h) = h

-- `survivors.setdefault(size_key, []).extend(grp_paths)` for the groups of two or more.
unfoldable pub survivors_of {ℓ} : {K : Type ℓ} → (K → ℕ) → List (K × List Entry) → Groups → Groups
survivors_of size_key [] survivors = survivors
survivors_of size_key (group ∷ rest) survivors =
    let key = size_key group.0 in
    survivors_of size_key rest (
      if ltb (length group.1) 2
      then survivors
      else insert key (bucket key survivors ++ group.1) survivors)

-- The options of the scan that the filter reads.
pub record PrefixConfig : Type 0 where
  pub use_quick_hash : Bool
  pub enable_tier_a_adaptive : Bool

abbrev pub tier_a_size : ℕ
tier_a_size = 4096

abbrev pub adaptive_threshold : ℕ
adaptive_threshold = 52428800

abbrev pub escalated_bytes : ℕ
escalated_bytes = 65536

-- The number of bytes that are hashed of the files of one group.
abbrev pub prefix_bytes : ℕ → List Entry → ℕ
prefix_bytes size_key paths =
    if ltb adaptive_threshold (length paths * size_key) && ltb tier_a_size size_key
    then min size_key escalated_bytes
    else tier_a_size

abbrev pub candidates_in : Groups → ℕ
candidates_in size_groups = sum_of (λ g. length g.1) size_groups

abbrev pub job_entry : Job → Entry
job_entry job = job.1

-- `none` of the hash is a file that cannot be read.
module _ (prefix_hash : ℕ → String → Option String) (as_completed : List Job → List Job) where
  abbrev pub hash_of : ℕ → Job → String
  hash_of nbytes job = hash_or_error (prefix_hash nbytes job.1.0)

  abbrev pub flat_key : Job → ℕ × String
  flat_key job = (job.0, hash_of tier_a_size job)

  unfoldable pub filter_flat : Groups → Groups
  filter_flat size_groups =
      survivors_of (λ key. key.0)
        (append_all flat_key job_entry (as_completed (all_jobs size_groups)) []) []

  abbrev pub group_survivors : ℕ → List Entry → Groups → Groups
  group_survivors size_key paths survivors =
      survivors_of (λ _. size_key)
        (append_all (hash_of (prefix_bytes size_key paths)) job_entry
          (as_completed (jobs_of size_key paths)) [])
        survivors

  unfoldable pub filter_adaptive : Groups → Groups → Groups
  filter_adaptive [] survivors = survivors
  filter_adaptive (g ∷ rest) survivors = filter_adaptive rest (group_survivors g.0 g.1 survivors)

  -- `cancelled` is that one of the checks finds the cancel event set: all that was read is dropped.
  -- The test of the share, 0.02, is on whole numbers.
  unfoldable pub apply_tier_a_filter : PrefixConfig → Bool → ℕ → Groups → Groups
  apply_tier_a_filter config cancelled discovered_count size_groups =
      let total = candidates_in size_groups in
      let kept =
        if config.enable_tier_a_adaptive
        then filter_adaptive size_groups []
        else filter_flat size_groups in
      if ltb total 2
      then size_groups
      else if not config.use_quick_hash
      then size_groups
      else if ltb 0 discovered_count && ltb (total * 50) discovered_count
      then size_groups
      else if cancelled
      then size_groups
      else kept
