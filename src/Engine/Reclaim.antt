-- ===== src/Engine/Reclaim.antt =====
-- The derived fields of a group, and its keeper.
use mathlib.Core.List.{List, [], ◌∷◌}
use native.Mathlib.Nat.{le_refl, le_trans}
use backhouse_dff.Base.{
  ℕ, zero, suc, ◌+◌, ◌≤◌, ◌≡◌, ◌≢◌, refl, ap, ◌⊎◌, inl, inr, arith, ltb, length, sum_of, All,
  get_elem?, erase_idx, sum_of-filter-le, Bool-cases, some, String,
}
use backhouse_dff.Base.Best.{best_index, best_index-is_best}
use backhouse_dff.Engine.{
  new_group, DuplicateFile, DuplicateGroup, file_size, max_size, flagged, kept_bytes, keeper_size,
  derive, post_init, flagged_indices, first_or_largest, get_keeper_index,
}

max_size-le-sum : (fs : List DuplicateFile) → max_size fs ≤ sum_of file_size fs
max_size-le-sum [] = omega arith
max_size-le-sum (f ∷ fs) = omega (arith, max_size-le-sum fs)

kept_bytes-le :
    (fs ks : List DuplicateFile)
    → sum_of file_size ks ≤ sum_of file_size fs
    → kept_bytes fs ks ≤ sum_of file_size fs
kept_bytes-le fs [] h = max_size-le-sum fs
kept_bytes-le fs (k ∷ ks) h = h

keeper_size-le : (fs : List DuplicateFile) → keeper_size fs ≤ sum_of file_size fs
unfolding keeper_size
keeper_size-le fs = kept_bytes-le fs (flagged fs) (sum_of-filter-le (λ f. f.is_keeper) file_size fs)

-- The largest size is the size of the entry that `max` picks.
max_size-le : (m : ℕ) (fs : List DuplicateFile) → All (λ f. file_size f ≤ m) fs → max_size fs ≤ m
max_size-le m [] h = omega arith
max_size-le m (f ∷ fs) h = omega (arith, max_size-le m fs h.1)

get_elem?-le-max :
    (fs : List DuplicateFile) (i : ℕ) (y : DuplicateFile)
    → get_elem? fs i ≡ some y
    → y.size ≤ max_size fs
get_elem?-le-max [] i y h = ground arith
get_elem?-le-max (f ∷ fs) zero y h = ground arith
get_elem?-le-max (f ∷ fs) (suc i) y h = omega (arith, get_elem?-le-max fs i y h)

-- Taking one entry out takes its size out.
sum_of-erase_idx :
    (fs : List DuplicateFile) (i : ℕ) (y : DuplicateFile)
    → get_elem? fs i ≡ some y
    → sum_of file_size (erase_idx fs i) + y.size ≡ sum_of file_size fs
sum_of-erase_idx [] i y h = ground arith
sum_of-erase_idx (f ∷ fs) zero y h = ground arith
sum_of-erase_idx (f ∷ fs) (suc i) y h = omega (arith, sum_of-erase_idx fs i y h)

-- The first index is that of the first flagged file.
flagged_indices-cons :
    (i : ℕ) (fs : List DuplicateFile) (j : ℕ) (js : List ℕ)
    → flagged_indices i fs ≡ j ∷ js
    → (k : ℕ) × (y : DuplicateFile) × (ks : List DuplicateFile) × (j ≡ i + k)
      × (get_elem? fs k ≡ some y)
      × (flagged fs ≡ y ∷ ks)
unfolding flagged_indices
flagged_indices-cons i [] j js h = cc
flagged_indices-cons i (f ∷ fs) j js h = elim (Bool-cases f.is_keeper) [
  | inl e ↦ (0, f, flagged fs, ground arith, refl, rw e)
  | inr e ↦
      let (k, y, ks, at, there, first) = flagged_indices-cons (i + 1) fs j js (rw e at h) in
      (suc k, y, ks, omega arith, there, rw e first)
]

flagged_indices-nil :
    (i : ℕ) (fs : List DuplicateFile) → flagged_indices i fs ≡ [] → flagged fs ≡ []
unfolding flagged_indices
flagged_indices-nil i [] h = refl
flagged_indices-nil i (f ∷ fs) h = ground (arith, flagged_indices-nil (i + 1) fs)

-- The keeper at an index: the first flagged file, or a file of the largest size where none is.
abbrev pub KeepsAt : List DuplicateFile → ℕ → Type 0
KeepsAt fs i =
    (y : DuplicateFile) × (get_elem? fs i ≡ some y)
    × (((ks : List DuplicateFile) × (flagged fs ≡ y ∷ ks))
        ⊎ ((flagged fs ≡ []) × (y.size ≡ max_size fs)))

largest_KeepsAt :
    (f : DuplicateFile) (fs : List DuplicateFile)
    → flagged (f ∷ fs) ≡ []
    → KeepsAt (f ∷ fs) (best_index (λ new old. ltb old new) file_size (f ∷ fs))
largest_KeepsAt f fs none_flagged =
    let (y, there, best) =
      best_index-is_best (λ new old. ltb old new) file_size (λ a b. b ≤ a) le_refl
        (λ a b c h k. le_trans k h) (λ a b h. ground arith) (λ a b h. ground arith) f fs in
    (
      y,
      there,
      inr (
        none_flagged,
        omega (arith, max_size-le y.size (f ∷ fs) best, get_elem?-le-max (f ∷ fs) _ y there),
      ),
    )

first_or_largest-KeepsAt :
    (f : DuplicateFile) (fs : List DuplicateFile) (is : List ℕ)
    → flagged_indices 0 (f ∷ fs) ≡ is
    → KeepsAt (f ∷ fs) (first_or_largest (f ∷ fs) is)
first_or_largest-KeepsAt f fs [] h = largest_KeepsAt f fs (flagged_indices-nil 0 (f ∷ fs) h)
first_or_largest-KeepsAt f fs (j ∷ js) h =
    let (k, y, ks, at, there, first) = flagged_indices-cons 0 (f ∷ fs) j js h in
    let same : j ≡ k = omega arith in (y, rw same there, inl (ks, first))

keeper-KeepsAt :
    (fs : List DuplicateFile) → fs ≢ [] → KeepsAt fs (first_or_largest fs (flagged_indices 0 fs))
keeper-KeepsAt [] h = absurd (h refl)
keeper-KeepsAt (f ∷ fs) h = first_or_largest-KeepsAt f fs _ refl

-- For a group that is not empty the keeper's index is that of a file of the group, which is the
-- first flagged file, or a file of the largest size where none is flagged.
pub get_keeper_index-KeepsAt :
    (g : DuplicateGroup) → g.files ≢ [] → KeepsAt g.files (get_keeper_index g)
unfolding get_keeper_index
get_keeper_index-KeepsAt g h = keeper-KeepsAt g.files h

keeper_size-KeepsAt :
    (fs : List DuplicateFile) (i : ℕ)
    → KeepsAt fs i
    → length (flagged fs) ≤ 1
    → sum_of file_size (erase_idx fs i) + keeper_size fs ≡ sum_of file_size fs
unfolding keeper_size
keeper_size-KeepsAt fs i (y, there, inr (nobody, largest)) h =
    rw nobody (omega (arith, sum_of-erase_idx fs i y there))
keeper_size-KeepsAt fs i (y, there, inl ([], only)) h =
    rw only (omega (arith, sum_of-erase_idx fs i y there))
keeper_size-KeepsAt fs i (y, there, inl (k ∷ ks, two)) h = absurd (omega (arith, ap length two))

derive-balance :
    (g : DuplicateGroup) (fs : List DuplicateFile)
    → g.files ≡ fs
    → fs ≢ []
    → ((derive g fs).total_size ≡ sum_of file_size g.files)
      × ((derive g fs).reclaimable + keeper_size g.files ≡ (derive g fs).total_size)
derive-balance g [] e h = absurd (h refl)
derive-balance g (f ∷ fs) e h = (refl, omega (arith, keeper_size-le g.files))

-- For a group that is not empty `__post_init__` sets `total_size` to the sum of the sizes, and
-- `reclaimable` to what is left of it after the keepers, a difference that is never negative.
pub post_init-balance :
    (g : DuplicateGroup)
    → g.files ≢ []
    → ((post_init g).total_size ≡ sum_of file_size g.files)
      × ((post_init g).reclaimable + keeper_size g.files ≡ (post_init g).total_size)
unfolding post_init
post_init-balance g h = derive-balance g g.files refl h

-- For a group that is not empty and has at most one flagged file, `reclaimable` is the sum of the
-- sizes of all files but the one at `get_keeper_index`.
pub post_init-erase_idx :
    (g : DuplicateGroup)
    → g.files ≢ []
    → length (flagged g.files) ≤ 1
    → (post_init g).reclaimable ≡ sum_of file_size (erase_idx g.files (get_keeper_index g))
post_init-erase_idx g h single = omega (
  arith,
  keeper_size-KeepsAt g.files (get_keeper_index g) (get_keeper_index-KeepsAt g h) single,
  post_init-balance g h,
)

derive-fields :
    (g : DuplicateGroup) (fs : List DuplicateFile)
    → ((derive g fs).files ≡ g.files)
      × ((derive g fs).group_id ≡ g.group_id)
      × ((derive g fs).similarity_type ≡ g.similarity_type)
derive-fields g [] = (refl, refl, refl)
derive-fields g (f ∷ fs) = (refl, refl, refl)

-- `__post_init__` leaves the other fields alone.
pub new_group-fields :
    (group_id : ℕ) (fs : List DuplicateFile) (kind : String)
    → ((new_group group_id fs kind).files ≡ fs)
      × ((new_group group_id fs kind).group_id ≡ group_id)
      × ((new_group group_id fs kind).similarity_type ≡ kind)
unfolding new_group
new_group-fields group_id fs kind = derive-fields _ fs

pub new_group-balance :
    (group_id : ℕ) (fs : List DuplicateFile) (kind : String)
    → fs ≢ []
    → ((new_group group_id fs kind).total_size ≡ sum_of file_size fs)
      × ((new_group group_id fs kind).reclaimable + keeper_size fs ≡ sum_of file_size fs)
unfolding new_group post_init
new_group-balance group_id fs kind h =
    let (total, balance) = derive-balance _ fs refl h in (total, omega (arith, total, balance))
