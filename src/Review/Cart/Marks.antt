-- ===== src/Review/Cart/Marks.antt =====
-- Into which bucket a file falls after the operations that mark files.
use backhouse_dff.Base.{
  ℕ, zero, suc, ◌≡◌, refl, ap, sym, ◌∙◌, ◌≢◌, String, Bool, true, false, not, ◌||◌, List, [], ◌∷◌,
  Option, some, arith, contains, contains-filter, text_key, nat_key, if◌then◌else◌, ◌==◌, get_elem?,
  erase_idx, eqb_refl,
}
use native.Mathlib.Decide.{ℕ_discrete}
use backhouse_dff.Base.Dict.{lookup-insert}
use backhouse_dff.Engine.{DuplicateFile, DuplicateGroup}
use backhouse_dff.Review.Rules.{paths}
use backhouse_dff.Review.Flow.{
  ReviewFlowState, add, update, selection_of, apply_paths_for_group, inspect_keep_both,
}
use backhouse_dff.Review.Cart.{Bucket, bucket_of}

contains-add :
    (x : String) (xs : List String) (p : String) → contains (add x xs) p ≡ (x == p || contains xs p)
contains-add x xs p = ground (arith, text_key.eqb_iff x p)

contains-update :
    (ys xs : List String) (p : String)
    → contains (update ys xs) p ≡ (contains ys p || contains xs p)
contains-update [] xs p = refl
contains-update (y ∷ ys) xs p =
    ground (arith, contains-add y (update ys xs) p, contains-update ys xs p)

-- The selection of a group names the path as protected.
abbrev pub is_set_protected : ReviewFlowState → ℕ → String → Bool
is_set_protected st group_id path = contains (selection_of st group_id).protected_paths path

-- After `_apply_paths_for_group` a path of the group that its selection does not protect is to be
-- deleted if it is among the given paths or was marked before, and is to be kept otherwise.
pub bucket_of-apply :
    (st : ReviewFlowState) (g : DuplicateGroup) (delete_paths : List String) (path : String)
    → contains (paths g.files) path ≡ true
    → is_set_protected st g.group_id path ≡ false
    → bucket_of (apply_paths_for_group st g delete_paths) g.group_id path
      ≡ some (
          if contains delete_paths path || contains st.marked_paths path
          then Bucket.delete
          else Bucket.keep)
unfolding bucket_of apply_paths_for_group
bucket_of-apply st g delete_paths path inside free =
    rw (lookup-insert g.group_id g.group_id _ st.set_selections, eqb_refl g.group_id)
      (ground (
        arith,
        contains-update delete_paths st.marked_paths path,
        contains-filter (λ p. not (contains delete_paths p)) (paths g.files) path,
      ))

-- After `_inspect_keep_both` a path of the group that its selection does not protect is still to
-- be deleted where it was marked before, and is to be kept only where it was not.
pub bucket_of-keep_both :
    (st : ReviewFlowState) (g : DuplicateGroup) (path : String)
    → contains (paths g.files) path ≡ true
    → is_set_protected st g.group_id path ≡ false
    → bucket_of (inspect_keep_both st g) g.group_id path
      ≡ some (if contains st.marked_paths path then Bucket.delete else Bucket.keep)
unfolding bucket_of inspect_keep_both
bucket_of-keep_both st g path inside free =
    rw (lookup-insert g.group_id g.group_id _ st.set_selections, eqb_refl g.group_id) (ground arith)

contains-paths :
    (fs : List DuplicateFile) (k : ℕ) (f : DuplicateFile)
    → get_elem? fs k ≡ some f
    → contains (paths fs) f.path ≡ true
contains-paths [] k f h = cc
contains-paths (g ∷ fs) zero f h = ground (arith, eqb_refl f.path)
contains-paths (g ∷ fs) (suc k) f h = ground (arith, contains-paths fs k f)

contains-erase_idx :
    (fs : List DuplicateFile) (i k : ℕ) (f : DuplicateFile)
    → i ≢ k
    → get_elem? fs k ≡ some f
    → contains (paths (erase_idx fs i)) f.path ≡ true
contains-erase_idx [] i k f other h = cc
contains-erase_idx (g ∷ fs) zero zero f other h = absurd (other refl)
contains-erase_idx (g ∷ fs) zero (suc k) f other h = contains-paths fs k f h
contains-erase_idx (g ∷ fs) (suc i) zero f other h = ground (arith, eqb_refl f.path)
contains-erase_idx (g ∷ fs) (suc i) (suc k) f other h =
    ground (arith, contains-erase_idx fs i k f (λ e. other (ap suc e)))

apply-selection :
    (st : ReviewFlowState) (g : DuplicateGroup) (delete_paths : List String)
    → ((apply_paths_for_group st g delete_paths).marked_paths ≡ update delete_paths st.marked_paths)
      × ((selection_of (apply_paths_for_group st g delete_paths) g.group_id).protected_paths
          ≡ (selection_of st g.group_id).protected_paths)
unfolding apply_paths_for_group
apply-selection st g delete_paths =
    rw (lookup-insert g.group_id g.group_id _ st.set_selections, eqb_refl g.group_id) (refl, refl)

-- Two smart rules that keep different files of a group, applied one after the other, leave every
-- file of the group to be deleted, the keeper of the second rule included: no copy is kept. The
-- group's selection protects none of the files.
pub bucket_of-apply_twice :
    (st : ReviewFlowState) (g : DuplicateGroup) (i j k : ℕ) (f : DuplicateFile)
    → i ≢ j
    → get_elem? g.files k ≡ some f
    → is_set_protected st g.group_id f.path ≡ false
    → bucket_of
        (apply_paths_for_group
          (apply_paths_for_group st g (paths (erase_idx g.files i)))
          g
          (paths (erase_idx g.files j)))
        g.group_id
        f.path
      ≡ some Bucket.delete
bucket_of-apply_twice st g i j k f other there free =
    let first = paths (erase_idx g.files i) in
    let second = paths (erase_idx g.files j) in
    let between = apply_paths_for_group st g first in
    let (marks, same) = apply-selection st g first in
    let still : is_set_protected between g.group_id f.path ≡ false = rw same free in
    rw
      (
        bucket_of-apply between g second f.path (contains-paths g.files k f there) still,
        marks,
        contains-update first st.marked_paths f.path,
      )
      (in_one_of (ℕ_discrete i k))
  where
    in_one_of :
        Dec (i ≡ k)
        → Path
            (Option Bucket)
            (some (
              if contains (paths (erase_idx g.files j)) f.path
                || (contains (paths (erase_idx g.files i)) f.path
                    || contains st.marked_paths f.path)
              then Bucket.delete
              else Bucket.keep))
            (some Bucket.delete)
    in_one_of (yes e) = rw (contains-erase_idx g.files j k f (λ e'. other (e ∙ sym e')) there)
    in_one_of (no n) = ground (arith, contains-erase_idx g.files i k f n there)
