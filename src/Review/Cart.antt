-- ===== src/Review/Cart.antt =====
-- `cart_buckets` of cerebro/v2/ui/flet_app/pages/review_flow/state.py: what an apply would delete,
-- keep and leave alone.
pub mod Buckets
pub mod Marks
mod Tests
use backhouse_dff.Base.{
  ℕ, String, Bool, true, false, ◌||◌, List, [], ◌∷◌, ◌++◌, Option, none, some, contains, text_key,
  nat_key, if◌then◌else◌, ◌==◌,
}
use backhouse_dff.Base.Dict.{lookup}
use backhouse_dff.Engine.{DuplicateFile, DuplicateGroup}
use backhouse_dff.Review.Flow.{SetSelection, ReviewFlowState}

-- The bucket of `cart_buckets` that a file falls into, if any.
pub data Bucket : Type 0 where
  delete keep protected : Bucket

abbrev pub if_not_protected : List String → SetSelection → String → Option Bucket
if_not_protected marked sel path =
    if contains marked path || contains sel.deleted_paths path
    then some Bucket.delete
    else if contains sel.kept_paths path
    then some Bucket.keep
    else none

abbrev pub bucket_in : List String → Option SetSelection → String → Option Bucket
bucket_in marked none path = if contains marked path then some Bucket.delete else none
bucket_in marked (some sel) path =
    if contains sel.protected_paths path
    then some Bucket.protected
    else if_not_protected marked sel path

unfoldable pub bucket_of : ReviewFlowState → ℕ → String → Option Bucket
bucket_of st group_id path = bucket_in st.marked_paths (lookup group_id st.set_selections) path

pub record Cart : Type 0 where
  pub to_delete : List DuplicateFile
  pub to_keep : List DuplicateFile
  pub protected_files : List DuplicateFile

abbrev pub put : Cart → DuplicateFile → Option Bucket → Cart
put cart f none = cart
put cart f (some Bucket.delete) = record cart { to_delete = cart.to_delete ++ f ∷ [] }
put cart f (some Bucket.keep) = record cart { to_keep = cart.to_keep ++ f ∷ [] }
put cart f (some Bucket.protected) = record cart {
  protected_files = cart.protected_files ++ f ∷ [];
}

-- The loop over the files of a group, and the loop over the groups.
unfoldable pub cart_files : ReviewFlowState → ℕ → Cart → List DuplicateFile → Cart
unfolding bucket_of
cart_files st group_id cart [] = cart
cart_files st group_id cart (f ∷ fs) =
    cart_files st group_id (put cart f (bucket_of st group_id f.path)) fs

unfoldable pub cart_groups : ReviewFlowState → Cart → List DuplicateGroup → Cart
unfolding cart_files
cart_groups st cart [] = cart
cart_groups st cart (g ∷ gs) = cart_groups st (cart_files st g.group_id cart g.files) gs

unfoldable pub cart_buckets : ReviewFlowState → Cart
unfolding cart_groups
cart_buckets st =
    cart_groups st (record { to_delete = []; to_keep = []; protected_files = [] }) st.scan_results
