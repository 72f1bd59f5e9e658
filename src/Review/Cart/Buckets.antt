-- ===== src/Review/Cart/Buckets.antt =====
-- The three lists of the cart against the bucket of each file.
use mathlib.Core.List.{append_assoc, append-nil}
use backhouse_dff.Base.{
  ◌∙◌, ℕ, ◌≡◌, refl, sym, inl, inr, Bool, true, false, List, [], ◌∷◌, ◌++◌, Option, none, some,
  filter, if◌then◌else◌, Bool-cases, String, not, ◌&&◌, ◌||◌, contains, text_key, nat_key,
  Option-cases,
}
use backhouse_dff.Base.Dict.{lookup}
use backhouse_dff.Engine.{DuplicateFile, DuplicateGroup}
use backhouse_dff.Review.Flow.{ReviewFlowState, selection_of}
use backhouse_dff.Review.Cart.Marks.{is_set_protected}
use backhouse_dff.Review.Cart.{Bucket, Cart, put, bucket_of, cart_files, cart_groups, cart_buckets}

abbrev pub falls_in : Bucket → Option Bucket → Bool
falls_in Bucket.delete (some Bucket.delete) = true
falls_in Bucket.keep (some Bucket.keep) = true
falls_in Bucket.protected (some Bucket.protected) = true
falls_in _ _ = false

-- What puts a path into a bucket: a protected one is left alone; of the others one that is marked,
-- or that the group's selection deletes, is to be deleted, and one that is neither and that the
-- selection keeps is to be kept.
abbrev pub belongs : Bucket → (guarded marked deleted kept : Bool) → Bool
belongs Bucket.protected guarded marked deleted kept = guarded
belongs Bucket.delete guarded marked deleted kept = not guarded && (marked || deleted)
belongs Bucket.keep guarded marked deleted kept = not guarded && not marked && not deleted && kept

abbrev pub belongs_to : ReviewFlowState → ℕ → String → Bucket → Bool
belongs_to st group_id path b =
    belongs b (is_set_protected st group_id path) (contains st.marked_paths path)
      (contains (selection_of st group_id).deleted_paths path)
      (contains (selection_of st group_id).kept_paths path)

-- The files of the groups that belong to a bucket, in the order of the groups.
abbrev pub files_in : ReviewFlowState → Bucket → List DuplicateGroup → List DuplicateFile
files_in st b [] = []
files_in st b (g ∷ gs) = filter (λ f. belongs_to st g.group_id f.path b) g.files ++ files_in st b gs

-- The four tests of a path, with a selection and without one.
without_selection :
    (b : Bucket) (marked : Bool)
    → falls_in b (if marked then some Bucket.delete else none) ≡ belongs b false marked false false
without_selection Bucket.delete true = refl
without_selection Bucket.delete false = refl
without_selection Bucket.keep true = refl
without_selection Bucket.keep false = refl
without_selection Bucket.protected true = refl
without_selection Bucket.protected false = refl

with_selection :
    (b : Bucket) (guarded marked deleted kept : Bool)
    → falls_in b (
        if guarded
        then some Bucket.protected
        else if marked || deleted
        then some Bucket.delete
        else if kept
        then some Bucket.keep
        else none)
      ≡ belongs b guarded marked deleted kept
with_selection Bucket.delete true marked deleted kept = refl
with_selection Bucket.keep true marked deleted kept = refl
with_selection Bucket.protected true marked deleted kept = refl
with_selection Bucket.delete false true deleted kept = refl
with_selection Bucket.keep false true deleted kept = refl
with_selection Bucket.protected false true deleted kept = refl
with_selection Bucket.delete false false true kept = refl
with_selection Bucket.keep false false true kept = refl
with_selection Bucket.protected false false true kept = refl
with_selection Bucket.delete false false false true = refl
with_selection Bucket.keep false false false true = refl
with_selection Bucket.protected false false false true = refl
with_selection Bucket.delete false false false false = refl
with_selection Bucket.keep false false false false = refl
with_selection Bucket.protected false false false false = refl

falls_in-bucket_of :
    (st : ReviewFlowState) (b : Bucket) (group_id : ℕ) (path : String)
    → falls_in b (bucket_of st group_id path) ≡ belongs_to st group_id path b
unfolding bucket_of
falls_in-bucket_of st b group_id path = elim (Option-cases (lookup group_id st.set_selections)) [
  | inl out ↦ rw out (without_selection b (contains st.marked_paths path))
  | inr found ↦ rw found.1 (
      with_selection b (contains found.0.protected_paths path) (contains st.marked_paths path)
        (contains found.0.deleted_paths path) (contains found.0.kept_paths path))
]

-- A bucket of a cart.
abbrev pub cart_list : Bucket → Cart → List DuplicateFile
cart_list Bucket.delete cart = cart.to_delete
cart_list Bucket.keep cart = cart.to_keep
cart_list Bucket.protected cart = cart.protected_files

cart_list-put :
    (b : Bucket) (cart : Cart) (f : DuplicateFile) (o : Option Bucket)
    → cart_list b (put cart f o)
      ≡ (if falls_in b o then cart_list b cart ++ f ∷ [] else cart_list b cart)
cart_list-put Bucket.delete cart f none = refl
cart_list-put Bucket.keep cart f none = refl
cart_list-put Bucket.protected cart f none = refl
cart_list-put Bucket.delete cart f (some Bucket.delete) = refl
cart_list-put Bucket.delete cart f (some Bucket.keep) = refl
cart_list-put Bucket.delete cart f (some Bucket.protected) = refl
cart_list-put Bucket.keep cart f (some Bucket.delete) = refl
cart_list-put Bucket.keep cart f (some Bucket.keep) = refl
cart_list-put Bucket.keep cart f (some Bucket.protected) = refl
cart_list-put Bucket.protected cart f (some Bucket.delete) = refl
cart_list-put Bucket.protected cart f (some Bucket.keep) = refl
cart_list-put Bucket.protected cart f (some Bucket.protected) = refl

module _ (st : ReviewFlowState) (b : Bucket) where
  cart_files-filter :
      (group_id : ℕ) (cart : Cart) (fs : List DuplicateFile)
      → cart_list b (cart_files st group_id cart fs)
        ≡ cart_list b cart ++ filter (λ f. belongs_to st group_id f.path b) fs
  unfolding cart_files
  cart_files-filter group_id cart [] = sym (append-nil _)
  cart_files-filter group_id cart (f ∷ fs) =
      let o = bucket_of st group_id f.path in
      let ih = cart_files-filter group_id (put cart f o) fs in
      let one = cart_list-put b cart f o in
      let same = sym (falls_in-bucket_of st b group_id f.path) in
      elim (Bool-cases (falls_in b o)) [
        | inl e ↦
            let there = same ∙ e in
            rw (ih, one, e, there) (append_assoc (cart_list b cart) (f ∷ []) _)
        | inr e ↦ let gone = same ∙ e in rw (ih, one, e, gone) refl
      ]

  cart_groups-files_in :
      (cart : Cart) (gs : List DuplicateGroup)
      → cart_list b (cart_groups st cart gs) ≡ cart_list b cart ++ files_in st b gs
  unfolding cart_groups
  cart_groups-files_in cart [] = sym (append-nil _)
  cart_groups-files_in cart (g ∷ gs) =
      rw
        (
          cart_groups-files_in (cart_files st g.group_id cart g.files) gs,
          cart_files-filter g.group_id cart g.files,
        )
        (append_assoc (cart_list b cart) _ _)

cart_list-empty :
    (b : Bucket) → cart_list b (record { to_delete = []; to_keep = []; protected_files = [] }) ≡ []
cart_list-empty Bucket.delete = refl
cart_list-empty Bucket.keep = refl
cart_list-empty Bucket.protected = refl

-- Each list of `cart_buckets` holds exactly those files of the scan results that belong to it, in
-- their order: a file that its group's selection protects is listed as protected, whatever its
-- marks; another is to be deleted if it is marked or the selection deletes it, and is to be kept if
-- it is neither and the selection keeps it.
pub cart_buckets-files_in :
    (st : ReviewFlowState) (b : Bucket)
    → cart_list b (cart_buckets st) ≡ files_in st b st.scan_results
unfolding cart_buckets
cart_buckets-files_in st b = rw (cart_groups-files_in st b _ st.scan_results, cart_list-empty b)
