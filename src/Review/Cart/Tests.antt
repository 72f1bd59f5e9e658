-- ===== src/Review/Cart/Tests.antt =====
-- The cart of the sample review.
use backhouse_dff.Base.{
  ◌≡◌, refl, arith, String, false, ◌||◌, [], ◌∷◌, some, erase_idx, contains, text_key,
  if◌then◌else◌,
}
use backhouse_dff.Base.Dict.{lookup, insert}
use backhouse_dff.Engine.Samples.{three, three_group, file}
use backhouse_dff.Review.Rules.{paths}
use backhouse_dff.Review.Flow.{ReviewFlowState, apply_paths_for_group, inspect_keep_both}
use backhouse_dff.Review.Flow.Samples.{fresh}
use backhouse_dff.Review.Cart.{Bucket, bucket_of, cart_buckets}
use backhouse_dff.Review.Cart.Buckets.{cart_list, files_in, cart_buckets-files_in}
use backhouse_dff.Review.Cart.Marks.{bucket_of-apply, bucket_of-keep_both, bucket_of-apply_twice}

program : Unit {0}
unfolding lookup insert apply_paths_for_group inspect_keep_both bucket_of cart_buckets
program = tt

abbrev marked : ReviewFlowState
marked = record fresh { marked_paths = "/a" ∷ [] }

-- Keep the largest file, and then the smallest: all three are to be deleted.
all_to_delete :
    paths
      (cart_buckets (
        apply_paths_for_group
          (apply_paths_for_group fresh three_group ("/a" ∷ "/c" ∷ []))
          three_group
          ("/b" ∷ "/c" ∷ []))).to_delete
    ≡ "/a" ∷ "/b" ∷ "/c" ∷ []
unfolding program
all_to_delete = refl

bucket_of-apply_example :
    bucket_of (apply_paths_for_group fresh three_group ("/b" ∷ [])) 1 "/a"
    ≡ some (
        if contains {A = String} ("/b" ∷ []) "/a" || contains fresh.marked_paths "/a"
        then Bucket.delete
        else Bucket.keep)
unfolding lookup
bucket_of-apply_example = bucket_of-apply fresh three_group ("/b" ∷ []) "/a" refl refl

bucket_of-keep_both_example :
    bucket_of (inspect_keep_both marked three_group) 1 "/a"
    ≡ some (if contains marked.marked_paths "/a" then Bucket.delete else Bucket.keep)
unfolding lookup
bucket_of-keep_both_example = bucket_of-keep_both marked three_group "/a" refl refl

bucket_of-apply_twice_example :
    bucket_of
      (apply_paths_for_group
        (apply_paths_for_group fresh three_group (paths (erase_idx three 1)))
        three_group
        (paths (erase_idx three 0)))
      1
      "/a"
    ≡ some Bucket.delete
unfolding lookup
bucket_of-apply_twice_example =
    bucket_of-apply_twice fresh three_group 1 0 0 (file "/a" 10 false) (λ e. omega arith) refl refl

cart_buckets-files_in_example :
    cart_list Bucket.delete (cart_buckets marked)
    ≡ files_in marked Bucket.delete marked.scan_results
cart_buckets-files_in_example = cart_buckets-files_in marked Bucket.delete
