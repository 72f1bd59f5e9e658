-- ===== src/Review/Inspect/Tests.antt =====
-- The view of a group of four files.
use backhouse_dff.Base.{◌≡◌, refl, true, nat_key}
use backhouse_dff.Base.Int.{pos, negsuc}
use backhouse_dff.Review.Inspect.{
  normalize_inspect_ref_cmp, step_inspect_cmp, step_times, skip_ref, inspect_left_right_indices,
}

normalize_out_of_range : normalize_inspect_ref_cmp 4 (pos 9) (negsuc 2) ≡ (3, 0)
unfolding normalize_inspect_ref_cmp
normalize_out_of_range = refl

step_over : step_inspect_cmp 4 2 1 (pos 2) ≡ 0
unfolding step_inspect_cmp step_times skip_ref
step_over = refl

step_back : step_inspect_cmp 4 2 0 (negsuc 1) ≡ 1
unfolding step_inspect_cmp step_times skip_ref
step_back = refl

left_right : inspect_left_right_indices true 1 2 ≡ (2, 1)
unfolding inspect_left_right_indices
left_right = refl
