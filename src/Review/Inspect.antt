-- ===== src/Review/Inspect.antt =====
-- cerebro/v2/ui/flet_app/pages/review_flow/state.py: the reference and the compare index of the
-- side-by-side view. Indices come from the user interface as Python integers.
pub mod Ring
mod Tests
use backhouse_dff.Base.{
  ℕ, zero, suc, ◌+◌, ◌-◌, ◌%◌, Bool, true, false, if◌then◌else◌, ltb, leb, ◌==◌, nat_key, not,
}
use backhouse_dff.Base.Int.{ℤ, pos, negsuc, nat_abs, clamp}

-- `if cmp_i == ref: cmp_i = (ref + 1) % n`
abbrev pub apart : ℕ → ℕ → ℕ → ℕ × ℕ
apart n ref cmp = (ref, if cmp == ref then (ref + 1) % n else cmp)

-- For one file or none the answer is (0, 0).
unfoldable pub normalize_inspect_ref_cmp : ℕ → ℤ → ℤ → ℕ × ℕ
normalize_inspect_ref_cmp zero ref cmp = (0, 0)
normalize_inspect_ref_cmp (suc zero) ref cmp = (0, 0)
normalize_inspect_ref_cmp (suc (suc m)) ref cmp =
    apart (suc (suc m)) (clamp ref (suc m)) (clamp cmp (suc m))

-- `(cur + direction) % n`, where the direction is 1 or -1. Python's `%` is never negative.
abbrev pub move : Bool → ℕ → ℕ → ℕ
move true n cur = (cur + 1) % n
move false n cur = (cur + n - 1) % n

-- The inner loop, `for __ in range(n + 2)`, of which the first argument is what is left.
unfoldable pub skip_ref : ℕ → Bool → ℕ → ℕ → ℕ → ℕ
skip_ref zero forward n ref cur = cur
skip_ref (suc tries) forward n ref cur =
    let next = move forward n cur in
    let rest = skip_ref tries forward n ref next in if next == ref then rest else next

-- The outer loop, `for _ in range(abs(delta))`.
unfoldable pub step_times : ℕ → Bool → ℕ → ℕ → ℕ → ℕ
step_times zero forward n ref cur = cur
step_times (suc k) forward n ref cur =
    step_times k forward n ref (skip_ref (n + 2) forward n ref cur)

-- `delta > 0`
abbrev pub is_positive : ℤ → Bool
is_positive (pos zero) = false
is_positive (pos (suc k)) = true
is_positive (negsuc k) = false

unfoldable pub step_inspect_cmp : ℕ → ℕ → ℕ → ℤ → ℕ
unfolding step_times
step_inspect_cmp n ref cmp delta =
    if ltb n 2 then cmp else step_times (nat_abs delta) (is_positive delta) n ref cmp

unfoldable pub inspect_left_right_indices : Bool → ℕ → ℕ → ℕ × ℕ
inspect_left_right_indices swap_panels ref cmp = if swap_panels then (cmp, ref) else (ref, cmp)

unfoldable pub pin_compare_as_new_reference : ℕ → ℕ → ℕ → ℕ × ℕ
pin_compare_as_new_reference n ref cmp =
    if ltb n 2
    then (ref, cmp)
    else normalize_inspect_ref_cmp n (pos cmp) (pos (step_inspect_cmp n cmp cmp (pos 1)))

abbrev pub repaired : ℕ → ℕ → ℕ → ℕ → ℕ
repaired n ref cmp new_ref =
    if not (cmp == new_ref) then cmp else if not (ref == new_ref) then ref else (new_ref + 1) % n

unfoldable pub make_index_reference : ℕ → ℕ → ℕ → ℤ → ℕ × ℕ
make_index_reference n ref cmp wanted =
    if ltb n 2
    then (0, 0)
    else let new_ref = clamp wanted (n - 1) in
      normalize_inspect_ref_cmp n (pos new_ref) (pos (repaired n ref cmp new_ref))
