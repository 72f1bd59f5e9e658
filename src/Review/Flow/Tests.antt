-- ===== src/Review/Flow/Tests.antt =====
-- Undo, redo and reconciliation on the sample review.
use backhouse_dff.Base.{◌≡◌, refl, String, true, List, [], ◌∷◌, length, text_key, nat_key, some}
use backhouse_dff.Base.Dict.{insert}
use backhouse_dff.Engine.{DuplicateGroup}
use backhouse_dff.Engine.Samples.{three_group}
use backhouse_dff.Review.Flow.{
  ReviewFlowState, snapshot, apply_paths_for_group, browse_toggle_file_mark, marked_bytes,
  is_path_protected, group_by_id,
}
use backhouse_dff.Review.Flow.Samples.{fresh}
use backhouse_dff.Review.Flow.Undo.{apply_all, undo_times, undo_times-apply_all}

abbrev changes : List (DuplicateGroup × List String)
changes = (three_group, "/a" ∷ []) ∷ (three_group, "/b" ∷ "/c" ∷ []) ∷ []

abbrev applied : ReviewFlowState
unfolding apply_paths_for_group insert
applied = apply_paths_for_group fresh three_group ("/a" ∷ [])

marked_ten : marked_bytes (browse_toggle_file_mark fresh "/a" 1 true) ≡ 10
unfolding marked_bytes browse_toggle_file_mark
marked_ten = refl

protected_prefix : is_path_protected (λ p. p) (λ s p. text_key.eqb s p) fresh "/windows" ≡ true
unfolding is_path_protected
protected_prefix = refl

found_group : group_by_id fresh.scan_results 1 ≡ some three_group
unfolding group_by_id
found_group = refl

undo_times-apply_all_example :
    (snapshot (undo_times (length changes) (apply_all fresh changes)) ≡ snapshot fresh)
    × ((undo_times (length changes) (apply_all fresh changes)).undo_stack ≡ fresh.undo_stack)
undo_times-apply_all_example = undo_times-apply_all fresh changes
