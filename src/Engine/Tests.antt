-- ===== src/Engine/Tests.antt =====
-- Small groups.
use mathlib.Core.Path.{◌≡◌, refl}
use backhouse_dff.Base.{◌≢◌, [], arith}
use backhouse_dff.Engine.{keeper_size, new_group, flagged_indices, get_keeper_index}
use backhouse_dff.Engine.Samples.{three, three_group}
use backhouse_dff.Base.Best.{best_index, best_from}

three_keeper : get_keeper_index three_group ≡ 1
unfolding get_keeper_index flagged_indices best_index best_from
three_keeper = refl

three_reclaimable : (new_group 1 three "exact").reclaimable ≡ 40
unfolding new_group keeper_size
three_reclaimable = refl

three-ne-nil : three ≢ []
three-ne-nil h = ground arith
