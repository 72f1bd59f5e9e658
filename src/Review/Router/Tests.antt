-- ===== src/Review/Router/Tests.antt =====
-- Through the three screens and back.
use backhouse_dff.Base.{◌≡◌, refl, true, false, [], ◌∷◌, some}
use backhouse_dff.Review.Flow.{ReviewScreen, ReviewFlowState}
use backhouse_dff.Review.Flow.Samples.{fresh}
use backhouse_dff.Review.Router.{navigate, back_target, allowed_forward}

abbrev inspecting : ReviewFlowState
inspecting = record fresh {
  active_screen = ReviewScreen.inspect;
  screen_stack = ReviewScreen.inspect ∷ ReviewScreen.browse ∷ ReviewScreen.overview ∷ [];
}

to_inspect :
    navigate (navigate fresh ReviewScreen.browse true) ReviewScreen.inspect true ≡ inspecting
unfolding navigate
to_inspect = refl

back_of_inspect : back_target inspecting ≡ some ReviewScreen.browse
unfolding back_target
back_of_inspect = refl

no_jump : allowed_forward fresh ReviewScreen.inspect ≡ false
unfolding allowed_forward
no_jump = refl
