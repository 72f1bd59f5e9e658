-- ===== src/Review/Router.antt =====
-- cerebro/v2/ui/flet_app/pages/review_flow/router.py: the screens of the review. The callback
-- `on_screen_changed` paints the screen and is left out; a stack is a list whose head is the last
-- entry of the Python list.
pub mod Back
mod Tests
use backhouse_dff.Base.{
  ℕ, Bool, true, false, List, [], ◌∷◌, Option, none, some, if◌then◌else◌, nat_beq, ltb, length, any,
}
use backhouse_dff.Review.Flow.{ReviewScreen, ReviewFlowState}

abbrev pub screen_code : ReviewScreen → ℕ
screen_code ReviewScreen.overview = 0
screen_code ReviewScreen.browse = 1
screen_code ReviewScreen.inspect = 2

abbrev pub same_screen : ReviewScreen → ReviewScreen → Bool
same_screen a b = nat_beq (screen_code a) (screen_code b)

-- `_BACK_TARGETS`
unfoldable pub back_target : ReviewFlowState → Option ReviewScreen
back_target st = elim st.active_screen [
  | ReviewScreen.overview ↦ none
  | ReviewScreen.browse ↦ some ReviewScreen.overview
  | ReviewScreen.inspect ↦ some ReviewScreen.browse
]

-- `_FORWARD_TRANSITIONS`
abbrev pub forward_transitions : ReviewScreen → List ReviewScreen
forward_transitions ReviewScreen.overview = ReviewScreen.browse ∷ []
forward_transitions ReviewScreen.browse = ReviewScreen.inspect ∷ []
forward_transitions ReviewScreen.inspect = ReviewScreen.browse ∷ []

unfoldable pub can_go_back : ReviewFlowState → Bool
can_go_back st = ltb 1 (length st.screen_stack)

-- `stack[-1] = screen`, or a stack of the one screen.
abbrev pub replace_top : ReviewScreen → List ReviewScreen → List ReviewScreen
replace_top screen [] = screen ∷ []
replace_top screen (top ∷ below) = screen ∷ below

unfoldable pub navigate : ReviewFlowState → ReviewScreen → Bool → ReviewFlowState
navigate st screen push = if same_screen screen st.active_screen then st else record st {
  screen_stack = if push then screen ∷ st.screen_stack else replace_top screen st.screen_stack;
  active_screen = screen;
}

abbrev pub pop_screen : ReviewFlowState → List ReviewScreen → ReviewFlowState × Bool
pop_screen st (top ∷ below ∷ rest) =
    (record st { screen_stack = below ∷ rest; active_screen = below }, true)
pop_screen st _ = (st, false)

unfoldable pub go_back : ReviewFlowState → ReviewFlowState × Bool
go_back st = pop_screen st st.screen_stack

unfoldable pub reset_to_overview : ReviewFlowState → ReviewFlowState
reset_to_overview st = record st {
  screen_stack = ReviewScreen.overview ∷ [];
  active_screen = ReviewScreen.overview;
}

unfoldable pub allowed_forward : ReviewFlowState → ReviewScreen → Bool
allowed_forward st screen = any (λ s. same_screen s screen) (forward_transitions st.active_screen)
