-- ===== src/Review/Router/Back.antt =====
-- The stack of screens and the way back.
use backhouse_dff.Base.{
  ◌≡◌, refl, sym, inl, inr, Bool-cases, Bool, true, false, List, [], ◌∷◌, if◌then◌else◌,
}
use backhouse_dff.Review.Flow.{ReviewScreen, ReviewFlowState}
use backhouse_dff.Review.Router.{
  same_screen, replace_top, navigate, pop_screen, go_back, reset_to_overview,
}

-- The active screen is the top of the stack, over the screens that lead back.
abbrev pub IsStacked : ReviewFlowState → Type 0
IsStacked st = (below : List ReviewScreen) × (st.screen_stack ≡ st.active_screen ∷ below)

-- The operations of the router.
pub data Step : Type 0 where
  navigate_to : ReviewScreen → Bool → Step
  back : Step
  reset : Step

pub run : ReviewFlowState → List Step → ReviewFlowState
unfolding navigate go_back reset_to_overview
run st [] = st
run st (navigate_to screen push ∷ steps) = run (navigate st screen push) steps
run st (back ∷ steps) = run (go_back st).0 steps
run st (reset ∷ steps) = run (reset_to_overview st) steps

replace_top-cons :
    (screen : ReviewScreen) (stack : List ReviewScreen)
    → (below : List ReviewScreen) × (replace_top screen stack ≡ screen ∷ below)
replace_top-cons screen [] = ([], refl)
replace_top-cons screen (top ∷ below) = (below, refl)

stack_with :
    (screen : ReviewScreen) (push : Bool) (stack : List ReviewScreen)
    → (below : List ReviewScreen) × ((if push then screen ∷ stack else replace_top screen stack)
        ≡ screen ∷ below)
stack_with screen true stack = (stack, refl)
stack_with screen false stack = replace_top-cons screen stack

navigate-IsStacked :
    (st : ReviewFlowState) (screen : ReviewScreen) (push : Bool)
    → IsStacked st
    → IsStacked (navigate st screen push)
unfolding navigate
navigate-IsStacked st screen push h = elim (Bool-cases (same_screen screen st.active_screen)) [
  | inl e ↦ rw e h
  | inr e ↦ rw e (stack_with screen push st.screen_stack)
]

pop_screen-IsStacked :
    (st : ReviewFlowState) (stack : List ReviewScreen)
    → IsStacked st
    → IsStacked (pop_screen st stack).0
pop_screen-IsStacked st [] h = h
pop_screen-IsStacked st (top ∷ []) h = h
pop_screen-IsStacked st (top ∷ below ∷ rest) h = (rest, refl)

go_back-IsStacked : (st : ReviewFlowState) → IsStacked st → IsStacked (go_back st).0
unfolding go_back
go_back-IsStacked st h = pop_screen-IsStacked st st.screen_stack h

abbrev head_or : ReviewScreen → List ReviewScreen → ReviewScreen
head_or d [] = d
head_or d (x ∷ xs) = x

nil-ne-cons {ℓ} : {A : Type ℓ} {x : A} {xs : List A} → [] ≡ x ∷ xs → ⊥
nil-ne-cons h = cc

-- Over every sequence of operations of the router the active screen is the top of the stack, and so
-- the stack is never empty.
pub run-IsStacked :
    (st : ReviewFlowState) (steps : List Step) → IsStacked st → IsStacked (run st steps)
unfolding run
run-IsStacked st [] h = h
run-IsStacked st (navigate_to screen push ∷ steps) h =
    run-IsStacked (navigate st screen push) steps (navigate-IsStacked st screen push h)
run-IsStacked st (back ∷ steps) h = run-IsStacked (go_back st).0 steps (go_back-IsStacked st h)
run-IsStacked st (reset ∷ steps) h = run-IsStacked (reset_to_overview st) steps ([], refl)

go_back-push :
    (st : ReviewFlowState) (screen : ReviewScreen) (stack below : List ReviewScreen)
    → st.screen_stack ≡ stack
    → stack ≡ st.active_screen ∷ below
    → pop_screen
        (record st { screen_stack = screen ∷ stack; active_screen = screen })
        (screen ∷ stack)
      ≡ (st, true)
go_back-push st screen [] below e h = absurd (nil-ne-cons h)
go_back-push st screen (top ∷ rest) below e h =
    λ i. (record st { screen_stack = sym e i; active_screen = head_or top (h i) }, true)

-- To go to another screen on top of the stack and back again gives the same state, and `go_back`
-- says that it moved.
pub go_back-navigate :
    (st : ReviewFlowState) (screen : ReviewScreen)
    → IsStacked st
    → same_screen screen st.active_screen ≡ false
    → go_back (navigate st screen true) ≡ (st, true)
unfolding go_back navigate
go_back-navigate st screen (below, h) other =
    rw other (go_back-push st screen st.screen_stack below refl h)
