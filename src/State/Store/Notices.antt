-- ===== src/State/Store/Notices.antt =====
-- What the listeners of a store are told over a sequence of dispatches.
use backhouse_dff.Base.{
  ℕ, ◌≡◌, refl, ap, inl, inr, String, true, false, List, [], ◌∷◌, ◌++◌, map, Option, none, some,
  arith, contains, contains-append, nat_key, Bool-cases, Option-cases, ◌==◌, Distinct, filter,
  filter-append,
}
use backhouse_dff.State.Action.{Action}
use backhouse_dff.State.Model.{AppState}
use backhouse_dff.State.Reducer.{reduce}
use backhouse_dff.State.Reducer.Shape.{IsWellFormed, reduce-IsWellFormed}
use backhouse_dff.State.Store.{
  StateStore, Notice, prepend, subscribe, unsubscribe, remove, dispatch, dispatch_all,
}

-- The notices of one listener.
abbrev pub seen : ℕ → List Notice → List Notice
seen fn = filter (λ n. n.listener == fn)

abbrev notices_of : List ℕ → AppState → AppState → Action → List Notice
notices_of fns current old action =
    map (λ fn. record { listener = fn; current = current; old = old; action = action }) fns

seen_none :
    (fn : ℕ) (fns : List ℕ) (current old : AppState) (action : Action)
    → contains fns fn ≡ false
    → seen fn (notices_of fns current old action) ≡ []
seen_none fn [] current old action h = refl
seen_none fn (x ∷ fns) current old action h = ground (arith, seen_none fn fns current old action)

seen_once :
    (fn : ℕ) (fns : List ℕ) (current old : AppState) (action : Action)
    → Distinct fns
    → contains fns fn ≡ true
    → seen fn (notices_of fns current old action)
      ≡ record { listener = fn; current = current; old = old; action = action } ∷ []
seen_once fn [] current old action d h = cc
seen_once fn (x ∷ fns) current old action d h = elim (Bool-cases (x == fn)) [
  | inl e ↦
      let same : x ≡ fn = (nat_key.eqb_iff x fn).0 e in
      let gone : contains fns fn ≡ false = rw same at d.0 in
      rw (e, seen_none fn fns current old action gone, same)
  | inr e ↦ rw e (seen_once fn fns current old action d.1 (ground arith))
]

-- Notices that lead from one state to another: each begins where the one before it ended, and its
-- new state is the reducer's.
abbrev pub Chain : (String → String) → AppState → List Notice → AppState → Type 0
Chain norm s [] t = s ≡ t
Chain norm s (n ∷ ns) t =
    (n.old ≡ s) × (reduce norm s n.action ≡ some n.current) × Chain norm n.current ns t

prepend-eq-some :
    (first : List Notice) (m : Option (StateStore × List Notice)) {last : StateStore}
    {notices : List Notice}
    → prepend first m ≡ some (last, notices)
    → (more : List Notice) × (m ≡ some (last, more)) × (notices ≡ first ++ more)
prepend-eq-some first none h = absurd (ground arith)
prepend-eq-some first (some (l, more)) h = (more, ground arith, ground arith)

none-ne-some {ℓ} : {A : Type ℓ} {a : A} → none ≡ some a → ⊥
none-ne-some h = cc

-- The first dispatch of a sequence that ran through, and the rest.
module _ (norm : String → String) (st : StateStore) (a : Action) (rest : List Action)
    {last : StateStore} {notices : List Notice} where
  dispatch_all-cons :
      dispatch_all norm st (a ∷ rest) ≡ some (last, notices)
      → (current : AppState) × (reduce norm st.state a ≡ some current)
        × (more : List Notice) × (dispatch_all norm (record st { state = current }) rest
            ≡ some (last, more))
        × (notices ≡ notices_of st.listeners current st.state a ++ more)
  unfolding dispatch_all dispatch
  dispatch_all-cons h = elim (Option-cases (reduce norm st.state a)) [
    | inl e ↦ absurd (none-ne-some (rw (e, dispatch_all, dispatch) at h))
    | inr (current, e) ↦
        let k : prepend (notices_of st.listeners current st.state a)
              (dispatch_all norm (record st { state = current }) rest)
            ≡ some (last, notices) =
          rw (e, dispatch_all, dispatch) at h in
        let (more, later, split) = prepend-eq-some _ _ k in (current, e, more, later, split)
  ]

-- Every listener of the store hears of every dispatched action exactly once, in the order of the
-- dispatches, with the states before and after it; the listeners stay as they are.
pub dispatch_all-Chain :
    (norm : String → String) (st : StateStore) (actions : List Action) (fn : ℕ) {last : StateStore}
    {notices : List Notice}
    → Distinct st.listeners
    → contains st.listeners fn ≡ true
    → dispatch_all norm st actions ≡ some (last, notices)
    → Chain norm st.state (seen fn notices) last.state
      × (map (λ n. n.action) (seen fn notices) ≡ actions)
      × (last.listeners ≡ st.listeners)
unfolding dispatch_all
dispatch_all-Chain norm st [] fn d c h = ground arith
dispatch_all-Chain norm st (a ∷ rest) fn d c h =
    let (current, e, more, later, split) = dispatch_all-cons norm st a rest h in
    let (chain, actions, same) =
      dispatch_all-Chain norm (record st { state = current }) rest fn d c later in
    let first = seen_once fn st.listeners current st.state a d c in
    let parts =
      filter-append (λ (n : Notice). n.listener == fn) (notices_of st.listeners current st.state a)
        more in
    rw (split, parts, first) ((refl, e, chain), ap (◌∷◌ a) actions, same)

-- A store whose state is well formed stays so over every sequence of dispatches.
pub dispatch_all-IsWellFormed :
    (norm : String → String) (st : StateStore) (actions : List Action) {last : StateStore}
    {notices : List Notice}
    → IsWellFormed st.state
    → dispatch_all norm st actions ≡ some (last, notices)
    → IsWellFormed last.state
unfolding dispatch_all
dispatch_all-IsWellFormed norm st [] w h = ground arith
dispatch_all-IsWellFormed norm st (a ∷ rest) w h =
    let (current, e, more, later, split) = dispatch_all-cons norm st a rest h in
    dispatch_all-IsWellFormed norm (record st { state = current }) rest
      (reduce-IsWellFormed norm st.state a e w) later

-- `subscribe` keeps the listeners distinct and has the new one among them; after `unsubscribe` the
-- listener is gone.
pub subscribe-Distinct :
    (st : StateStore) (fn : ℕ)
    → Distinct st.listeners
    → Distinct (subscribe st fn).listeners
      × (contains (subscribe st fn).listeners fn ≡ true)
      × (contains (unsubscribe st fn).listeners fn ≡ false)
unfolding subscribe unsubscribe
subscribe-Distinct st fn d = elim (Bool-cases (contains st.listeners fn)) [
  | inl old ↦ rw old (d, old, remove-gone st.listeners d)
  | inr new ↦ rw new (
    Distinct-snoc st.listeners d new,
    ground (arith, contains-append st.listeners (fn ∷ []) fn),
    remove-gone st.listeners d,
  )
]
  where
    remove-gone : (xs : List ℕ) → Distinct xs → contains (remove fn xs) fn ≡ false
    remove-gone [] d = refl
    remove-gone (x ∷ xs) d = ground (arith, remove-gone xs d.1)

    Distinct-snoc : (xs : List ℕ) → Distinct xs → contains xs fn ≡ false → Distinct (xs ++ fn ∷ [])
    Distinct-snoc [] d h = (refl, tt)
    Distinct-snoc (x ∷ xs) d h =
        (ground (arith, contains-append xs (fn ∷ []) x), Distinct-snoc xs d.1 (ground arith))
