-- ===== src/Review/Flow/Alive.antt =====
-- What a delete leaves of the marks and the selections.
use backhouse_dff.Base.{
  ℕ, ◌≡◌, ap, inl, inr, String, Bool, true, List, [], ◌∷◌, map, Option, none, some, arith, contains,
  contains-filter, text_key, nat_key, Bool-cases, ◌==◌, ◌&&◌,
}
use backhouse_dff.Base.Dict.{lookup}
use backhouse_dff.Engine.{DuplicateGroup}
use backhouse_dff.Review.Flow.{
  SetSelection, ReviewFlowState, alive_paths, alive_selection, alive_selections,
  reconcile_state_after_delete,
}

abbrev pub group_ids : List DuplicateGroup → List ℕ
group_ids = map (λ g. g.group_id)

-- The selection of a group after the reconciliation.
abbrev pub reconciled : Bool → List String → Option SetSelection → Option SetSelection
reconciled true alive (some sel) = some (alive_selection alive sel)
reconciled _ _ _ = none

lookup-alive_selections :
    (ids : List ℕ) (alive : List String) (m : List (ℕ × SetSelection)) (gid : ℕ)
    → lookup gid (alive_selections ids alive m) ≡ reconciled (contains ids gid) alive (lookup gid m)
unfolding lookup alive_selections
lookup-alive_selections ids alive [] gid = ground arith
lookup-alive_selections ids alive ((k, sel) ∷ m) gid = elim (Bool-cases (k == gid)) [
  | inl same ↦
      let q = ap (λ x. contains ids x) ((nat_key.eqb_iff k gid).0 same) in
      ground (arith, lookup-alive_selections ids alive m gid, q)
  | inr other ↦ ground (arith, lookup-alive_selections ids alive m gid)
]

-- After `_reconcile_state_after_delete` a path is marked exactly if it was marked before and a
-- remaining group has it, and a group has a selection exactly if it had one and remains; of its
-- paths those are left that a remaining group has.
pub reconcile-alive :
    (st : ReviewFlowState) (new_groups : List DuplicateGroup) (path : String) (gid : ℕ)
    → (contains (reconcile_state_after_delete st new_groups).marked_paths path
        ≡ (contains (alive_paths new_groups) path && contains st.marked_paths path))
      × (lookup gid (reconcile_state_after_delete st new_groups).set_selections
          ≡ reconciled
              (contains (group_ids new_groups) gid)
              (alive_paths new_groups)
              (lookup gid st.set_selections))
unfolding reconcile_state_after_delete
reconcile-alive st new_groups path gid = (
  contains-filter (λ p. contains (alive_paths new_groups) p) st.marked_paths path,
  lookup-alive_selections (group_ids new_groups) (alive_paths new_groups) st.set_selections gid,
)
