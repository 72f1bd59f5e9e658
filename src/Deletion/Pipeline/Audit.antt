-- ===== src/Deletion/Pipeline/Audit.antt =====
-- The audit's statuses.
use backhouse_dff.Base.{
  ℕ, ◌≡◌, refl, sym, ap, ◌∙◌, inl, inr, String, Bool, true, false, ◌||◌, Option, none, some, List,
  [], ◌∷◌, map, if◌then◌else◌, take, length, All, ◌==◌, text_key, contains, Bool-cases, arith,
  eqb_refl, or_left, or_right, map-map, take-length,
}
use backhouse_dff.Base.Dict.{insert, has, has-insert}
use backhouse_dff.Deletion.Adapters.{FileOps, SingleDeletionResult}
use backhouse_dff.Deletion.Engine.{BatchDeletionResult, execute_plan}
use backhouse_dff.Deletion.Engine.Account.{
  tally_of, attempts, permitted, permitted-none, execute_plan-attempts,
}
use backhouse_dff.Deletion.Plan.{or_default, ExecutableDeleteOperation, ExecutableDeletePlan}
use backhouse_dff.Deletion.Pipeline.{
  deleted, failed, skipped, DeletionResult, latch, execute_delete_plan, policy_of, failed_map,
  status_of, detail, result, plan_paths,
}

swap : (a b c : Bool) → (a || (b || c)) ≡ ((b || a) || c)
swap a b c = ground arith

among_deleted : (a c d : Bool) → {m : Bool} → m ≡ (c || d) → (a || m) ≡ ((a || c) || d)
among_deleted a c d h = ground arith

among_failed : (a c d : Bool) → {m : Bool} → m ≡ (c || d) → (a || m) ≡ (c || (a || d))
among_failed a c d h = ground arith

-- What a run under a test returns where it returns something.
passed {ℓ κ} :
    {A : Type ℓ} {B : Type κ} (b : Bool) (out : A × Option B) (a : A) {r : B}
    → (if b then out else (a, none)).1 ≡ some r
    → out.1 ≡ some r
passed true out a h = h
passed false out a h = ground arith

settle : (a c z : Bool) {m : Bool} → m ≡ (c || z) → (a || c) ≡ true → (a || m) ≡ true
settle a c z h k = ground arith

one_of_two :
    (a b : Bool)
    → (a || b) ≡ true
    → ¬ ((if a then deleted else if b then failed else skipped) ≡ skipped)
one_of_two a b h = ground arith

module _ {P : Type 0} (str : P → String) where
  has-failed_map :
      (failures : List (P × String)) (d : List (String × String)) (x : String)
      → has x (failed_map str failures d) ≡ (contains (map (λ f. str f.0) failures) x || has x d)
  has-failed_map [] d x = refl
  has-failed_map (f ∷ rest) d x =
      has-failed_map rest (insert (str f.0) f.1 d) x
      ∙ rw (has-insert (str f.0) x f.1 d)
          (swap (contains (map (λ g. str g.0) rest) x) (str f.0 == x) (has x d))

  contains-tally_of :
      (rs : List (SingleDeletionResult P)) (x : String)
      → contains (map (λ r. str r.path) rs) x ≡ (
          contains (map str (tally_of rs).deleted) x
          || contains (map (λ f. str f.0) (tally_of rs).failed) x)
  contains-tally_of [] x = refl
  contains-tally_of (r ∷ rs) x = elim (Bool-cases r.success) [
    | inl e ↦ rw e (among_deleted (str r.path == x) _ _ (contains-tally_of rs x))
    | inr e ↦ rw e (among_failed (str r.path == x) _ _ (contains-tally_of rs x))
  ]

  -- A path that is in one of the lists has a status other than `skipped`.
  status_of-listed :
      (b : BatchDeletionResult P) (x : String)
      → (contains (map str b.deleted) x || contains (map (λ f. str f.0) b.failed) x) ≡ true
      → ¬ (status_of str b x ≡ skipped)
  status_of-listed b x h =
      one_of_two (contains (map str b.deleted) x) (has x (failed_map str b.failed [])) (
        settle (contains (map str b.deleted) x) (contains (map (λ f. str f.0) b.failed) x)
          (has x []) (has-failed_map b.failed [] x) h)

  details-settled :
      (b : BatchDeletionResult P) (ops : List (ExecutableDeleteOperation P))
      → ((x : String)
          → contains (map (λ op. str op.path) ops) x ≡ true
          → ¬ (status_of str b x ≡ skipped))
      → All (λ d. ¬ (d.status ≡ skipped)) (map (detail str b) ops)
  details-settled b [] h = tt
  details-settled b (op ∷ ops) h = (
    h (str op.path)
        (or_left (contains (map (λ o. str o.path) ops) (str op.path)) (eqb_refl (str op.path))),
    details-settled b ops (λ x k. h x (or_right (str op.path == x) k)),
  )

module _ (ticks now : ℕ) (strip : String → String) {W P : Type 0} (fs : FileOps W P)
    (str : P → String) (record_deletion : DeletionResult P → W → W) where
  -- Without a callback the lists of the batch have every path of the plan.
  listed :
      (plan : ExecutableDeletePlan P) (w : W) (x : String)
      → contains (map (λ op. str op.path) plan.operations) x ≡ true
      → let out = (execute_plan fs none (policy_of plan.mode) (plan_paths plan) w).1 in
        (contains (map str out.deleted) x || contains (map (λ f. str f.0) out.failed) x) ≡ true
  listed plan w x h =
      let paths = map (λ op. op.path) plan.operations in
      let n = permitted none fs.name (length paths) 0 paths in
      let run = attempts fs (policy_of plan.mode) (take n paths) w in
      let account = execute_plan-attempts fs none (policy_of plan.mode) (plan_paths plan) w in
      let same =
        sym (map-map (λ r. r.path) str run.1)
        ∙ ap (map str) (
            account.0
            ∙ ap (λ k. take k paths) (permitted-none fs.name (length paths) 0 paths)
            ∙ take-length paths)
        ∙ map-map (λ op. op.path) str plan.operations in
      rw account.1 (sym (contains-tally_of str run.1 x) ∙ ap (λ l. contains l x) same ∙ h)

  -- Without a callback, which alone can stop a run, no operation of a plan that runs is recorded
  -- as skipped in the audit: each is deleted or failed.
  pub execute_delete_plan-settled :
      (plan : ExecutableDeletePlan P) (w : W) (res : DeletionResult P)
      → (execute_delete_plan ticks now strip fs str record_deletion none plan w).1 ≡ some res
      → All (λ d. ¬ (d.status ≡ skipped)) res.details
  unfolding execute_delete_plan
  execute_delete_plan-settled plan w res h =
      let out = (execute_plan fs none (policy_of plan.mode) (plan_paths plan) w).1 in
      let same =
        ap (or_default (result str plan out))
          (passed (latch ticks now strip plan.mode plan.token) _ _ h) in
      rw⁻¹ same (
        details-settled str out plan.operations
          (λ x k. status_of-listed str out x (listed plan w x k)))
