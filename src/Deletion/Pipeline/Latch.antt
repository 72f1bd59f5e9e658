-- ===== src/Deletion/Pipeline/Latch.antt =====
-- What the latch lets through.
use backhouse_dff.Base.{
  ℕ, ◌≡◌, refl, ap, inl, inr, String, Bool, true, false, Option, none, some, if◌then◌else◌, ◌==◌,
  text_key, arith,
}
use backhouse_dff.Safety.Gate.{default_config, new_gate, verify_token, is_uuid_hex}
use backhouse_dff.Safety.Gate.Tokens.{verify_token-accepts}
use backhouse_dff.Deletion.Adapters.{FileOps}
use backhouse_dff.Deletion.Engine.{Progress}
use backhouse_dff.Deletion.Engine.Trash.{other, execute_plan-trash}
use backhouse_dff.Deletion.Plan.{ExecutableDeletePlan}
use backhouse_dff.Deletion.Pipeline.{
  DeletionResult, token_passes, audited, plan_paths, execute_delete_plan,
}

some_fails : (test rest : Bool) → ¬ (rest ≡ true) → (if test then false else rest) ≡ false
some_fails test rest h = ground arith

module _ (ticks now : ℕ) (strip : String → String) where
  token_passes-eq_false :
      (token : Option String)
      → ((t : String) → token ≡ some t → is_uuid_hex (strip t) ≡ false)
      → token_passes ticks now strip token ≡ false
  token_passes-eq_false none h = refl
  token_passes-eq_false (some t) h =
      some_fails (t == "") (verify_token ticks strip (new_gate default_config) now (some t))
        (λ passed. elim (verify_token-accepts ticks strip (new_gate default_config) now t passed) [
          | inl active ↦ ground (arith, active)
          | inr plan ↦ ground (arith, plan, h t refl)
        ])

  module _ {W P : Type 0} (fs : FileOps W P) (str : P → String)
      (record_deletion : DeletionResult P → W → W) where
    -- A plan with the mode `permanent` whose token is missing, or does not consist of 32
    -- hexadecimal digits when stripped, raises and changes nothing.
    pub execute_delete_plan-eq-none :
        (progress : Progress) (plan : ExecutableDeletePlan P) (w : W)
        → plan.mode ≡ "permanent"
        → ((t : String) → plan.token ≡ some t → is_uuid_hex (strip t) ≡ false)
        → execute_delete_plan ticks now strip fs str record_deletion progress plan w ≡ (w, none)
    unfolding execute_delete_plan
    execute_delete_plan-eq-none progress plan w mode h =
        rw (mode, token_passes-eq_false plan.token h) refl

    -- A plan with any other mode never calls `os.remove` or `shutil.rmtree`: whatever these would
    -- do, the world and the result after the run are the same.
    pub execute_delete_plan-trash :
        (remove rmtree : W → P → W × Option String) (progress : Progress)
        (plan : ExecutableDeletePlan P) (w : W)
        → (plan.mode == "permanent") ≡ false
        → execute_delete_plan ticks now strip
            (other fs remove rmtree)
            str
            record_deletion
            progress
            plan
            w
          ≡ execute_delete_plan ticks now strip fs str record_deletion progress plan w
    unfolding execute_delete_plan
    execute_delete_plan-trash remove rmtree progress plan w mode = rw mode (
        ap (audited ticks now strip fs str record_deletion plan)
          (execute_plan-trash fs remove rmtree progress (plan_paths plan) w))
