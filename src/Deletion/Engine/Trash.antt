-- ===== src/Deletion/Engine/Trash.antt =====
-- Which operations of the file system a run to the trash uses.
use backhouse_dff.Base.{
  ℕ, suc, ◌≡◌, refl, ap, ◌∙◌, inl, inr, String, Option, List, [], ◌∷◌, length, Bool-cases,
}
use backhouse_dff.Deletion.Adapters.{FileOps, trash, delete}
use backhouse_dff.Deletion.Engine.{
  PlanPaths, Progress, goes_on, Tally, empty_tally, count_result, delete_one, delete_from, batch,
  run_operations, execute_plan,
}

module _ {W P : Type 0} (fs : FileOps W P) (remove rmtree : W → P → W × Option String) where
  -- The same file system with other ways to remove files and folders.
  abbrev pub other : FileOps W P
  other = record fs { remove = remove; rmtree = rmtree }

  delete_one-other : (w : W) (p : P) → delete_one other w p trash ≡ delete_one fs w p trash
  unfolding delete_one delete
  delete_one-other w p = refl

  delete_from-other :
      (progress : Progress) (total i : ℕ) (ps : List P) (w : W) (t : Tally P)
      → delete_from other progress trash total i ps w t
        ≡ delete_from fs progress trash total i ps w t
  unfolding delete_from
  delete_from-other progress total i [] w t = refl
  delete_from-other progress total i (p ∷ ps) w t =
      elim (Bool-cases (goes_on progress i total (fs.name p))) [
        | inl e ↦ rw e (
            ap
              (λ next.
                delete_from other progress trash total (suc i) ps next.0 (count_result t next.1))
              (delete_one-other w p)
            ∙ delete_from-other progress total (suc i) ps (delete_one fs w p trash).0
                (count_result t (delete_one fs w p trash).1))
        | inr e ↦ rw e refl
      ]

  run_operations-other :
      (progress : Progress) (plan : PlanPaths P) (ps : List P) (w : W)
      → run_operations other progress trash plan ps w ≡ run_operations fs progress trash plan ps w
  run_operations-other progress plan [] w = refl
  run_operations-other progress plan (p ∷ ps) w =
      ap (batch fs plan) (delete_from-other progress (suc (length ps)) 0 (p ∷ ps) w empty_tally)

  -- A run with the policy `trash` never calls `os.remove` or `shutil.rmtree`: whatever these
  -- would do, the world and the result after it are the same.
  pub execute_plan-trash :
      (progress : Progress) (plan : PlanPaths P) (w : W)
      → execute_plan other progress trash plan w ≡ execute_plan fs progress trash plan w
  unfolding execute_plan
  execute_plan-trash progress plan w = run_operations-other progress plan plan.paths w
