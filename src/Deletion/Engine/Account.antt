-- ===== src/Deletion/Engine/Account.antt =====
-- The engine's result, against the attempts that it makes one after the other.
use backhouse_dff.Base.{
  ℕ, suc, ◌+◌, ◌≡◌, refl, sym, ap, ◌∙◌, inl, inr, Option, none, some, String, not, List, [], ◌∷◌,
  ◌++◌, map, arith, if◌then◌else◌, length, take, filter, sum_of, Bool-cases,
}
use mathlib.Core.Path.{ap₂}
use mathlib.Core.List.{append_assoc, append-nil}
use backhouse_dff.Deletion.Adapters.{
  FileOps, DeletionPolicy, trash, permanent, SingleDeletionResult, Attempt, done, raised, finish,
  trash_measured, remove_measured, measure, delete,
}
use backhouse_dff.Deletion.Engine.{
  PlanPaths, Progress, or_unknown, goes_on, Tally, empty_tally, count_result, delete_one,
  delete_from, batch, run_operations, execute_plan,
}

-- How many operations the callback lets start.
abbrev pub permitted : {P : Type 0} → Progress → (P → String) → (total i : ℕ) → List P → ℕ
permitted progress name total i [] = 0
permitted progress name total i (p ∷ ps) =
    let rest = permitted progress name total (suc i) ps in
    if goes_on progress i total (name p) then suc rest else 0

pub permitted-none :
    {P : Type 0} (name : P → String) (total i : ℕ) (ps : List P)
    → permitted none name total i ps ≡ length ps
permitted-none name total i [] = refl
permitted-none name total i (p ∷ ps) = ap suc (permitted-none name total (suc i) ps)

-- The tally of some results, read off the whole list of them.
abbrev pub tally_of : {P : Type 0} → List (SingleDeletionResult P) → Tally P
tally_of rs = record {
  deleted = map (λ r. r.path) (filter (λ r. r.success) rs);
  failed = map (λ r. (r.path, or_unknown r.error)) (filter (λ r. not r.success) rs);
  bytes_reclaimed = sum_of (λ r. r.bytes_reclaimed) (filter (λ r. r.success) rs);
}

abbrev pub join : {P : Type 0} → Tally P → Tally P → Tally P
join s t = record {
  deleted = s.deleted ++ t.deleted;
  failed = s.failed ++ t.failed;
  bytes_reclaimed = s.bytes_reclaimed + t.bytes_reclaimed;
}

module _ {W P : Type 0} (fs : FileOps W P) where
  -- The paths of a list deleted one after the other, with what each deletion says.
  abbrev pub attempts : DeletionPolicy → List P → W → W × List (SingleDeletionResult P)
  attempts policy [] w = (w, [])
  attempts policy (p ∷ ps) w =
      let next = delete_one fs w p policy in
      let rest = attempts policy ps next.0 in (rest.0, next.1 ∷ rest.1)

  tally-eq :
      (s t : Tally P)
      → s.deleted ≡ t.deleted
      → s.failed ≡ t.failed
      → s.bytes_reclaimed ≡ t.bytes_reclaimed
      → s ≡ t
  tally-eq s t d f b i = record { deleted = d i; failed = f i; bytes_reclaimed = b i }

  join-count_result :
      (t : Tally P) (r : SingleDeletionResult P) (rs : List (SingleDeletionResult P))
      → join (count_result t r) (tally_of rs) ≡ join t (tally_of (r ∷ rs))
  join-count_result t r rs = elim (Bool-cases r.success) [
    | inl e ↦ rw e (tally-eq _ _ (append_assoc t.deleted (r.path ∷ []) _) refl (omega arith))
    | inr e ↦
        rw e (tally-eq _ _ refl (append_assoc t.failed ((r.path, or_unknown r.error) ∷ []) _) refl)
  ]

  join-nil : (t : Tally P) → t ≡ join t (tally_of [])
  join-nil t = tally-eq _ _ (sym (append-nil t.deleted)) (sym (append-nil t.failed)) (omega arith)

  empty-join : (t : Tally P) → join empty_tally t ≡ t
  empty-join t = tally-eq _ _ refl refl (omega arith)

  delete_from_lem :
      (progress : Progress) (policy : DeletionPolicy) (total i : ℕ) (ps : List P) (w : W)
      (t : Tally P)
      → delete_from fs progress policy total i ps w t ≡ (
          let run = attempts policy (take (permitted progress fs.name total i ps) ps) w in
          (run.0, join t (tally_of run.1)))
  unfolding delete_from
  delete_from_lem progress policy total i [] w t = ap (λ s. (w, s)) (join-nil t)
  delete_from_lem progress policy total i (p ∷ ps) w t =
      elim (Bool-cases (goes_on progress i total (fs.name p))) [
        | inl e ↦ rw e (
            let next = delete_one fs w p policy in
            let rest =
              attempts policy (take (permitted progress fs.name total (suc i) ps) ps) next.0 in
            delete_from_lem progress policy total (suc i) ps next.0 (count_result t next.1)
            ∙ ap (λ s. (rest.0, s)) (join-count_result t next.1 rest.1))
        | inr e ↦ rw e (ap (λ s. (w, s)) (join-nil t))
      ]

  finish-path :
      (p : P) (policy : DeletionPolicy) (size : ℕ) (out : W × Option String)
      → (finish p policy size out).1.path ≡ p
  finish-path p policy size (w, none) = refl
  finish-path p policy size (w, some e) = refl

  trash_measured-path :
      (w : W) (p : P) (policy : DeletionPolicy) (size : Attempt ℕ)
      → (trash_measured fs w p policy size).1.path ≡ p
  trash_measured-path w p policy (done n) = finish-path p policy n _
  trash_measured-path w p policy (raised e) = refl

  remove_measured-path :
      (w : W) (p : P) (policy : DeletionPolicy) (size : Attempt ℕ)
      → (remove_measured fs w p policy size).1.path ≡ p
  remove_measured-path w p policy (done n) = finish-path p policy n _
  remove_measured-path w p policy (raised e) = refl

  delete_one-path :
      (w : W) (p : P) (policy : DeletionPolicy) → (delete_one fs w p policy).1.path ≡ p
  unfolding delete_one delete
  delete_one-path w p trash = elim (Bool-cases (fs.exists w p)) [
    | inl e ↦ rw e (trash_measured-path w p trash (measure fs w p))
    | inr e ↦ rw e refl
  ]
  delete_one-path w p permanent = elim (Bool-cases (fs.exists w p)) [
    | inl e ↦ rw e (remove_measured-path w p permanent (measure fs w p))
    | inr e ↦ rw e refl
  ]

  attempts-path :
      (policy : DeletionPolicy) (ps : List P) (w : W)
      → map (λ r. r.path) (attempts policy ps w).1 ≡ ps
  attempts-path policy [] w = refl
  attempts-path policy (p ∷ ps) w =
      let next = delete_one fs w p policy in
      ap₂ ◌∷◌ (delete_one-path w p policy) (attempts-path policy ps next.0)

  run_operations_lem :
      (progress : Progress) (policy : DeletionPolicy) (plan : PlanPaths P) (ps : List P) (w : W)
      → run_operations fs progress policy plan ps w ≡ (
          let started = take (permitted progress fs.name (length ps) 0 ps) ps in
          let run = attempts policy started w in batch fs plan (run.0, tally_of run.1))
  run_operations_lem progress policy plan [] w = refl
  run_operations_lem progress policy plan (p ∷ ps) w =
      let run =
        attempts policy (take (permitted progress fs.name (suc (length ps)) 0 (p ∷ ps)) (p ∷ ps))
          w in
      ap (batch fs plan) (
        delete_from_lem progress policy (suc (length ps)) 0 (p ∷ ps) w empty_tally
        ∙ ap (λ s. (run.0, s)) (empty-join (tally_of run.1)))

  -- `execute_plan` makes an attempt at each operation that the callback lets start, in their
  -- order. `deleted` has the paths of the successful ones, `failed` those of the others with their
  -- errors, and `bytes_reclaimed` is the sum over the successful ones.
  pub execute_plan-attempts :
      (progress : Progress) (policy : DeletionPolicy) (plan : PlanPaths P) (w : W)
      → let n = permitted progress fs.name (length plan.paths) 0 plan.paths in
        let run = attempts policy (take n plan.paths) w in
        (map (λ r. r.path) run.1 ≡ take n plan.paths)
        × (execute_plan fs progress policy plan w ≡ batch fs plan (run.0, tally_of run.1))
  unfolding execute_plan
  execute_plan-attempts progress policy plan w = (
    attempts-path policy
        (take (permitted progress fs.name (length plan.paths) 0 plan.paths) plan.paths) w,
    run_operations_lem progress policy plan plan.paths w,
  )
