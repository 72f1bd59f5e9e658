-- ===== src/Deletion/Plan/Checks.antt =====
-- What a plan that is built holds, and when none is.
use backhouse_dff.Base.{
  ℕ, ◌≡◌, refl, sym, ap, ◌∙◌, ◌↔◌, inl, inr, String, Bool, true, false, not, ◌&&◌, ◌||◌, none, some,
  List, [], ◌∷◌, ◌++◌, map, arith, All, All-append, All-map, any, KeyEq, ◌==◌, contains, or_left,
  or_right, Bool-cases, text_key, eqb_refl,
}
use backhouse_dff.Deletion.Plan.{
  PathOps, GroupRequest, DeletionPlan, ExecutableDeleteOperation, ExecutableDeletePlan, resolved,
  or_default, total_bytes, deletable, group_operations, keeper_found, expand_group, expand,
  executable, unless_empty, build_delete_plan,
}

abbrev pub is_empty {ℓ} : {A : Type ℓ} → List A → Bool
is_empty [] = true
is_empty (x ∷ xs) = false

is_empty-append {ℓ} :
    {A : Type ℓ} (xs ys : List A) → is_empty (xs ++ ys) ≡ (is_empty xs && is_empty ys)
is_empty-append [] ys = refl
is_empty-append (x ∷ xs) ys = refl

not-eq_true : {a : Bool} → (b : Bool) → a ≡ not b → a ≡ true → b ≡ false
not-eq_true b h k = ground arith

not-eq_false : {a : Bool} → (b : Bool) → a ≡ not b → b ≡ false → a ≡ true
not-eq_false b h k = ground arith

both : {a b : Bool} → (c d : Bool) → a ≡ not c → b ≡ not d → (a && b) ≡ not (c || d)
both c d h k = ground arith

module _ {W P : Type 0} ⦃e : KeyEq P⦄ (fs : PathOps W P) (w : W) where
  -- Both files are there and they are not the same one.
  abbrev pub IsSafe : ExecutableDeleteOperation P → Type 0
  IsSafe op =
      (fs.exists w op.path ≡ true)
      × (fs.exists w op.kept_path ≡ true)
      × ((resolved fs w op.kept_path == resolved fs w op.path) ≡ false)

  -- The operation is one that the group asks for.
  abbrev pub asks_for : ExecutableDeleteOperation P → GroupRequest → Bool
  asks_for op g = fs.path g.keep == op.kept_path && contains (map fs.path g.delete) op.path

  abbrev IsOf : P → List String → ExecutableDeleteOperation P → Type 0
  IsOf keep texts op =
      IsSafe op × (op.kept_path ≡ keep) × (contains (map fs.path texts) op.path ≡ true)

  deletable-parts :
      (keep : P) (text : String)
      → deletable fs w keep text ≡ true
      → (fs.exists w (fs.path text) ≡ true)
        × ((resolved fs w keep == resolved fs w (fs.path text)) ≡ false)
  deletable-parts keep text h = ground arith

  asks :
      (g : GroupRequest) (op : ExecutableDeleteOperation P)
      → IsOf (fs.path g.keep) g.delete op
      → asks_for op g ≡ true
  asks g op is_of = rw (is_of.1, is_of.2, eqb_refl (fs.path g.keep)) refl

  found_exists : (text : String) → keeper_found fs w text ≡ true → fs.exists w (fs.path text) ≡ true
  found_exists text h = ground arith

  group_operations-IsOf :
      (idx : ℕ) (keep : P) (texts : List String)
      → fs.exists w keep ≡ true
      → All (IsOf keep texts) (group_operations fs w idx keep texts)
  group_operations-IsOf idx keep [] found = tt
  group_operations-IsOf idx keep (text ∷ rest) found =
      let later =
        All-map (IsOf keep rest) (IsOf keep (text ∷ rest)) (group_operations fs w idx keep rest)
          (λ op of. (of.0, of.1, or_right (fs.path text == op.path) of.2))
          (group_operations-IsOf idx keep rest found) in
      elim (Bool-cases (deletable fs w keep text)) [
        | inl ok ↦
            let parts = deletable-parts keep text ok in
            rw ok (
              (
                (parts.0, found, parts.1),
                refl,
                or_left (contains (map fs.path rest) (fs.path text)) (eqb_refl (fs.path text)),
              ),
              later,
            )
        | inr bad ↦ rw bad later
      ]

  expand_group-IsSafe :
      (g : GroupRequest) → All (λ op. IsSafe op × (asks_for op g ≡ true)) (expand_group fs w g)
  expand_group-IsSafe g = elim (Bool-cases (keeper_found fs w g.keep)) [
    | inl found ↦ rw found (
        All-map (IsOf (fs.path g.keep) g.delete) (λ op. IsSafe op × (asks_for op g ≡ true))
          (group_operations fs w g.group_index (fs.path g.keep) g.delete)
          (λ op is_of. (is_of.0, asks g op is_of))
          (group_operations-IsOf g.group_index (fs.path g.keep) g.delete
            (found_exists g.keep found)))
    | inr missing ↦ rw missing tt
  ]

  expand-IsSafe :
      (gs : List GroupRequest)
      → All (λ op. IsSafe op × (any (asks_for op) gs ≡ true)) (expand fs w gs)
  expand-IsSafe [] = tt
  expand-IsSafe (g ∷ gs) =
      All-append (λ op. IsSafe op × (any (asks_for op) (g ∷ gs) ≡ true)) (expand_group fs w g)
        (expand fs w gs)
        (All-map _ _ (expand_group fs w g) (λ op h. (h.0, or_left (any (asks_for op) gs) h.1))
          (expand_group-IsSafe g))
        (All-map _ _ (expand fs w gs) (λ op h. (h.0, or_right (asks_for op g) h.1))
          (expand-IsSafe gs))

  unless_empty-operations :
      (plan : DeletionPlan) (gs : List GroupRequest) (ops : List (ExecutableDeleteOperation P))
      (out : ExecutableDeletePlan P)
      → unless_empty fs w plan gs ops ≡ some out
      → out ≡ executable fs w plan ops
  unless_empty-operations plan [] ops out h = sym (ap (or_default (executable fs w plan ops)) h)
  unless_empty-operations plan (g ∷ gs) [] out h = ground arith
  unless_empty-operations plan (g ∷ gs) (op ∷ ops) out h =
      sym (ap (or_default (executable fs w plan (op ∷ ops))) h)

  -- Each operation of a plan that is built deletes a path which is there, keeps another which is
  -- there and resolves to another file, and is one that a group of the request asks for, with the
  -- path among those to delete and the kept path the one to keep. The bytes in the statistics are
  -- the sum of the operations' sizes.
  pub build_delete_plan-IsSafe :
      (plan : DeletionPlan) (out : ExecutableDeletePlan P)
      → build_delete_plan fs w plan ≡ some out
      → All (λ op. IsSafe op × (any (asks_for op) plan.groups ≡ true)) out.operations
        × (out.stats_bytes ≡ total_bytes out)
  unfolding build_delete_plan
  build_delete_plan-IsSafe plan out h =
      rw (unless_empty-operations plan plan.groups (expand fs w plan.groups) out h)
        (expand-IsSafe plan.groups, refl)

  -- A group of which something can be deleted: its keeper is there, and one of the paths to
  -- delete is given, is there and is not the keeper.
  abbrev pub useful : GroupRequest → Bool
  useful g = keeper_found fs w g.keep && any (deletable fs w (fs.path g.keep)) g.delete

  group_operations-null :
      (idx : ℕ) (keep : P) (texts : List String)
      → is_empty (group_operations fs w idx keep texts) ≡ not (any (deletable fs w keep) texts)
  group_operations-null idx keep [] = refl
  group_operations-null idx keep (text ∷ rest) = elim (Bool-cases (deletable fs w keep text)) [
    | inl ok ↦ rw ok refl
    | inr bad ↦ rw bad (group_operations-null idx keep rest)
  ]

  expand_group-null : (g : GroupRequest) → is_empty (expand_group fs w g) ≡ not (useful g)
  expand_group-null g = elim (Bool-cases (keeper_found fs w g.keep)) [
    | inl found ↦ rw found (group_operations-null g.group_index (fs.path g.keep) g.delete)
    | inr missing ↦ rw missing refl
  ]

  expand-null : (gs : List GroupRequest) → is_empty (expand fs w gs) ≡ not (any useful gs)
  expand-null [] = refl
  expand-null (g ∷ gs) =
      is_empty-append (expand_group fs w g) (expand fs w gs)
      ∙ both (useful g) (any useful gs) (expand_group-null g) (expand-null gs)

  unless_empty-none :
      (plan : DeletionPlan) (gs : List GroupRequest) (ops : List (ExecutableDeleteOperation P))
      → (unless_empty fs w plan gs ops ≡ none) ↔ ((is_empty gs ≡ false) × (is_empty ops ≡ true))
  unless_empty-none plan [] ops = ground arith
  unless_empty-none plan (g ∷ gs) [] = ground arith
  unless_empty-none plan (g ∷ gs) (op ∷ ops) = ground arith

  -- `build_delete_plan` raises exactly when the request has groups and nothing can be deleted of
  -- any of them.
  pub build_delete_plan-eq-none_iff :
      (plan : DeletionPlan)
      → (build_delete_plan fs w plan ≡ none)
        ↔ ((is_empty plan.groups ≡ false) × (any useful plan.groups ≡ false))
  unfolding build_delete_plan
  build_delete_plan-eq-none_iff plan =
      let step = unless_empty-none plan plan.groups (expand fs w plan.groups) in
      let same = expand-null plan.groups in
      (
        λ h. ((step.0 h).0, not-eq_true (any useful plan.groups) same (step.0 h).1),
        λ h. step.1 (h.0, not-eq_false (any useful plan.groups) same h.1),
      )
