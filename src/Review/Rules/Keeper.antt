-- ===== src/Review/Rules/Keeper.antt =====
-- The keeper that a rule picks, and the paths that it leaves to delete.
use native.Mathlib.Nat.{le_refl, le_trans}
use backhouse_dff.Base.{
  ℕ, zero, suc, ◌+◌, ◌≤◌, ◌<◌, ◌≡◌, refl, String, false, List, [], ◌∷◌, some, arith, length,
  length-map, length-erase_idx, erase_idx, text_key, ltb, get_elem?, All,
}
use backhouse_dff.Base.Best.{best_index, best_index-is_best}
use backhouse_dff.Base.Dict.{lookup}
use backhouse_dff.Engine.{DuplicateFile, file_size}
use backhouse_dff.Review.Rules.{
  Rule, rules, greater, mtime, pick, apply_rule, paths, paths_to_delete,
}

-- What each rule promises of the file at index `i`.
abbrev pub IsBest : Rule → List DuplicateFile → ℕ → DuplicateFile → Type 0
IsBest Rule.keep_largest files i y = All (λ f. f.size ≤ y.size) files
IsBest Rule.keep_smallest files i y = All (λ f. y.size ≤ f.size) files
IsBest Rule.keep_newest files i y = All (λ f. f.modified ≤ y.modified) files
IsBest Rule.keep_oldest files i y = All (λ f. y.modified ≤ f.modified) files
IsBest Rule.keep_first files i y = i ≡ 0

best-max :
    (key : DuplicateFile → ℕ) (f : DuplicateFile) (fs : List DuplicateFile)
    → (y : DuplicateFile) × (get_elem? (f ∷ fs) (best_index greater key (f ∷ fs)) ≡ some y)
      × All (λ z. key z ≤ key y) (f ∷ fs)
best-max key f fs =
    best_index-is_best greater key (λ a b. b ≤ a) le_refl (λ a b c h k. le_trans k h)
      (λ a b h. ground arith) (λ a b h. ground arith) f fs

best-min :
    (key : DuplicateFile → ℕ) (f : DuplicateFile) (fs : List DuplicateFile)
    → (y : DuplicateFile) × (get_elem? (f ∷ fs) (best_index ltb key (f ∷ fs)) ≡ some y)
      × All (λ z. key y ≤ key z) (f ∷ fs)
best-min key f fs =
    best_index-is_best ltb key (λ a b. a ≤ b) le_refl (λ a b c h k. le_trans h k)
      (λ a b h. ground arith) (λ a b h. ground arith) f fs

pick-IsBest :
    (rule : Rule) (f : DuplicateFile) (fs : List DuplicateFile)
    → (y : DuplicateFile) × (get_elem? (f ∷ fs) (pick rule (f ∷ fs)) ≡ some y)
      × IsBest rule (f ∷ fs) (pick rule (f ∷ fs)) y
unfolding pick
pick-IsBest Rule.keep_largest f fs = best-max file_size f fs
pick-IsBest Rule.keep_smallest f fs = best-min file_size f fs
pick-IsBest Rule.keep_newest f fs = best-max mtime f fs
pick-IsBest Rule.keep_oldest f fs = best-min mtime f fs
pick-IsBest Rule.keep_first f fs = (f, refl, refl)

get_elem?-lt :
    (fs : List DuplicateFile) (i : ℕ) (y : DuplicateFile) → get_elem? fs i ≡ some y → i < length fs
get_elem?-lt [] i y h = ground arith
get_elem?-lt (f ∷ fs) zero y h = omega arith
get_elem?-lt (f ∷ fs) (suc i) y h = omega (arith, get_elem?-lt fs i y h)

apply_rule-known :
    (rule : String) (r : Rule) (f : DuplicateFile) (fs : List DuplicateFile)
    → lookup rule rules ≡ some r
    → apply_rule rule (f ∷ fs) ≡ some (pick r (f ∷ fs))
unfolding apply_rule
apply_rule-known rule r f fs known = rw (known, apply_rule)

paths_to_delete-some :
    (rule : String) (files : List DuplicateFile) (i : ℕ)
    → 2 ≤ length files
    → apply_rule rule files ≡ some i
    → paths_to_delete rule files ≡ some (paths (erase_idx files i))
unfolding paths_to_delete
paths_to_delete-some rule files i h e =
    let many : ltb (length files) 2 ≡ false = ground arith in rw (many, e, paths_to_delete)

-- For a known rule and two files or more, `apply_rule` picks a file of the group that is best by
-- the rule, and `paths_to_delete` returns the paths of the files at all other indices, in their
-- order and one fewer than the files.
pub paths_to_delete-IsBest :
    (rule : String) (r : Rule) (files : List DuplicateFile)
    → lookup rule rules ≡ some r
    → 2 ≤ length files
    → (i : ℕ) × (y : DuplicateFile) × (apply_rule rule files ≡ some i)
      × (get_elem? files i ≡ some y)
      × IsBest r files i y
      × (paths_to_delete rule files ≡ some (paths (erase_idx files i)))
      × (length (paths (erase_idx files i)) + 1 ≡ length files)
paths_to_delete-IsBest rule r [] known h = absurd (omega arith)
paths_to_delete-IsBest rule r (f ∷ fs) known h =
    let (y, there, best) = pick-IsBest r f fs in
    let i = pick r (f ∷ fs) in
    let inside = get_elem?-lt (f ∷ fs) i y there in
    let applied = apply_rule-known rule r f fs known in
    (
      i,
      y,
      applied,
      there,
      best,
      paths_to_delete-some rule (f ∷ fs) i h applied,
      omega (
        arith,
        length-map (erase_idx (f ∷ fs) i) (λ g. g.path),
        length-erase_idx (f ∷ fs) i inside,
      ),
    )
