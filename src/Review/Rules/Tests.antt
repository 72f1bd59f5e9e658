-- ===== src/Review/Rules/Tests.antt =====
-- Rules on three files.
use backhouse_dff.Base.{
  ℕ, ◌+◌, ◌≡◌, refl, false, [], ◌∷◌, none, some, arith, length, erase_idx, get_elem?, text_key,
}
use backhouse_dff.Base.Best.{best_index, best_from}
use backhouse_dff.Base.Dict.{lookup}
use backhouse_dff.Engine.{DuplicateFile}
use backhouse_dff.Engine.Samples.{three, three_group, file}
use backhouse_dff.Review.Rules.{
  Rule, Reason, rules, pick, apply_rule, paths, paths_to_delete, normalized_rule,
  apply_rule_with_pipeline, selection_reason_for_file,
}
use backhouse_dff.Review.Rules.Keeper.{IsBest, paths_to_delete-IsBest}

program : Unit {0}
unfolding lookup pick apply_rule paths_to_delete best_index best_from normalized_rule
    selection_reason_for_file apply_rule_with_pipeline
program = tt

delete_but_largest : paths_to_delete "keep_largest" three ≡ some ("/a" ∷ "/c" ∷ [])
unfolding program
delete_but_largest = refl

unknown_rule : paths_to_delete "keep_best" three ≡ none
unfolding program
unknown_rule = refl

-- An unknown rule falls back to the largest.
reason_of_copy :
    selection_reason_for_file (λ s. s) three_group (file "/c" 30 false) "keep_best"
    ≡ some (Reason.not_the_keeper "Keep Largest")
unfolding program
reason_of_copy = refl

regex_first :
    apply_rule_with_pipeline
      (λ s. s)
      (λ p. some (λ n. text_key.eqb n "/c"))
      (λ p. p)
      "keep_first"
      three
      "c"
    ≡ some 2
unfolding program
regex_first = refl

known_largest : lookup "keep_largest" rules ≡ some Rule.keep_largest
unfolding lookup
known_largest = refl

paths_to_delete-IsBest_example :
    (i : ℕ) × (y : DuplicateFile) × (apply_rule "keep_largest" three ≡ some i)
    × (get_elem? three i ≡ some y)
    × IsBest Rule.keep_largest three i y
    × (paths_to_delete "keep_largest" three ≡ some (paths (erase_idx three i)))
    × (length (paths (erase_idx three i)) + 1 ≡ length three)
paths_to_delete-IsBest_example =
    paths_to_delete-IsBest "keep_largest" Rule.keep_largest three known_largest (omega arith)
