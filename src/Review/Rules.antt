-- ===== src/Review/Rules.antt =====
-- cerebro/v2/ui/flet_app/pages/review/smart_rules.py and review_flow/trust_labels.py: which file of
-- a group to keep. A kept file is named by its index, since the source tells files apart by `is`;
-- `none` is a ValueError. `strip` is `str.strip`, of the language.
pub mod Keeper
mod Tests
use backhouse_dff.Base.{
  ℕ, suc, String, Bool, true, false, List, [], ◌∷◌, map, Option, none, some, length, erase_idx,
  contains, text_key, if◌then◌else◌, ltb, ◌==◌,
}
use backhouse_dff.Base.Best.{best_index}
use backhouse_dff.Base.Dict.{lookup}
use backhouse_dff.Engine.{DuplicateFile, DuplicateGroup, file_size}

-- `_mtime`: a DuplicateFile has no attribute `mtime`, so `modified` is read.
abbrev pub mtime : DuplicateFile → ℕ
mtime f = f.modified

pub data Rule : Type 0 where
  keep_largest keep_smallest keep_newest keep_oldest keep_first : Rule

-- The keys of `_RULES`.
abbrev pub rules : List (String × Rule)
rules =
    ("keep_largest", Rule.keep_largest)
    ∷ ("keep_smallest", Rule.keep_smallest)
    ∷ ("keep_newest", Rule.keep_newest)
    ∷ ("keep_oldest", Rule.keep_oldest)
    ∷ ("keep_first", Rule.keep_first)
    ∷ []

-- `max` takes a later entry only where its key is greater, `min` only where it is smaller.
abbrev pub greater : ℕ → ℕ → Bool
greater new old = ltb old new

-- The functions of `_RULES`, on a list that is not empty.
unfoldable pub pick : Rule → List DuplicateFile → ℕ
pick Rule.keep_largest = best_index greater file_size
pick Rule.keep_smallest = best_index ltb file_size
pick Rule.keep_newest = best_index greater mtime
pick Rule.keep_oldest = best_index ltb mtime
pick Rule.keep_first = λ files. 0

-- All of them raise a ValueError on an empty list.
abbrev pub pick? : Rule → List DuplicateFile → Option ℕ
pick? rule [] = none
pick? rule (f ∷ fs) = some (pick rule (f ∷ fs))

unfoldable pub apply_rule : String → List DuplicateFile → Option ℕ
apply_rule rule files = elim (lookup rule rules) [ none ↦ none | some r ↦ pick? r files ]

abbrev pub paths : List DuplicateFile → List String
paths = map (λ f. f.path)

unfoldable pub paths_to_delete : String → List DuplicateFile → Option (List String)
paths_to_delete rule files =
    if ltb (length files) 2
    then some []
    else elim (apply_rule rule files) [ none ↦ none | some i ↦ some (paths (erase_idx files i)) ]

-- The sentences that the review shows, each with the rule's label where it names the rule.
pub data Reason : Type 0 where
  single_file : Reason
  not_the_keeper : (label : String) → Reason
  kept_by_rule : (label : String) → Reason
  not_targeted : Reason

abbrev pub reason : String → List String → Bool → Reason
reason label to_delete true = Reason.not_the_keeper label
reason label [] false = Reason.not_targeted
reason label (p ∷ ps) false = Reason.kept_by_rule label

module _ (strip : String → String) where
  unfoldable pub normalized_rule : String → String
  normalized_rule rule =
      let r = strip rule in
      if contains (map (λ (e : String × Rule). e.0) rules) r then r else "keep_largest"

  -- `compile p` is `re.compile(p, re.IGNORECASE).search`, `none` for a pattern that is an error,
  -- and `name` is `Path(...).name`.
  module _ (compile : String → Option (String → Bool)) (name : String → String) where
    first_match : ℕ → (String → Bool) → List DuplicateFile → Option ℕ
    first_match i matches [] = none
    first_match i matches (f ∷ fs) =
        let rest = first_match (suc i) matches fs in if matches (name f.path) then some i else rest

    unfoldable pub keeper_from_filename_regex : String → List DuplicateFile → Option ℕ
    unfolding first_match
    keeper_from_filename_regex regex files =
        let pattern = strip regex in
        if pattern == ""
        then none
        else elim (compile pattern) [ none ↦ none | some matches ↦ first_match 0 matches files ]

    unfoldable pub apply_rule_with_pipeline : String → List DuplicateFile → String → Option ℕ
    unfolding keeper_from_filename_regex
    apply_rule_with_pipeline rule files regex = elim (keeper_from_filename_regex regex files) [
      | some i ↦ some i
      | none ↦ apply_rule rule files
    ]

  -- `RULE_LABELS`
  abbrev pub rule_labels : List (String × String)
  rule_labels =
      ("keep_largest", "Keep Largest")
      ∷ ("keep_smallest", "Keep Smallest")
      ∷ ("keep_newest", "Keep Newest")
      ∷ ("keep_oldest", "Keep Oldest")
      ∷ []

  unfoldable pub smart_rule_label : String → String
  unfolding normalized_rule
  smart_rule_label rule_key =
      let r = normalized_rule rule_key in
      elim (lookup r rule_labels) [ some label ↦ label | none ↦ r ]

  -- `selection_reason_for_file`; `none` is a ValueError of the rule.
  unfoldable pub selection_reason_for_file : DuplicateGroup → DuplicateFile → String → Option Reason
  unfolding smart_rule_label
  selection_reason_for_file group file rule_key =
      if ltb (length group.files) 2
      then some Reason.single_file
      else elim (paths_to_delete (normalized_rule rule_key) group.files) [
        | none ↦ none
        | some to_delete ↦
            some (reason (smart_rule_label rule_key) to_delete (contains to_delete file.path))
      ]
