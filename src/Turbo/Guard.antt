-- ===== src/Turbo/Guard.antt =====
-- cerebro/core/group_invariants.py, `_assert_no_self_duplicates`, and the groups that
-- cerebro/core/scanners/turbo_scanner.py yields and the ones it keeps in `last_groups`, whose bytes
-- are left out. The texts of the log lines and of the error are left out; `none` of the guard is
-- the ValueError.
pub mod Lenient
pub mod Strict
pub mod Reported
use backhouse_dff.Base.{
  ℕ, zero, suc, ◌+◌, ◌≤◌, ◌≡◌, refl, ap, ◌∙◌, sym, inl, inr, ◌⊎◌, String, Bool, true, false, ◌||◌,
  ◌&&◌, Option, none, some, List, [], ◌∷◌, ◌++◌, arith, if◌then◌else◌, length, leb, ltb, nat_beq,
  ◌%◌, text_key, KeyEq, ◌==◌, contains, Distinct, Bool-cases, Option-cases, length-append,
  contains-append, filter,
}
use mathlib.Core.List.{append_assoc, append-nil}

-- `resolve` gives the canonical path of an item, `none` for an OSError.
module _ {ℓ} {A : Type ℓ} (resolve : A → Option String) (strict : Bool) where
  -- The loop over the group, from the canonical paths, the kept items and the count so far.
  unfoldable pub guard_loop : List String → List A → ℕ → List A → Option (List A × ℕ)
  guard_loop canonicals kept regressions [] = some (kept, regressions)
  guard_loop canonicals kept regressions (item ∷ group) = elim (resolve item) [
    | none ↦ guard_loop canonicals (kept ++ item ∷ []) regressions group
    | some canonical ↦
        let dropped = guard_loop canonicals kept (suc regressions) group in
        let added =
          guard_loop (canonicals ++ canonical ∷ []) (kept ++ item ∷ []) regressions group in
        if contains canonicals canonical then if strict then none else dropped else added
  ]

  unfoldable pub assert_no_self_duplicates : List A → Option (List A × ℕ)
  assert_no_self_duplicates group = guard_loop [] [] 0 group

-- The canonical paths of the items that have one.
abbrev pub resolved {ℓ} : {A : Type ℓ} → (A → Option String) → List A → List String
resolved resolve [] = []
resolved resolve (item ∷ items) = elim (resolve item) [
  | none ↦ resolved resolve items
  | some canonical ↦ canonical ∷ resolved resolve items
]

-- The rows of `last_groups`, which are not guarded: paths, hash and count.
pub record GroupRow {ℓ} (A : Type ℓ) : Type ℓ where
  pub paths : List A
  pub hash : String
  pub count : ℕ

abbrev pub new_row {ℓ} : {A : Type ℓ} → String → List A → GroupRow A
new_row hash paths = record { paths = paths; hash = hash; count = length paths }

unfoldable pub last_groups {ℓ} : {A : Type ℓ} → List (String × List A) → List (GroupRow A)
last_groups [] = []
last_groups (group ∷ groups) =
    let rest = last_groups groups in
    if leb 2 (length group.1) then new_row group.0 group.1 ∷ rest else rest

-- What a guarded group adds to the files of the groups after it.
abbrev pub add_kept {ℓ} :
    {A : Type ℓ} → (A → Bool) → Option (List A × ℕ) → Option (List A) → Option (List A)
add_kept readable none rest = none
add_kept readable (some out) none = none
add_kept readable (some out) (some files) =
    some (if ltb (length out.0) 2 then files else filter readable out.0 ++ files)

-- The phase that yields the files. `readable` is that `FileMetadata.from_path` gives a result, and
-- `cancelled` what the cancel event says at a group; it is read at every 48th.
module _ {ℓ} {A : Type ℓ} (resolve : A → Option String) (strict : Bool) (readable : A → Bool)
    (cancelled : ℕ → Bool) where
  unfoldable pub emit_groups : ℕ → List (String × List A) → Option (List A)
  emit_groups yi [] = some []
  emit_groups yi (group ∷ groups) =
      let rest = emit_groups (suc yi) groups in
      if nat_beq (yi % 48) 0 && cancelled yi
      then some []
      else add_kept readable (assert_no_self_duplicates resolve strict group.1) rest
