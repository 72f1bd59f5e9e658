-- ===== src/Turbo/HashTests.antt =====
-- Runs of the hash phases on small inputs.
use backhouse_dff.Base.{
  ℕ, ◌≡◌, refl, ◌&&◌, inl, inr, String, Bool, true, false, Option, none, some, List, [], ◌∷◌, ◌==◌,
  text_key, if◌then◌else◌, leb, Bool-cases, arith,
}
use backhouse_dff.Base.Dict.{lookup, insert}
use backhouse_dff.Base.Buckets.{bucket, append_all, append_to}
use backhouse_dff.Turbo.Grouping.{Entry, Groups}
use backhouse_dff.Turbo.Jobs.{passing}
use backhouse_dff.Turbo.Hashing.{flatten, compute_hashes, final_groups}
use backhouse_dff.Turbo.Content.{has_hash, compute_hashes-has_hash}
use backhouse_dff.Turbo.Duplicates.{both_phases, final_groups-has_hash}

-- Three files with one quick hash, two of them with one content.
abbrev quick_of : String → Option String
quick_of path = if path == "odd" then none else some "q"

abbrev full_of : String → Option String
full_of path = if path == "odd" then none else if path == "c" then some "f2" else some "f1"

abbrev in_order : List Entry → List Entry
in_order xs = xs

-- `c` has another size than `a` and `b`.
abbrev sizes : Groups
sizes = (4, ("a", 1) ∷ ("b", 2) ∷ []) ∷ (9, ("c", 3) ∷ ("odd", 4) ∷ []) ∷ []

abbrev size_text : ℕ → String
size_text n = "size"

any_file : Entry → Bool
any_file x = true

final_groups_run :
    final_groups both_phases quick_of full_of in_order size_text sizes
    ≡ ("f1", ("a", 1) ∷ ("b", 2) ∷ []) ∷ []
unfolding final_groups compute_hashes append_all append_to insert lookup
final_groups_run = refl

-- Without the full hash, the file of another size is in the group.
final_groups_quick_only :
    final_groups
      (record { use_quick_hash = true; use_full_hash = false })
      quick_of
      full_of
      in_order
      size_text
      sizes
    ≡ ("q", ("a", 1) ∷ ("b", 2) ∷ ("c", 3) ∷ []) ∷ []
unfolding final_groups compute_hashes append_all append_to insert lookup
final_groups_quick_only = refl

compute_hashes-has_hash_example :
    passing any_file (bucket "q" (compute_hashes quick_of in_order sizes)) ≡ (
      if leb 2 (passing (has_hash quick_of "q") (flatten sizes))
      then passing (λ x. has_hash quick_of "q" x && any_file x) (flatten sizes)
      else 0)
compute_hashes-has_hash_example =
    compute_hashes-has_hash quick_of in_order (λ p xs. refl) sizes "q" any_file refl

full_then_quick : (x : Entry) → has_hash full_of "f1" x ≡ true → has_hash quick_of "q" x ≡ true
full_then_quick x h = elim (Bool-cases (x.0 == "odd")) [
  | inl odd ↦ absurd (let unread = rw odd at h in ground (arith, unread))
  | inr known ↦ rw known refl
]

final_groups-has_hash_example :
    passing any_file
      (bucket "f1" (final_groups both_phases quick_of full_of in_order size_text sizes))
    ≡ (if leb 2 (passing (has_hash full_of "f1") (flatten sizes))
        then passing (λ x. has_hash full_of "f1" x && any_file x) (flatten sizes)
        else 0)
final_groups-has_hash_example =
    final_groups-has_hash quick_of full_of in_order (λ p xs. refl) size_text sizes "f1" "q" any_file
      refl refl full_then_quick
