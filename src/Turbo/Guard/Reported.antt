-- ===== src/Turbo/Guard/Reported.antt =====
-- The groups of the Review page against the guard.
use backhouse_dff.Base.{
  ℕ, suc, ◌+◌, ◌≤◌, ◌≡◌, refl, String, Bool, true, false, Option, none, some, List, [], ◌∷◌, arith,
  length, leb, text_key, eqb_refl, All, ◌++◌, ap, ◌∙◌, inl, inr, Bool-cases, ◌&&◌, nat_beq, ◌%◌,
}
use backhouse_dff.Turbo.Guard.{
  guard_loop, assert_no_self_duplicates, new_row, last_groups, emit_groups, add_kept,
}

last_groups-append {ℓ} :
    {A : Type ℓ} (xs ys : List (String × List A))
    → last_groups (xs ++ ys) ≡ last_groups xs ++ last_groups ys
unfolding last_groups
last_groups-append [] ys = refl
last_groups-append (x ∷ xs) ys =
    let rest = last_groups-append xs ys in
    elim (Bool-cases (leb 2 (length x.1))) [ inl e ↦ rw (e, rest) refl | inr e ↦ rw (e, rest) refl ]

last_groups-row {ℓ} :
    {A : Type ℓ} (hash : String) (group : List A) (groups : List (String × List A))
    → 2 ≤ length group
    → last_groups ((hash, group) ∷ groups) ≡ new_row hash group ∷ last_groups groups
unfolding last_groups
last_groups-row hash group groups two =
    let many : leb 2 (length group) ≡ true = ground (arith, two) in rw many refl

module _ {ℓ} {A : Type ℓ} (resolve : A → Option String) (c : String) where
  -- All items are the same file.
  abbrev pub AreOne : List A → Type 0
  AreOne group = All (λ item. resolve item ≡ some c) group

  guard_loop-AreOne :
      (kept : List A) (n : ℕ) (group : List A)
      → AreOne group
      → guard_loop resolve false (c ∷ []) kept n group ≡ some (kept, n + length group)
  unfolding guard_loop
  guard_loop-AreOne kept n [] h = let same : n + 0 ≡ n = omega arith in rw same refl
  guard_loop-AreOne kept n (item ∷ group) h =
      let next : n + suc (length group) ≡ suc n + length group = omega arith in
      rw (next, h.0, guard_loop, eqb_refl c) (guard_loop-AreOne kept (suc n) group h.1)

  assert-AreOne :
      (item : A) (group : List A)
      → AreOne (item ∷ group)
      → assert_no_self_duplicates resolve false (item ∷ group) ≡ some (item ∷ [], 0 + length group)
  unfolding assert_no_self_duplicates guard_loop
  assert-AreOne item group h =
      rw (h.0, assert_no_self_duplicates, guard_loop) (guard_loop-AreOne (item ∷ []) 0 group h.1)

  module _ (readable : A → Bool) (cancelled : ℕ → Bool) (live : (i : ℕ) → cancelled i ≡ false) where
    clear : (i : ℕ) → (nat_beq (i % 48) 0 && cancelled i) ≡ false
    clear i = let off = live i in ground (arith, off)

    add_kept-single :
        (item : A) (n : ℕ) (rest : Option (List A))
        → add_kept readable (some (item ∷ [], n)) rest ≡ rest
    add_kept-single item n none = refl
    add_kept-single item n (some files) = refl

    -- While the scan goes on, the number of groups before does not count.
    emit_groups-shift :
        (groups : List (String × List A)) (i j : ℕ)
        → emit_groups resolve false readable cancelled i groups
          ≡ emit_groups resolve false readable cancelled j groups
    unfolding emit_groups
    emit_groups-shift [] i j = refl
    emit_groups-shift (group ∷ groups) i j =
        let rest = emit_groups-shift groups (suc i) (suc j) in
        rw (clear i, clear j)
          (ap (λ r. add_kept readable (assert_no_self_duplicates resolve false group.1) r) rest)

    emit_groups-passes :
        (hash : String) (group : List A)
        → 2 ≤ length group
        → AreOne group
        → (before after : List (String × List A)) (i : ℕ)
        → emit_groups resolve false readable cancelled i (before ++ (hash, group) ∷ after)
          ≡ emit_groups resolve false readable cancelled i (before ++ after)
    unfolding emit_groups
    emit_groups-passes hash [] two h before after i = absurd (omega (arith, two))
    emit_groups-passes hash (item ∷ group) two h [] after i =
        let one = assert-AreOne item group h in
        rw (clear i, one)
          (add_kept-single item (0 + length group)
              (emit_groups resolve false readable cancelled (suc i) after)
            ∙ emit_groups-shift after (suc i) i)
    emit_groups-passes hash (item ∷ group) two h (b ∷ before) after i =
        let rest = emit_groups-passes hash (item ∷ group) two h before after (suc i) in
        rw (clear i)
          (ap (λ r. add_kept readable (assert_no_self_duplicates resolve false b.1) r) rest)

  -- In a scan that is not cancelled and whose guard is lenient, a group of two or more items that
  -- are all one and the same file, wherever it stands among the final groups, adds nothing to the
  -- files that are yielded, but `last_groups` has all of it in its place.
  pub last_groups-unguarded :
      (readable : A → Bool) (cancelled : ℕ → Bool) (before after : List (String × List A))
      (hash : String) (group : List A)
      → 2 ≤ length group
      → ((i : ℕ) → cancelled i ≡ false)
      → AreOne group
      → (emit_groups resolve false readable cancelled 0 (before ++ (hash, group) ∷ after)
          ≡ emit_groups resolve false readable cancelled 0 (before ++ after))
        × (last_groups (before ++ (hash, group) ∷ after)
            ≡ last_groups before ++ new_row hash group ∷ last_groups after)
  last_groups-unguarded readable cancelled before after hash group two live h = (
    emit_groups-passes readable cancelled live hash group two h before after 0,
    last_groups-append before ((hash, group) ∷ after)
        ∙ ap (◌++◌ (last_groups before)) (last_groups-row hash group after two),
  )
