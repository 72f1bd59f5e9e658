-- ===== src/Turbo/Rows.antt =====
-- The grouping of rows in the order of their sizes.
use backhouse_dff.Base.{
  ℕ, suc, ◌≤◌, ◌<◌, ◌≡◌, refl, sym, ap, ◌∙◌, inl, inr, Bool, false, none, List, [], ◌∷◌, ◌++◌,
  arith, if◌then◌else◌, length, nat_beq, leb, nat_key, Bool-cases, nat_beq_iff,
}
use mathlib.Core.List.{append_assoc, append-nil}
use backhouse_dff.Base.Dict.{lookup, lookup-insert}
use backhouse_dff.Base.Buckets.{bucket, at_least_two}
use backhouse_dff.Turbo.Grouping.{
  Entry, FoundFile, Groups, size_of, entry_of, stops, group_list, flush_bucket, row_loop,
  group_rows,
}
use backhouse_dff.Turbo.Sizes.{of_size, group_list-of_size}

-- The sizes of the rows do not fall, from a size on.
abbrev pub SortedFrom : ℕ → List FoundFile → Type 0
SortedFrom c [] = Unit
SortedFrom c (row ∷ rows) = (c ≤ size_of row) × SortedFrom (size_of row) rows

none_below : (c r : ℕ) (rows : List FoundFile) → SortedFrom c rows → r < c → of_size r rows ≡ []
none_below c r [] s h = refl
none_below c r (row ∷ rows) s h =
    let off : nat_beq (size_of row) r ≡ false = ground (arith, s.0) in
    rw off (none_below (size_of row) r rows s.1 (omega (arith, s.0)))

-- The bucket of the current size.
abbrev current : ℕ → ℕ → List Entry → List Entry
current c r b = if nat_beq c r then b else []

flush-bucket :
    (c : ℕ) (b : List Entry) (g : Groups) (r : ℕ)
    → lookup c g ≡ none
    → bucket r (flush_bucket c b g) ≡ bucket r g ++ at_least_two (current c r b)
flush-bucket c b g r h = elim (Bool-cases (leb 2 (length b))) [
  | inl two ↦ elim (Bool-cases (nat_beq c r)) [
    | inl here ↦
        let eq = (nat_beq_iff c r).0 here in
        let none_r = rw eq at h in
        rw (two, here, two) (rw (lookup-insert c r b g, bucket, none_r) (rw here refl))
    | inr there ↦
        rw (two, there)
          (rw (lookup-insert c r b g, bucket) (rw there (sym (append-nil (bucket r g)))))
  ]
  | inr few ↦ elim (Bool-cases (nat_beq c r)) [
    | inl here ↦ rw (few, here, few) (sym (append-nil (bucket r g)))
    | inr there ↦ rw (few, there) (sym (append-nil (bucket r g)))
  ]
]

flush-missing :
    (c : ℕ) (b : List Entry) (g : Groups) (r : ℕ)
    → c < r
    → lookup r g ≡ none
    → lookup r (flush_bucket c b g) ≡ none
flush-missing c b g r lt h =
    let off : nat_beq c r ≡ false = ground arith in
    elim (Bool-cases (leb 2 (length b))) [
      | inl two ↦ rw two (rw (lookup-insert c r b g) (rw off h))
      | inr few ↦ rw few h
    ]

same_size :
    (c r : ℕ) (b : List Entry) (row : FoundFile) (rows : List FoundFile)
    → size_of row ≡ c
    → current (size_of row) r (b ++ entry_of row ∷ []) ++ of_size r rows
      ≡ current c r b ++ of_size r (row ∷ rows)
same_size c r b row rows eq = elim (Bool-cases (nat_beq c r)) [
  | inl here ↦ rw (eq, here) (append_assoc b (entry_of row ∷ []) (of_size r rows))
  | inr there ↦ rw (eq, there) refl
]

starts :
    (r : ℕ) (row : FoundFile) (rows : List FoundFile)
    → current (size_of row) r (entry_of row ∷ []) ++ of_size r rows ≡ of_size r (row ∷ rows)
starts r row rows = elim (Bool-cases (nat_beq (size_of row) r)) [
  | inl here ↦ rw here refl
  | inr there ↦ rw there refl
]

next_size :
    (c r : ℕ) (b : List Entry) (row : FoundFile) (rows : List FoundFile) (g : Groups)
    → c < size_of row
    → SortedFrom (size_of row) rows
    → lookup c g ≡ none
    → bucket r (flush_bucket c b g)
        ++ at_least_two (current (size_of row) r (entry_of row ∷ []) ++ of_size r rows)
      ≡ bucket r g ++ at_least_two (current c r b ++ of_size r (row ∷ rows))
next_size c r b row rows g lt s h =
    rw (flush-bucket c b g r h, starts r row rows)
      (elim (Bool-cases (nat_beq c r)) [
        | inl here ↦
            let eq = (nat_beq_iff c r).0 here in
            let gone =
              none_below (size_of row) r (row ∷ rows) (omega arith, s) (omega (arith, eq, lt)) in
            rw (here, gone) (rw (append-nil b) (append-nil (bucket r g ++ at_least_two b)))
        | inr there ↦
            rw there
              (ap (λ xs. xs ++ at_least_two (of_size r (row ∷ rows))) (append-nil (bucket r g)))
      ])

row_loop-bucket :
    (cancelled : ℕ → Bool) (p c : ℕ) (b : List Entry) (rows : List FoundFile) (g : Groups) (r : ℕ)
    → ((i : ℕ) → cancelled i ≡ false)
    → SortedFrom c rows
    → ((k : ℕ) → c ≤ k → lookup k g ≡ none)
    → bucket r (row_loop cancelled p c b rows g)
      ≡ bucket r g ++ at_least_two (current c r b ++ of_size r rows)
unfolding row_loop
row_loop-bucket cancelled p c b [] g r live s free =
    flush-bucket c b g r (free c (omega arith))
    ∙ ap (λ xs. bucket r g ++ at_least_two xs) (sym (append-nil (current c r b)))
row_loop-bucket cancelled p c b (row ∷ rows) g r live s free =
    let go : stops cancelled p ≡ false = ground (arith, live p) in
    elim (Bool-cases (nat_beq (size_of row) c)) [
      | inl same ↦
          let eq = (nat_beq_iff (size_of row) c).0 same in
          rw (go, same)
            (row_loop-bucket cancelled (suc p) (size_of row) (b ++ entry_of row ∷ []) rows g r live
                s.1 (λ k h. free k (omega (arith, h, eq)))
              ∙ ap (λ xs. bucket r g ++ at_least_two xs) (same_size c r b row rows eq))
      | inr other ↦
          let lt : c < size_of row = ground (arith, s.0) in
          rw (go, other)
            (row_loop-bucket cancelled (suc p) (size_of row) (entry_of row ∷ []) rows
                (flush_bucket c b g) r live s.1
                (λ k h.
                  flush-missing c b g k (omega (arith, h, lt)) (free k (omega (arith, h, lt))))
              ∙ next_size c r b row rows g lt s.1 (free c (omega arith)))
    ]

-- Unless the scan is cancelled, rows in the order of their sizes give each size the same group on
-- both ways.
pub group_rows-group_list :
    (cancelled : ℕ → Bool) (rows : List FoundFile) (r : ℕ)
    → ((i : ℕ) → cancelled i ≡ false)
    → SortedFrom 0 rows
    → bucket r (group_rows cancelled rows) ≡ bucket r (group_list cancelled rows)
unfolding group_rows lookup
group_rows-group_list cancelled [] r live s = sym (group_list-of_size cancelled [] r live)
group_rows-group_list cancelled (row ∷ rows) r live s =
    let go : stops cancelled 0 ≡ false = ground (arith, live 0) in
    rw go (
      row_loop-bucket cancelled 1 (size_of row) (entry_of row ∷ []) rows [] r live s.1 (λ k h. refl)
      ∙ ap at_least_two (starts r row rows)
      ∙ sym (group_list-of_size cancelled (row ∷ rows) r live))
