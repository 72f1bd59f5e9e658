-- ===== src/Services/History/Sorting.antt =====
-- The sorting of the grid.
use backhouse_dff.Base.{
  ℕ, ◌+◌, ◌≡◌, refl, inl, inr, String, Bool, true, false, List, [], ◌∷◌, arith, if◌then◌else◌,
  Bool-cases,
}
use backhouse_dff.Services.History.{HistoryRow, Column, goes_before, put, sort_rows}

module _ (lower : String → String) (is_blank : String → Bool)
    (occurs : String → HistoryRow → Bool) where
  -- How many rows pass a test.
  abbrev pub passing : (HistoryRow → Bool) → List HistoryRow → ℕ
  passing p [] = 0
  passing p (x ∷ xs) = (if p x then 1 else 0) + passing p xs

  put-passing :
      (column : Column) (asc : Bool) (row : HistoryRow) (rows : List HistoryRow)
      (p : HistoryRow → Bool)
      → passing p (put lower is_blank occurs column asc row rows) ≡ passing p (row ∷ rows)
  unfolding put
  put-passing column asc row [] p = refl
  put-passing column asc row (first ∷ rest) p =
      elim (Bool-cases (goes_before lower is_blank occurs column asc first row)) [
        | inl before ↦ rw before (omega (arith, put-passing column asc row rest p))
        | inr after ↦ rw after refl
      ]

  sort_rows-passing :
      (column : Column) (asc : Bool) (rows : List HistoryRow) (p : HistoryRow → Bool)
      → passing p (sort_rows lower is_blank occurs column asc rows) ≡ passing p rows
  unfolding sort_rows
  sort_rows-passing column asc [] p = refl
  sort_rows-passing column asc (row ∷ rows) p = omega (
    arith,
    put-passing column asc row (sort_rows lower is_blank occurs column asc rows) p,
    sort_rows-passing column asc rows p,
  )

  -- No row that the order wants before another stands directly behind it.
  pub InOrder : Column → Bool → List HistoryRow → Type 0
  InOrder column asc [] = Unit
  InOrder column asc (x ∷ []) = Unit
  InOrder column asc (x ∷ y ∷ rows) =
      (goes_before lower is_blank occurs column asc y x ≡ false) × InOrder column asc (y ∷ rows)

  -- A column whose keys are numbers.
  abbrev pub numeric : Column → Bool
  numeric Column.mode = false
  numeric _ = true

  asymmetric :
      (column : Column) (asc : Bool) (a b : HistoryRow)
      → numeric column ≡ true
      → goes_before lower is_blank occurs column asc a b ≡ true
      → goes_before lower is_blank occurs column asc b a ≡ false
  asymmetric Column.date true a b n h = ground arith
  asymmetric Column.date false a b n h = ground arith
  asymmetric Column.mode asc a b n h = ground arith
  asymmetric Column.folders true a b n h = ground arith
  asymmetric Column.folders false a b n h = ground arith
  asymmetric Column.groups true a b n h = ground arith
  asymmetric Column.groups false a b n h = ground arith
  asymmetric Column.files true a b n h = ground arith
  asymmetric Column.files false a b n h = ground arith
  asymmetric Column.reclaimable true a b n h = ground arith
  asymmetric Column.reclaimable false a b n h = ground arith
  asymmetric Column.duration true a b n h = ground arith
  asymmetric Column.duration false a b n h = ground arith
  asymmetric Column.unknown true a b n h = ground arith
  asymmetric Column.unknown false a b n h = ground arith

  module _ (column : Column) (asc : Bool) (number : numeric column ≡ true) where
    put-InOrder :
        (row : HistoryRow) (rows : List HistoryRow)
        → InOrder column asc rows
        → InOrder column asc (put lower is_blank occurs column asc row rows)
    unfolding put InOrder
    put-InOrder row [] h = tt
    put-InOrder row (x ∷ []) h =
        elim (Bool-cases (goes_before lower is_blank occurs column asc x row)) [
          | inl before ↦ rw before (asymmetric column asc x row number before, tt)
          | inr after ↦ rw after (after, tt)
        ]
    put-InOrder row (x ∷ y ∷ rows) h =
        let rest = put-InOrder row (y ∷ rows) h.1 in
        elim (Bool-cases (goes_before lower is_blank occurs column asc x row)) [
          | inl before ↦ elim (Bool-cases (goes_before lower is_blank occurs column asc y row)) [
            | inl later ↦ rw (before, later) (h.0, rw later at rest)
            | inr here ↦
                rw (before, here) (asymmetric column asc x row number before, rw here at rest)
          ]
          | inr after ↦ rw after (after, h)
        ]

    sort_rows-InOrder :
        (rows : List HistoryRow)
        → InOrder column asc (sort_rows lower is_blank occurs column asc rows)
    unfolding sort_rows InOrder
    sort_rows-InOrder [] = tt
    sort_rows-InOrder (row ∷ rows) = put-InOrder row _ (sort_rows-InOrder rows)

    -- Sorting by a column of numbers puts the rows in the order asked for, and keeps every row as
    -- often as it is there.
    pub sort_rows-sorts :
        (rows : List HistoryRow)
        → InOrder column asc (sort_rows lower is_blank occurs column asc rows)
          × ((p : HistoryRow → Bool)
              → passing p (sort_rows lower is_blank occurs column asc rows) ≡ passing p rows)
    sort_rows-sorts rows = (sort_rows-InOrder rows, sort_rows-passing column asc rows)
