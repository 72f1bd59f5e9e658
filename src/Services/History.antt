-- ===== src/Services/History.antt =====
-- cerebro/v2/state/history_view.py: the rows, sorting, filter and pages of the history grid. Times
-- and durations are whole numbers of a fixed small unit. The texts of the filter are parameters.
pub mod Pages
pub mod Sorting
use Prim.Native.Nat.{Ordering}
use Prim.Native.String.{compare}
use backhouse_dff.Base.{
  ℕ, zero, suc, ◌+◌, ◌-◌, ◌*◌, ◌/◌, max, String, Bool, true, false, not, Option, none, some, List,
  [], ◌∷◌, if◌then◌else◌, ltb, nat_beq, length, take, drop, filter,
}
use backhouse_dff.Base.Int.{ℤ, pos, negsuc, clamp}

pub record HistoryRow : Type 0 where
  pub ts : ℕ
  pub mode : String
  pub folder_count : ℕ
  pub groups : ℕ
  pub files : ℕ
  pub bytes : ℕ
  pub duration : ℕ
  pub folders : List String

-- The columns of the grid; `unknown` is any other name.
pub data Column : Type 0 where
  date mode folders groups files reclaimable duration unknown : Column

abbrev pub default_sort_asc_for_column : Column → Bool
default_sort_asc_for_column Column.mode = true
default_sort_asc_for_column Column.unknown = true
default_sort_asc_for_column _ = false

-- `if sort_column not in HISTORY_SCAN_VALID_COLUMNS: sort_column = "date"`
abbrev pub valid_column : Column → Column
valid_column Column.unknown = Column.date
valid_column column = column

abbrev pub text_less : String → String → Bool
text_less a b = elim (compare a b) [ Ordering.lt ↦ true | _ ↦ false ]

-- `if page_size <= 0: page_size = 30`
abbrev pub valid_page_size : ℤ → ℕ
valid_page_size (pos zero) = 30
valid_page_size (pos (suc n)) = suc n
valid_page_size (negsuc n) = 30

abbrev pub num_pages : ℕ → ℕ → ℕ
num_pages n page_size = if nat_beq n 0 then 1 else max 1 ((n + page_size - 1) / page_size)

abbrev pub page_slice {ℓ} : {A : Type ℓ} → ℕ → ℕ → List A → List A
page_slice page page_size rows = take page_size (drop (page * page_size) rows)

pub record View : Type 0 where
  pub page_rows : List HistoryRow
  pub total_filtered : ℕ
  pub pages : ℕ
  pub page : ℕ
  pub total_all : ℕ

-- `lower` is `str.lower`, `matches q row` that the lower case of `q` without blanks at its ends
-- occurs in the row's texts, `is_blank q` that nothing is left of it.
module _ (lower : String → String) (is_blank : String → Bool)
    (occurs : String → HistoryRow → Bool) where
  -- Whether the key of the first row is less than that of the second.
  abbrev pub key_less : Column → HistoryRow → HistoryRow → Bool
  key_less Column.mode a b = text_less (lower a.mode) (lower b.mode)
  key_less Column.folders a b = ltb a.folder_count b.folder_count
  key_less Column.groups a b = ltb a.groups b.groups
  key_less Column.files a b = ltb a.files b.files
  key_less Column.reclaimable a b = ltb a.bytes b.bytes
  key_less Column.duration a b = ltb a.duration b.duration
  key_less _ a b = ltb a.ts b.ts

  -- Whether the order wants the first row before the second.
  abbrev pub goes_before : Column → Bool → HistoryRow → HistoryRow → Bool
  goes_before column asc a b = if asc then key_less column a b else key_less column b a

  -- `list.sort`, which keeps the order of rows with equal keys, ascending or not.
  unfoldable pub put : Column → Bool → HistoryRow → List HistoryRow → List HistoryRow
  put column asc row [] = row ∷ []
  put column asc row (first ∷ rest) =
      let later = put column asc row rest in
      if goes_before column asc first row then first ∷ later else row ∷ first ∷ rest

  unfoldable pub sort_rows : Column → Bool → List HistoryRow → List HistoryRow
  sort_rows column asc [] = []
  sort_rows column asc (row ∷ rows) = put column asc row (sort_rows column asc rows)

  abbrev pub row_filter_match : String → HistoryRow → Bool
  row_filter_match q row = if is_blank q then true else occurs q row

  unfoldable pub apply_scan_history_view : List HistoryRow → Column → Bool → String → ℤ → ℤ → View
  apply_scan_history_view rows column asc filter_text page_index page_size =
      let filtered =
        sort_rows (valid_column column) asc (filter (row_filter_match filter_text) rows) in
      let size = valid_page_size page_size in
      let pages = num_pages (length filtered) size in
      let page = clamp page_index (pages - 1) in
      record {
        page_rows = page_slice page size filtered;
        total_filtered = length filtered;
        pages = pages;
        page = page;
        total_all = length rows;
      }
