-- ===== src/Services/History/Pages.antt =====
-- The pages of the grid against its rows.
use native.Mathlib.Nat.{div-add-mod', mod-lt}
use backhouse_dff.Base.{
  ℕ, zero, suc, ◌+◌, ◌-◌, ◌*◌, ◌/◌, ◌%◌, ◌≤◌, ◌<◌, max, ◌≡◌, refl, ap, ◌∙◌, sym, inl, inr, String,
  Bool, List, [], ◌∷◌, ◌++◌, arith, nat_beq, length, take, drop, length-take, Bool-cases, filter,
}
use backhouse_dff.Base.Int.{ℤ, pos, negsuc, clamp, clamp-le}
use backhouse_dff.Services.History.{
  HistoryRow, Column, valid_column, valid_page_size, num_pages, page_slice, sort_rows,
  row_filter_match, apply_scan_history_view,
}

module _ {ℓ} {A : Type ℓ} where
  -- The first pages, one after the other.
  abbrev pub all_pages : ℕ → ℕ → List A → List A
  all_pages zero size xs = []
  all_pages (suc k) size xs = all_pages k size xs ++ page_slice k size xs

  take-nil : (b : ℕ) → ◌≡◌ {A = List A} (take b []) []
  take-nil zero = refl
  take-nil (suc b) = refl

  take-split : (a b : ℕ) (xs : List A) → take (a + b) xs ≡ take a xs ++ take b (drop a xs)
  take-split zero b xs = let eq : 0 + b ≡ b = omega arith in rw eq refl
  take-split (suc a) b [] =
      let eq : suc a + b ≡ suc (a + b) = omega arith in rw eq (sym (take-nil b))
  take-split (suc a) b (x ∷ xs) =
      let eq : suc a + b ≡ suc (a + b) = omega arith in rw eq (ap (◌∷◌ x) (take-split a b xs))

  all_pages-take : (k size : ℕ) (xs : List A) → all_pages k size xs ≡ take (k * size) xs
  all_pages-take zero size xs = let eq : 0 * size ≡ 0 = omega arith in rw eq refl
  all_pages-take (suc k) size xs =
      let eq : suc k * size ≡ k * size + size = grind arith in
      rw eq (
        ap (λ ys. ys ++ page_slice k size xs) (all_pages-take k size xs)
        ∙ sym (take-split (k * size) size xs))

  take-all : (n : ℕ) (xs : List A) → length xs ≤ n → take n xs ≡ xs
  take-all zero [] h = refl
  take-all zero (x ∷ xs) h = absurd (omega (arith, h))
  take-all (suc n) [] h = refl
  take-all (suc n) (x ∷ xs) h = ap (◌∷◌ x) (take-all n xs (omega (arith, h)))

enough_pages :
    (q n size r : ℕ) → q * size + r ≡ n + size - 1 → r < size → 0 < n → n ≤ max 1 q * size
enough_pages zero n size r eq lt h =
    let none_yet : 0 * size ≡ 0 = omega arith in absurd (omega (arith, eq, none_yet))
enough_pages (suc q) n size r eq lt h =
    let known : max 1 (suc q) ≡ suc q = omega arith in rw known (omega (arith, eq))

num_pages-ge : (n size : ℕ) → 0 < size → n ≤ num_pages n size * size
num_pages-ge n size h = elim (Bool-cases (nat_beq n 0)) [
  | inl none_ ↦ rw none_ (ground arith)
  | inr some_ ↦ rw some_ (
      enough_pages ((n + size - 1) / size) n size ((n + size - 1) % size)
        (div-add-mod' (n + size - 1) size) (mod-lt (n + size - 1) h) (ground arith))
]

num_pages-positive : (n size : ℕ) → 0 < num_pages n size
num_pages-positive n size = elim (Bool-cases (nat_beq n 0)) [
  | inl none_ ↦ rw none_ (omega arith)
  | inr some_ ↦ rw some_ (omega arith)
]

valid_page_size-positive : (page_size : ℤ) → 0 < valid_page_size page_size
valid_page_size-positive (pos zero) = omega arith
valid_page_size-positive (pos (suc n)) = omega arith
valid_page_size-positive (negsuc n) = omega arith

-- The pages of a grid, one after the other, are the rows that it shows, in their order.
pub all_pages-num_pages {ℓ} :
    {A : Type ℓ} (page_size : ℤ) (xs : List A)
    → all_pages (num_pages (length xs) (valid_page_size page_size)) (valid_page_size page_size) xs
      ≡ xs
all_pages-num_pages page_size xs =
    let size = valid_page_size page_size in
    all_pages-take (num_pages (length xs) size) size xs
    ∙ take-all _ xs (num_pages-ge (length xs) size (valid_page_size-positive page_size))

module _ (lower : String → String) (is_blank : String → Bool)
    (occurs : String → HistoryRow → Bool) where
  -- For any page number and page size, the page shown exists and has at most as many rows as a page
  -- has.
  pub apply_scan_history_view-bounds :
      (rows : List HistoryRow) (column : Column) (asc : Bool) (text : String)
      (page_index page_size : ℤ)
      → ((apply_scan_history_view lower is_blank occurs rows column asc text page_index
            page_size).page
          < (apply_scan_history_view lower is_blank occurs rows column asc text page_index
              page_size).pages)
        × (length
              (apply_scan_history_view lower is_blank occurs rows column asc text page_index
                page_size).page_rows
            ≤ valid_page_size page_size)
  unfolding apply_scan_history_view
  apply_scan_history_view-bounds rows column asc text page_index page_size =
      let filtered =
        sort_rows lower is_blank occurs (valid_column column) asc
          (filter (row_filter_match lower is_blank occurs text) rows) in
      let size = valid_page_size page_size in
      let pages = num_pages (length filtered) size in
      let page = clamp page_index (pages - 1) in
      (
        omega (arith, clamp-le page_index (pages - 1), num_pages-positive (length filtered) size),
        omega (arith, length-take size (drop (page * size) filtered)),
      )
