-- ===== src/Roots.antt =====
-- cerebro/core/root_dedup.py: scan roots below other roots are dropped. `resolve` is
-- `Path.resolve`, `key` the length of a path's text and `relative r k` says that `r.relative_to(k)`
-- does not raise. The set of the resolved roots is a list without repetitions.
pub mod Sort
pub mod Cover
mod Tests
use backhouse_dff.Base.{
  ℕ, Bool, true, false, not, ◌&&◌, List, [], ◌∷◌, ◌++◌, map, if◌then◌else◌, leb, any, KeyEq, ◌==◌,
  dedup,
}

module _ {P : Type 0} ⦃e : KeyEq P⦄ (key : P → ℕ) where
  -- `sorted(paths, key=key)`, a stable sort.
  abbrev pub place : P → List P → List P
  place x [] = x ∷ []
  place x (y ∷ ys) = let rest = place x ys in if leb (key x) (key y) then x ∷ y ∷ ys else y ∷ rest

  abbrev pub sorted : List P → List P
  sorted [] = []
  sorted (x ∷ xs) = place x (sorted xs)

module _ {P : Type 0} ⦃e : KeyEq P⦄ (relative : P → P → Bool) where
  -- `_is_relative_to(r, k) and r != k`
  abbrev pub is_below : P → P → Bool
  is_below r k = relative r k && not (r == k)

  unfoldable pub collapse : List P → List P → List P
  collapse kept [] = kept
  collapse kept (r ∷ rs) =
      let without = collapse kept rs in
      let with_it = collapse (kept ++ r ∷ []) rs in
      if any (is_below r) kept then without else with_it

  unfoldable pub dedupe_roots : (P → P) → (P → ℕ) → List P → List P
  dedupe_roots resolve key roots = collapse [] (sorted key (dedup (map resolve roots)))
