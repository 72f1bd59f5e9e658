-- ===== src/Roots/Tests.antt =====
-- Roots as numbers, where 0 is another name of 2.
use backhouse_dff.Base.{
  ℕ, ◌<◌, ◌≡◌, refl, ◌&&◌, ◌||◌, Bool, true, false, List, [], ◌∷◌, if◌then◌else◌, nat_key, ◌==◌,
  arith, ltb,
}
use backhouse_dff.Roots.{is_below, collapse, dedupe_roots}
use backhouse_dff.Roots.Cover.{covers, dedupe_roots-IsApart, dedupe_roots-covers}

-- The numbers below 20 stand under 1, the others under 2.
abbrev relative : ℕ → ℕ → Bool
relative r k = ltb k r && ((k == 1 && ltb r 20) || (k == 2 && ltb 20 r))

abbrev resolve : ℕ → ℕ
resolve r = if r == 0 then 2 else r

abbrev roots : List ℕ
roots = 12 ∷ 25 ∷ 0 ∷ 30 ∷ 2 ∷ []

-- `30` and `25` are below `2`, which is given twice, and `12` is on its own.
kept : dedupe_roots relative resolve (λ r. r) roots ≡ 2 ∷ 12 ∷ []
unfolding dedupe_roots collapse
kept = refl

shorter : (r k : ℕ) → is_below relative r k ≡ true → k < r
shorter r k h = ground arith

dedupe_roots-IsApart_example : is_below relative 12 2 ≡ false
unfolding dedupe_roots collapse
dedupe_roots-IsApart_example =
    dedupe_roots-IsApart relative (λ r. r) resolve roots 12 2 shorter refl refl

dedupe_roots-covers_example :
    covers relative (dedupe_roots relative resolve (λ r. r) roots) 25 ≡ true
dedupe_roots-covers_example = dedupe_roots-covers relative (λ r. r) resolve roots 25 refl
