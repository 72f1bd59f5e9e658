-- ===== src/Review/Inspect/Ring.antt =====
-- The two indices after each step of the side-by-side view, and after a step and a step back.
use native.Mathlib.Nat.{mod-eq_of_lt, mod-eq-sub-mod}
use backhouse_dff.Base.{
  ℕ, zero, suc, ◌+◌, ◌-◌, ◌%◌, ◌≤◌, ◌<◌, ◌≡◌, refl, sym, ◌≢◌, inl, inr, Bool, true, false,
  if◌then◌else◌, ltb, ◌==◌, nat_key, not, arith, Bool-cases, min,
}
use backhouse_dff.Base.Int.{ℤ, pos, negsuc, clamp, clamp-le}
use backhouse_dff.Review.Inspect.{
  apart, normalize_inspect_ref_cmp, move, skip_ref, step_times, step_inspect_cmp,
  pin_compare_as_new_reference, repaired, make_index_reference,
}

-- Two different indices of `n` files.
abbrev pub AreApart : ℕ → ℕ × ℕ → Type 0
AreApart n p = (p.0 < n) × (p.1 < n) × (p.0 ≢ p.1)

-- The next index on the ring, without a remainder.
abbrev next : ℕ → ℕ → ℕ
next n cur = if suc cur == n then 0 else suc cur

abbrev previous : ℕ → ℕ → ℕ
previous n zero = n - 1
previous n (suc cur) = cur

move-next : (n cur : ℕ) → cur < n → (cur + 1) % n ≡ next n cur
move-next n cur h =
    ground (arith, mod-eq_of_lt {n = cur + 1} {m = n}, mod-eq-sub-mod {n = cur + 1} {m = n})

move-previous : (n cur : ℕ) → cur < n → (cur + n - 1) % n ≡ previous n cur
move-previous n zero h = rw (mod-eq_of_lt {n = 0 + n - 1} {m = n} (omega arith)) (omega arith)
move-previous n (suc cur) h =
    let e : suc cur + n - 1 ≡ cur + n = omega arith in
    rw (e, mod-eq-sub-mod {n = cur + n} {m = n} (omega arith))
      (let e' : cur + n - n ≡ cur = omega arith in
        rw (e', mod-eq_of_lt {n = cur} {m = n} (omega arith)))

abbrev advance : Bool → ℕ → ℕ → ℕ
advance true n cur = next n cur
advance false n cur = previous n cur

move-advance : (forward : Bool) (n cur : ℕ) → cur < n → move forward n cur ≡ advance forward n cur
move-advance true n cur h = move-next n cur h
move-advance false n cur h = move-previous n cur h

advance-lt : (forward : Bool) (n cur : ℕ) → cur < n → advance forward n cur < n
advance-lt true n cur h = ground arith
advance-lt false n zero h = omega arith
advance-lt false n (suc cur) h = omega arith

advance-ne : (forward : Bool) (n cur : ℕ) → 2 ≤ n → cur < n → advance forward n cur ≢ cur
advance-ne true n cur m h = ground arith
advance-ne false n zero m h = omega arith
advance-ne false n (suc cur) m h = omega arith

-- The reverse direction takes the same edge of the ring back.
advance-back :
    (forward : Bool) (n cur : ℕ) → cur < n → advance (not forward) n (advance forward n cur) ≡ cur
advance-back true n cur h = ground arith
advance-back false n zero h = ground arith
advance-back false n (suc cur) h = ground arith

-- One step that passes over the reference.
abbrev skipped : Bool → ℕ → ℕ → ℕ → ℕ
skipped forward n ref cur =
    let x = advance forward n cur in if x == ref then advance forward n x else x

-- Two rounds of the inner loop are enough.
skip_ref-skipped :
    (tries : ℕ) (forward : Bool) (n ref cur : ℕ)
    → 2 ≤ n
    → cur < n
    → skip_ref (suc (suc tries)) forward n ref cur ≡ skipped forward n ref cur
unfolding skip_ref
skip_ref-skipped tries forward n ref cur m h =
    let x = advance forward n cur in
    let below : x < n = advance-lt forward n cur h in
    let other : advance forward n x ≢ x = advance-ne forward n x m below in
    rw (move-advance forward n cur h, move-advance forward n x below)
      (elim (Bool-cases (x == ref)) [
        | inl e ↦ rw e (rw (apart_test x other e) refl)
        | inr e ↦ rw e
      ])
  where
    apart_test :
        (x : ℕ) → advance forward n x ≢ x → (x == ref) ≡ true → (advance forward n x == ref) ≡ false
    apart_test x other e = ground arith

module _ (n ref : ℕ) (m : 2 ≤ n) (inside : ref < n) where
  skip_ref-all :
      (forward : Bool) (cur : ℕ)
      → cur < n
      → skip_ref (n + 2) forward n ref cur ≡ skipped forward n ref cur
  skip_ref-all forward cur h =
      let e : n + 2 ≡ suc (suc n) = omega arith in rw e (skip_ref-skipped n forward n ref cur m h)

  skipped-AreApart :
      (forward : Bool) (cur : ℕ)
      → cur < n
      → (skipped forward n ref cur < n) × (skipped forward n ref cur ≢ ref)
  skipped-AreApart forward cur h =
      let x = advance forward n cur in
      let below = advance-lt forward n cur h in
      ground (arith, advance-lt forward n x below, advance-ne forward n x m below)

  skipped-back :
      (forward : Bool) (cur : ℕ)
      → cur < n
      → cur ≢ ref
      → skipped (not forward) n ref (skipped forward n ref cur) ≡ cur
  skipped-back forward cur h other =
      let x = advance forward n cur in
      let below = advance-lt forward n cur h in
      ground (arith, advance-back forward n cur h, advance-back forward n x below)

  step_times-range :
      (k : ℕ) (forward : Bool) (cur : ℕ)
      → cur < n
      → cur ≢ ref
      → (step_times k forward n ref cur < n) × (step_times k forward n ref cur ≢ ref)
  unfolding step_times
  step_times-range zero forward cur h other = (h, other)
  step_times-range (suc k) forward cur h other =
      let (below, apart) = skipped-AreApart forward cur h in
      rw (skip_ref-all forward cur h)
        (step_times-range k forward (skipped forward n ref cur) below apart)

  step_times-first :
      (k : ℕ) (forward : Bool) (cur : ℕ)
      → cur < n
      → step_times (suc k) forward n ref cur
        ≡ step_times k forward n ref (skipped forward n ref cur)
  unfolding step_times
  step_times-first k forward cur h = rw (skip_ref-all forward cur h)

  step_times-last :
      (k : ℕ) (forward : Bool) (cur : ℕ)
      → cur < n
      → cur ≢ ref
      → step_times (suc k) forward n ref cur
        ≡ skipped forward n ref (step_times k forward n ref cur)
  unfolding step_times
  step_times-last zero forward cur h other = skip_ref-all forward cur h
  step_times-last (suc k) forward cur h other =
      let (below, apart) = skipped-AreApart forward cur h in
      rw (skip_ref-all forward cur h)
        (step_times-last k forward (skipped forward n ref cur) below apart)

  step_times-back :
      (k : ℕ) (forward : Bool) (cur : ℕ)
      → cur < n
      → cur ≢ ref
      → step_times k (not forward) n ref (step_times k forward n ref cur) ≡ cur
  step_times-back zero forward cur h other = unfold step_times in refl
  step_times-back (suc k) forward cur h other =
      let (below, away) = skipped-AreApart forward cur h in
      let y = skipped forward n ref cur in
      let z = step_times k forward n ref y in
      let (z_below, z_away) = step_times-range k forward y below away in
      rw
        (
          step_times-first k forward cur h,
          step_times-last k (not forward) z z_below z_away,
          step_times-back k forward y below away,
        )
        (skipped-back forward cur h other)

-- For two files or more, and a reference in range, the compare index that `step_inspect_cmp`
-- returns is in range and is not the reference, whatever the number of steps and their direction;
-- so many steps in one direction and then as many in the other lead back to where they began.
-- The index to start from is in range and is not the reference.
pub step_inspect_cmp-back :
    (n ref cmp k : ℕ)
    → AreApart n (ref, cmp)
    → (AreApart n (ref, step_inspect_cmp n ref cmp (pos (suc k))))
      × (AreApart n (ref, step_inspect_cmp n ref cmp (negsuc k)))
      × (step_inspect_cmp n ref (step_inspect_cmp n ref cmp (pos (suc k))) (negsuc k) ≡ cmp)
      × (step_inspect_cmp n ref (step_inspect_cmp n ref cmp (negsuc k)) (pos (suc k)) ≡ cmp)
unfolding step_inspect_cmp
step_inspect_cmp-back n ref cmp k (inside, below, away) =
    let two : 2 ≤ n = omega arith in
    let away' : cmp ≢ ref = λ e. away (sym e) in
    let many : ltb n 2 ≡ false = ground arith in
    let (up, up_away) = step_times-range n ref two inside (suc k) true cmp below away' in
    let (down, down_away) = step_times-range n ref two inside (suc k) false cmp below away' in
    rw many (
      (inside, up, λ e. up_away (sym e)),
      (inside, down, λ e. down_away (sym e)),
      step_times-back n ref two inside (suc k) true cmp below away',
      step_times-back n ref two inside (suc k) false cmp below away',
    )

apart-AreApart : (n ref cmp : ℕ) → 2 ≤ n → ref < n → cmp < n → AreApart n (apart n ref cmp)
apart-AreApart n ref cmp m inside below = rw (move-next n ref inside) (ground arith)

-- For two files or more `normalize_inspect_ref_cmp` returns two different indices in range, for
-- any two integers; two such indices it leaves as they are.
pub normalize-AreApart :
    (n : ℕ) (ref cmp : ℤ) → 2 ≤ n → AreApart n (normalize_inspect_ref_cmp n ref cmp)
unfolding normalize_inspect_ref_cmp
normalize-AreApart zero ref cmp m = absurd (omega arith)
normalize-AreApart (suc zero) ref cmp m = absurd (omega arith)
normalize-AreApart (suc (suc k)) ref cmp m =
    apart-AreApart (suc (suc k)) (clamp ref (suc k)) (clamp cmp (suc k)) m
      (omega (arith, clamp-le ref (suc k))) (omega (arith, clamp-le cmp (suc k)))

pub normalize_idem :
    (n ref cmp : ℕ)
    → AreApart n (ref, cmp)
    → normalize_inspect_ref_cmp n (pos ref) (pos cmp) ≡ (ref, cmp)
unfolding normalize_inspect_ref_cmp
normalize_idem zero ref cmp h = absurd (omega arith)
normalize_idem (suc zero) ref cmp h = absurd (omega arith)
normalize_idem (suc (suc k)) ref cmp (inside, below, away) =
    let e : min ref (suc k) ≡ ref = omega arith in
    let e' : min cmp (suc k) ≡ cmp = omega arith in rw (e, e') (ground arith)

next-AreApart : (n cmp : ℕ) → 2 ≤ n → cmp < n → AreApart n (cmp, next n cmp)
next-AreApart n cmp m h = ground arith

step_one : (n cmp : ℕ) → 2 ≤ n → cmp < n → step_inspect_cmp n cmp cmp (pos 1) ≡ next n cmp
unfolding step_inspect_cmp step_times
step_one n cmp m h =
    let many : ltb n 2 ≡ false = ground arith in
    rw (many, skip_ref-all n cmp m h true cmp h) (ground arith)

-- From two different indices in range, pinning makes the compare index the reference and the
-- index after it on the ring the compare index; making any index in range the reference keeps the
-- compare index, unless that is the index itself: then the two change places. Both results are
-- two different indices in range.
pub new_reference-AreApart :
    (n ref cmp i : ℕ)
    → AreApart n (ref, cmp)
    → i < n
    → (pin_compare_as_new_reference n ref cmp ≡ (cmp, (cmp + 1) % n))
      × (make_index_reference n ref cmp (pos i) ≡ (i, if cmp == i then ref else cmp))
      × AreApart n (pin_compare_as_new_reference n ref cmp)
      × AreApart n (make_index_reference n ref cmp (pos i))
unfolding pin_compare_as_new_reference make_index_reference
new_reference-AreApart n ref cmp i (inside, below, away) h =
    let m : 2 ≤ n = omega arith in
    let many : ltb n 2 ≡ false = ground arith in
    let at : min i (n - 1) ≡ i = omega arith in
    let pinned = normalize_idem n cmp (next n cmp) (next-AreApart n cmp m below) in
    let target : AreApart n (i, if cmp == i then ref else cmp) = ground arith in
    let same : repaired n ref cmp i ≡ (if cmp == i then ref else cmp) = ground arith in
    let made = normalize_idem n i (if cmp == i then ref else cmp) target in
    rw (many, at, same, step_one n cmp m below, made, move-next n cmp below)
      (pinned, refl, rw pinned (next-AreApart n cmp m below), target)
