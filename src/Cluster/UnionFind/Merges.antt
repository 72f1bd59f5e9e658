-- ===== src/Cluster/UnionFind/Merges.antt =====
-- Two sets made one, by their labels.
use backhouse_dff.Base.{
  ℕ, ◌≡◌, ◌≢◌, refl, sym, ap, ◌∙◌, inl, inr, Bool, true, false, List, ◌⊎◌, if◌then◌else◌, KeyEq,
  ◌==◌, eqb_refl, Bool-cases,
}
use backhouse_dff.Base.Dict.{insert, lookup}
use backhouse_dff.Cluster.UnionFind.Labels.{or_zero, eqb-false, lookup-insert_other, ne_of_eqb}

module _ {ℓ} {K : Type ℓ} ⦃e : KeyEq K⦄ where
  -- The labels after the set of `loser` was given the label `winner`.
  abbrev pub merge : (K → K) → K → K → K → K
  merge label loser winner z = if label z == loser then winner else label z

  either : (b : Bool) (k : K) → (if b then k else k) ≡ k
  either true k = refl
  either false k = refl

  pub other_rank :
      (w z : K) (n : ℕ) (rank : List (K × ℕ))
      → (w == z) ≡ false
      → or_zero (lookup z (insert w n rank)) ≡ or_zero (lookup z rank)
  other_rank w z n rank h = ap or_zero (lookup-insert_other w z n rank (ne_of_eqb w z h))

  -- The sets of `x` and `y` become one, and no others do.
  pub record Joined (label : K → K) (x y : K) (label' : K → K) : Type ℓ where
    pub joins : label' x ≡ label' y
    pub coarser : (a b : K) → label a ≡ label b → label' a ≡ label' b
    pub finest :
        (a b : K)
        → label' a ≡ label' b
        → (label a ≡ label b)
          ⊎ ((label a ≡ label x) × (label b ≡ label y))
          ⊎ ((label a ≡ label y) × (label b ≡ label x))

  pub merge_at :
      (label : K → K) (loser winner z : K) → label z ≡ loser → merge label loser winner z ≡ winner
  merge_at label loser winner z h = rw h (rw (eqb_refl loser) refl)

  pub merge_off :
      (label : K → K) (loser winner z : K) → label z ≢ loser → merge label loser winner z ≡ label z
  merge_off label loser winner z h = rw (eqb-false (label z) loser h) refl

  module _ (label : K → K) where
    pub merge-Joined : (x y : K) → Joined label x y (merge label (label x) (label y))
    merge-Joined x y =
        let l = label x in
        let w = label y in
        record {
          joins = merge_at label l w x refl ∙ sym (either (label y == l) w);
          coarser = λ a b h. ap (λ k. if k == l then w else k) h;
          finest = λ a b h. elim (Bool-cases (label a == l)) [
            | inl a_l ↦ elim (Bool-cases (label b == l)) [
              | inl b_l ↦ inl ((e.eqb_iff (label a) l).0 a_l ∙ sym ((e.eqb_iff (label b) l).0 b_l))
              | inr b_far ↦
                  let eq_a = (e.eqb_iff (label a) l).0 a_l in
                  inr (
                    inl (
                      eq_a,
                      sym (
                          sym (merge_at label l w a eq_a)
                          ∙ h
                          ∙ merge_off label l w b (ne_of_eqb (label b) l b_far)),
                    ))
            ]
            | inr a_far ↦ elim (Bool-cases (label b == l)) [
              | inl b_l ↦
                  let eq_b = (e.eqb_iff (label b) l).0 b_l in
                  inr (
                    inr (
                      sym (merge_off label l w a (ne_of_eqb (label a) l a_far))
                          ∙ h
                          ∙ merge_at label l w b eq_b,
                      eq_b,
                    ))
              | inr b_far ↦ inl (
                  sym (merge_off label l w a (ne_of_eqb (label a) l a_far))
                  ∙ h
                  ∙ merge_off label l w b (ne_of_eqb (label b) l b_far))
            ]
          ];
        }

    pub Joined-swap : (x y : K) (label' : K → K) → Joined label y x label' → Joined label x y label'
    Joined-swap x y label' j = record {
      joins = sym j.joins;
      coarser = j.coarser;
      finest = λ a b h. elim (j.finest a b h) [
        | inl old ↦ inl old
        | inr new ↦ elim new [ inl ab ↦ inr (inr ab) | inr ba ↦ inr (inl ba) ]
      ];
    }

    pub Joined-refl : (x y : K) → label x ≡ label y → Joined label x y label
    Joined-refl x y h = record { joins = h; coarser = λ a b k. k; finest = λ a b k. inl k }
