-- ===== src/Cluster/UnionFind/Climbs.antt =====
-- `find`: it ends, with the label, and keeps the labels.
use backhouse_dff.Base.{
  ℕ, zero, suc, ◌+◌, ◌≤◌, ◌<◌, ◌≡◌, ◌≢◌, refl, sym, ap, ◌∙◌, inl, inr, none, some, arith, KeyEq,
  ◌==◌, Bool-cases, Option-cases, some-inj,
}
use backhouse_dff.Base.Dict.{insert, lookup}
use backhouse_dff.Cluster.UnionFind.{UnionFind, max_rank, add_new, find_from}
use backhouse_dff.Cluster.UnionFind.Labels.{
  or_zero, rank_of, Represents, max_rank-ge, at_key, elsewhere, lookup-insert-cases,
  lookup-insert-none, insert-known, lookup-insert_other, lookup-insert_self, present-ne,
  lookup-insert_root, ne_of_eqb,
}

module _ {ℓ} {K : Type ℓ} ⦃e : KeyEq K⦄ (label : K → K) where
  add_new-rank :
      (uf : UnionFind K) (x : K)
      → Represents uf label
      → lookup x uf.parent ≡ none
      → (z : K) → rank_of (add_new uf x) z ≡ rank_of uf z
  add_new-rank uf x r out z = elim (Bool-cases (x == z)) [
    | inl here ↦
        rw⁻¹ ((e.eqb_iff x z).0 here)
          (ap or_zero (lookup-insert_self x 0 uf.rank) ∙ ap or_zero (sym (r.no_rank x out)))
    | inr there ↦ ap or_zero (lookup-insert_other x z 0 uf.rank (ne_of_eqb x z there))
  ]

  pub add_new-Represents :
      (uf : UnionFind K) (x : K)
      → Represents uf label
      → lookup x uf.parent ≡ none
      → Represents (add_new uf x) label
  add_new-Represents uf x r out = record {
    known = λ z p h. elim (lookup-insert-cases x x z p uf.parent h) [
      | at_key _ there ↦ rw⁻¹ there (x, lookup-insert_self x x uf.parent)
      | elsewhere _ old ↦
          let known = r.known z p old in insert-known x x p known.0 uf.parent known.1
    ];
    same = λ z p h. elim (lookup-insert-cases x x z p uf.parent h) [
      | at_key here there ↦ ap label (sym there ∙ here)
      | elsewhere _ old ↦ r.same z p old
    ];
    root = λ z h. elim (lookup-insert-cases x x z z uf.parent h) [
      | at_key here there ↦ rw⁻¹ here (r.fresh x out)
      | elsewhere _ old ↦ r.root z old
    ];
    ranked = λ z p h ne. elim (lookup-insert-cases x x z p uf.parent h) [
      | at_key here there ↦ absurd (ne (sym there ∙ here))
      | elsewhere far old ↦
          omega (arith, r.ranked z p old ne, add_new-rank uf x r out z, add_new-rank uf x r out p)
    ];
    has_rank = λ z p h. elim (lookup-insert-cases x x z p uf.parent h) [
      | at_key here there ↦ rw⁻¹ here (0, lookup-insert_self x 0 uf.rank)
      | elsewhere far old ↦
          let old_rank = r.has_rank z p old in
          (old_rank.0, lookup-insert_other x z 0 uf.rank far ∙ old_rank.1)
    ];
    fresh = λ z h. r.fresh z (lookup-insert-none x x z uf.parent h).1;
    no_rank = λ z h.
        let old = lookup-insert-none x x z uf.parent h in
        lookup-insert_other x z 0 uf.rank old.0 ∙ r.no_rank z old.1;
  }

  -- What `find` leaves: the same labels and ranks, the label of `x` as a root, and all the entries
  -- and roots of before.
  pub record Found (uf : UnionFind K) (x : K) (uf' : UnionFind K) : Type ℓ where
    pub represents : Represents uf' label
    pub top : lookup (label x) uf'.parent ≡ some (label x)
    pub ranks : (z : K) → rank_of uf' z ≡ rank_of uf z
    pub climbs : rank_of uf x ≤ rank_of uf (label x)
    pub stays : (z p : K) → lookup z uf.parent ≡ some p → (q : K) × (lookup z uf'.parent ≡ some q)
    pub tops : (z : K) → lookup z uf.parent ≡ some z → lookup z uf'.parent ≡ some z

  add_new-Found :
      (uf : UnionFind K) (x : K)
      → Represents uf label
      → lookup x uf.parent ≡ none
      → Found uf x (add_new uf x)
  add_new-Found uf x r out = record {
    represents = add_new-Represents uf x r out;
    top = rw (r.fresh x out) (lookup-insert_self x x uf.parent);
    ranks = add_new-rank uf x r out;
    climbs = rw (r.fresh x out) (omega arith);
    stays = λ z p h. insert-known x x z p uf.parent h;
    tops = λ z h. lookup-insert_other x z x uf.parent (present-ne x z uf.parent out h) ∙ h;
  }

  -- The path compression at `x`, which is below its label.
  compress-Represents :
      (uf : UnionFind K) (x p : K)
      → Represents uf label
      → lookup x uf.parent ≡ some p
      → lookup (label x) uf.parent ≡ some (label x)
      → (label x ≢ x → rank_of uf x < rank_of uf (label x))
      → Represents (record uf { parent = insert x (label x) uf.parent }) label
  compress-Represents uf x p r inside top below = record {
    known = λ z q h. elim (lookup-insert-cases x (label x) z q uf.parent h) [
      | at_key _ there ↦ rw⁻¹ there (insert-known x (label x) (label x) (label x) uf.parent top)
      | elsewhere _ old ↦
          let known = r.known z q old in insert-known x (label x) q known.0 uf.parent known.1
    ];
    same = λ z q h. elim (lookup-insert-cases x (label x) z q uf.parent h) [
      | at_key here there ↦ rw⁻¹ (here, there) (r.root (label x) top)
      | elsewhere _ old ↦ r.same z q old
    ];
    root = λ z h. elim (lookup-insert-cases x (label x) z z uf.parent h) [
      | at_key here there ↦ ap label (sym here) ∙ there
      | elsewhere _ old ↦ r.root z old
    ];
    ranked = λ z q h ne. elim (lookup-insert-cases x (label x) z q uf.parent h) [
      | at_key here there ↦ rw⁻¹ (here, there) (below (λ eq. ne (sym there ∙ eq ∙ here)))
      | elsewhere _ old ↦ r.ranked z q old ne
    ];
    has_rank = λ z q h. elim (lookup-insert-cases x (label x) z q uf.parent h) [
      | at_key here there ↦ rw⁻¹ here (r.has_rank x p inside)
      | elsewhere _ old ↦ r.has_rank z q old
    ];
    fresh = λ z h. r.fresh z (lookup-insert-none x (label x) z uf.parent h).1;
    no_rank = λ z h. r.no_rank z (lookup-insert-none x (label x) z uf.parent h).1;
  }

  root-Found :
      (uf : UnionFind K) (x : K) → Represents uf label → lookup x uf.parent ≡ some x → Found uf x uf
  root-Found uf x r top = record {
    represents = r;
    top = rw (r.root x top) top;
    ranks = λ z. refl;
    climbs = rw (r.root x top) (omega arith);
    stays = λ z p h. (p, h);
    tops = λ z h. h;
  }

  compress-Found :
      (uf : UnionFind K) (x p : K) (uf' : UnionFind K)
      → Represents uf label
      → lookup x uf.parent ≡ some p
      → p ≢ x
      → Found uf p uf'
      → Found uf x (record uf' { parent = insert x (label x) uf'.parent })
  compress-Found uf x p uf' r inside ne f =
      let same : label p ≡ label x = r.same x p inside in
      let top : lookup (label x) uf'.parent ≡ some (label x) = rw⁻¹ same f.top in
      let up : rank_of uf x < rank_of uf (label x) =
        rw⁻¹ same (omega (arith, r.ranked x p inside ne, f.climbs)) in
      let kept = f.stays x p inside in
      record {
        represents =
            compress-Represents uf' x kept.0 f.represents kept.1 top
              (λ _. omega (arith, up, f.ranks x, f.ranks (label x)));
        top = lookup-insert_root x (label x) uf'.parent top;
        ranks = f.ranks;
        climbs = omega (arith, up);
        stays =
            λ z q h. let old = f.stays z q h in insert-known x (label x) z old.0 uf'.parent old.1;
        tops = λ z h.
            lookup-insert_other x z (label x) uf'.parent
              (λ eq. ne (some-inj (sym inside ∙ ap (λ k. lookup k uf.parent) eq ∙ h) ∙ sym eq))
            ∙ f.tops z h;
      }

  pub find_from-Found :
      (fuel : ℕ) (uf : UnionFind K) (x : K)
      → Represents uf label
      → max_rank uf.rank < fuel + rank_of uf x
      → (uf' : UnionFind K) × (find_from fuel uf x ≡ some (uf', label x)) × Found uf x uf'
  unfolding find_from
  find_from-Found zero uf x r h = absurd (omega (arith, max_rank-ge uf.rank x))
  find_from-Found (suc fuel) uf x r h = elim (Option-cases (lookup x uf.parent)) [
    | inl out ↦ (
      add_new uf x,
      rw (out, find_from) (ap (λ k. some (add_new uf x, k)) (sym (r.fresh x out))),
      add_new-Found uf x r out,
    )
    | inr inside ↦ elim (Bool-cases (inside.0 == x)) [
      | inl here ↦
          let top : lookup x uf.parent ≡ some x =
            inside.1 ∙ ap some ((e.eqb_iff inside.0 x).0 here) in
          (
            uf,
            rw (inside.1, find_from)
                (rw here
                  (ap (λ k. some (uf, k)) ((e.eqb_iff inside.0 x).0 here ∙ sym (r.root x top)))),
            root-Found uf x r top,
          )
      | inr there ↦
          let ne = ne_of_eqb inside.0 x there in
          let rec =
            find_from-Found fuel uf inside.0 r (omega (arith, r.ranked x inside.0 inside.1 ne)) in
          (
            record rec.0 { parent = insert x (label x) rec.0.parent },
            rw (inside.1, find_from)
                (rw (there, rec.1)
                  (ap (λ k. some (record rec.0 { parent = insert x k rec.0.parent }, k))
                    (r.same x inside.0 inside.1))),
            compress-Found uf x inside.0 rec.0 r inside.1 ne rec.2,
          )
    ]
  ]
