-- ===== src/Cluster/UnionFind/Links.antt =====
-- `union`: it merges two sets and leaves the others alone.
use backhouse_dff.Base.{
  ℕ, suc, ◌<◌, ◌≡◌, ◌≢◌, refl, sym, ap, ◌∙◌, inl, inr, Option, some, arith, if◌then◌else◌, ltb,
  ltb→lt, ltb-false→le, KeyEq, ◌==◌, Bool-cases, some-inj,
}
use backhouse_dff.Base.Dict.{insert, lookup}
use backhouse_dff.Cluster.UnionFind.{UnionFind, max_rank, link_ranks, link, union}
use backhouse_dff.Cluster.UnionFind.Labels.{
  or_zero, eqb-false, rank_of, Represents, at_key, elsewhere, lookup-insert-cases,
  lookup-insert-none, insert-known, lookup-insert_other, lookup-insert_self, ne_of_eqb, present-ne,
}
use backhouse_dff.Cluster.UnionFind.Climbs.{find_from-Found}
use backhouse_dff.Cluster.UnionFind.Merges.{
  merge, other_rank, Joined, merge_at, merge_off, merge-Joined, Joined-swap, Joined-refl,
}

module _ {ℓ} {K : Type ℓ} ⦃e : KeyEq K⦄ where
  module _ (label : K → K) where
    -- Linking the root `loser` below another root of higher rank.
    link-Represents :
        (uf : UnionFind K) (loser winner : K)
        → Represents uf label
        → lookup loser uf.parent ≡ some loser
        → lookup winner uf.parent ≡ some winner
        → loser ≢ winner
        → rank_of uf loser < rank_of uf winner
        → Represents
            (record uf { parent = insert loser winner uf.parent })
            (merge label loser winner)
    link-Represents uf loser winner r top_l top_w ne lt =
        let label_l = r.root loser top_l in
        let label_w = r.root winner top_w in
        record {
          known = λ z q h. elim (lookup-insert-cases loser winner z q uf.parent h) [
            | at_key _ there ↦ rw⁻¹ there (insert-known loser winner winner winner uf.parent top_w)
            | elsewhere _ old ↦
                let known = r.known z q old in insert-known loser winner q known.0 uf.parent known.1
          ];
          same = λ z q h. elim (lookup-insert-cases loser winner z q uf.parent h) [
            | at_key here there ↦
                rw⁻¹ (here, there)
                  (merge_off label loser winner winner (λ eq. ne (sym eq ∙ label_w))
                    ∙ label_w
                    ∙ sym (merge_at label loser winner loser label_l))
            | elsewhere _ old ↦ ap (λ k. if k == loser then winner else k) (r.same z q old)
          ];
          root = λ z h. elim (lookup-insert-cases loser winner z z uf.parent h) [
            | at_key here there ↦ absurd (ne (here ∙ sym there))
            | elsewhere far old ↦
                merge_off label loser winner z (λ eq. far (sym eq ∙ r.root z old)) ∙ r.root z old
          ];
          ranked = λ z q h nz. elim (lookup-insert-cases loser winner z q uf.parent h) [
            | at_key here there ↦ rw⁻¹ (here, there) lt
            | elsewhere _ old ↦ r.ranked z q old nz
          ];
          has_rank = λ z q h. elim (lookup-insert-cases loser winner z q uf.parent h) [
            | at_key here there ↦ rw⁻¹ here (r.has_rank loser loser top_l)
            | elsewhere _ old ↦ r.has_rank z q old
          ];
          fresh = λ z h.
              let out = lookup-insert-none loser winner z uf.parent h in
              merge_off label loser winner z (λ eq. out.0 (sym eq ∙ r.fresh z out.1))
              ∙ r.fresh z out.1;
          no_rank = λ z h. r.no_rank z (lookup-insert-none loser winner z uf.parent h).1;
        }

    -- A root of higher rank than before.
    raise-Represents :
        (uf : UnionFind K) (top : K) (a : ℕ)
        → Represents uf label
        → lookup top uf.parent ≡ some top
        → lookup top uf.rank ≡ some a
        → Represents (record uf { rank = insert top (suc a) uf.rank }) label
    raise-Represents uf top a r is_top at_a = record {
      known = r.known;
      same = r.same;
      root = r.root;
      ranked = λ z q h nz. elim (Bool-cases (top == z)) [
        | inl here ↦
            let eq : top ≡ z = (e.eqb_iff top z).0 here in
            absurd (nz (some-inj (sym h ∙ ap (λ k. lookup k uf.parent) (sym eq) ∙ is_top) ∙ eq))
        | inr there ↦ elim (Bool-cases (top == q)) [
          | inl here ↦
              let eq : top ≡ q = (e.eqb_iff top q).0 here in
              let raised = insert top (suc a) uf.rank in
              let new_q : or_zero (lookup q raised) ≡ suc a =
                ap (λ k. or_zero (lookup k raised)) (sym eq)
                ∙ ap or_zero (lookup-insert_self top (suc a) uf.rank) in
              let old_q : rank_of uf q ≡ a = ap (rank_of uf) (sym eq) ∙ ap or_zero at_a in
              omega (arith, r.ranked z q h nz, new_q, old_q, other_rank top z (suc a) uf.rank there)
          | inr far ↦ omega (
            arith,
            r.ranked z q h nz,
            other_rank top z (suc a) uf.rank there,
            other_rank top q (suc a) uf.rank far,
          )
        ]
      ];
      has_rank =
          λ z q h. let old = r.has_rank z q h in insert-known top (suc a) z old.0 uf.rank old.1;
      fresh = r.fresh;
      no_rank = λ z h.
          lookup-insert_other top z (suc a) uf.rank
            (λ eq. present-ne z top uf.parent h is_top (sym eq))
          ∙ r.no_rank z h;
    }

    -- What a union of `x` and `y` leaves.
    abbrev pub Unites : K → K → Option (UnionFind K) → Type ℓ
    Unites x y out =
        (uf' : UnionFind K) × (label' : K → K) × (out ≡ some uf')
        × Represents uf' label'
        × Joined label x y label'

    link_ranks-Unites :
        (uf : UnionFind K) (x y : K) (a b : ℕ)
        → Represents uf label
        → lookup (label x) uf.parent ≡ some (label x)
        → lookup (label y) uf.parent ≡ some (label y)
        → label x ≢ label y
        → lookup (label x) uf.rank ≡ some a
        → lookup (label y) uf.rank ≡ some b
        → Unites x y (link_ranks uf (label x) (label y) (some a) (some b))
    link_ranks-Unites uf x y a b r top_x top_y ne at_x at_y =
        let lx = label x in
        let ly = label y in
        let rank_x : rank_of uf lx ≡ a = ap or_zero at_x in
        let rank_y : rank_of uf ly ≡ b = ap or_zero at_y in
        elim (Bool-cases (ltb a b)) [
          | inl lt ↦ (
            record uf { parent = insert lx ly uf.parent },
            merge label lx ly,
            rw lt refl,
            link-Represents uf lx ly r top_x top_y ne
                (omega (arith, rank_x, rank_y, ltb→lt a b lt)),
            merge-Joined label x y,
          )
          | inr ge ↦ elim (Bool-cases (ltb b a)) [
            | inl gt ↦ (
              record uf { parent = insert ly lx uf.parent },
              merge label ly lx,
              rw (ge, gt) refl,
              link-Represents uf ly lx r top_y top_x (λ eq. ne (sym eq))
                  (omega (arith, rank_x, rank_y, ltb→lt b a gt)),
              Joined-swap label x y (merge label ly lx) (merge-Joined label y x),
            )
            | inr le ↦ (
              record uf { parent = insert ly lx uf.parent; rank = insert lx (suc a) uf.rank },
              merge label ly lx,
              rw (ge, le) refl,
              link-Represents (record uf { rank = insert lx (suc a) uf.rank }) ly lx
                  (raise-Represents uf lx a r top_x at_x) top_y top_x (λ eq. ne (sym eq))
                  (omega (
                    arith,
                    rank_y,
                    ltb-false→le a b ge,
                    other_rank lx ly (suc a) uf.rank (eqb-false lx ly ne),
                    ap or_zero (lookup-insert_self lx (suc a) uf.rank),
                  )),
              Joined-swap label x y (merge label ly lx) (merge-Joined label y x),
            )
          ]
        ]

    link-Unites :
        (uf : UnionFind K) (x y : K)
        → Represents uf label
        → lookup (label x) uf.parent ≡ some (label x)
        → lookup (label y) uf.parent ≡ some (label y)
        → Unites x y (link uf (label x) (label y))
    unfolding link
    link-Unites uf x y r top_x top_y = elim (Bool-cases (label x == label y)) [
      | inl same ↦ (
        uf,
        label,
        rw same refl,
        r,
        Joined-refl label x y ((e.eqb_iff (label x) (label y)).0 same),
      )
      | inr other ↦
          let a = r.has_rank (label x) (label x) top_x in
          let b = r.has_rank (label y) (label y) top_y in
          rw (other, a.1, b.1)
            (link_ranks-Unites uf x y a.0 b.0 r top_x top_y (ne_of_eqb (label x) (label y) other)
              a.1 b.1)
    ]

    -- On a structure that represents labels, `union` ends without a KeyError and leaves one with
    -- labels by which the sets of `x` and `y` are one set, and all other sets are what they were.
    pub union-Unites :
        (uf : UnionFind K) (x y : K) → Represents uf label → Unites x y (union uf x y)
    unfolding union
    union-Unites uf x y r =
        let first = find_from-Found label (suc (max_rank uf.rank)) uf x r (omega arith) in
        let found = first.2 in
        let second =
          find_from-Found label (suc (max_rank first.0.rank)) first.0 y found.represents
            (omega arith) in
        rw (first.1, second.1)
          (link-Unites second.0 x y second.2.represents (second.2.tops (label x) found.top)
            second.2.top)
