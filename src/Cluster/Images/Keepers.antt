-- ===== src/Cluster/Images/Keepers.antt =====
-- The keeper of a group of images.
use backhouse_dff.Base.{
  ℕ, ◌*◌, ◌≡◌, refl, inl, inr, true, false, List, [], ◌∷◌, arith, All, Bool-cases, ◌⊎◌,
}
use backhouse_dff.Cluster.Images.{ImageRecord}
use backhouse_dff.Cluster.Images.Grouping.{greater_key, beats, max_record}

greater_key_trans :
    (a s b t c u : ℕ)
    → greater_key a s b t ≡ false
    → greater_key b t c u ≡ false
    → greater_key a s c u ≡ false
greater_key_trans a s b t c u h k = ground (arith, h, k)

greater_key_asymm : (a s b t : ℕ) → greater_key a s b t ≡ true → greater_key b t a s ≡ false
greater_key_asymm a s b t h = ground (arith, h)

greater_key_irrefl : (a s : ℕ) → greater_key a s a s ≡ false
greater_key_irrefl a s = ground arith

-- No record of the list beats the one chosen.
abbrev pub Unbeaten : ImageRecord → List ImageRecord → Type 0
Unbeaten keeper rs = All (λ r. beats r keeper ≡ false) rs

unbeaten_by : (l b m : ImageRecord) → beats l b ≡ false → beats b m ≡ false → beats l m ≡ false
unbeaten_by l b m h k =
    greater_key_trans (l.width * l.height) l.size (b.width * b.height) b.size (m.width * m.height)
      m.size h k

-- The record chosen is one of the list.
abbrev pub OneOf : ImageRecord → List ImageRecord → Type 0
OneOf m [] = ⊥
OneOf m (r ∷ rs) = (m ≡ r) ⊎ OneOf m rs

-- The record chosen is one of the list, and none of the list beats it.
abbrev pub IsBest : ImageRecord → List ImageRecord → Type 0
IsBest m rs = Unbeaten m rs × OneOf m rs

IsBest-eq : (m n : ImageRecord) (rs : List ImageRecord) → m ≡ n → IsBest n rs → IsBest m rs
IsBest-eq m n rs same h = rw same h

pub max_record-IsBest :
    (r : ImageRecord) (rs : List ImageRecord) → IsBest (max_record r rs) (r ∷ rs)
unfolding max_record
max_record-IsBest r [] = ((greater_key_irrefl (r.width * r.height) r.size, tt), inl refl)
max_record-IsBest r (s ∷ rs) = elim (Bool-cases (beats s r)) [
  | inl better ↦
      let rest = max_record-IsBest s rs in
      let down = greater_key_asymm (s.width * s.height) s.size (r.width * r.height) r.size better in
      IsBest-eq (max_record r (s ∷ rs)) (max_record s rs) (r ∷ s ∷ rs) (rw better refl)
        ((unbeaten_by r s (max_record s rs) down rest.0.0, rest.0), inr rest.1)
  | inr worse ↦
      let rest = max_record-IsBest r rs in
      IsBest-eq (max_record r (s ∷ rs)) (max_record r rs) (r ∷ s ∷ rs) (rw worse refl) (
        (rest.0.0, (unbeaten_by s r (max_record r rs) worse rest.0.0, rest.0.1)),
        elim rest.1 [ inl first ↦ inl first | inr later ↦ inr (inr later) ],
      )
]
