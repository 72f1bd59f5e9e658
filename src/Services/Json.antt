-- ===== src/Services/Json.antt =====
-- The values of a JSON file, as the configuration holds them.
use backhouse_dff.Base.{
  ℕ, ◌≡◌, refl, inl, inr, String, Bool, false, Option, none, some, List, [], ◌∷◌, if◌then◌else◌,
  text_key, ◌==◌, eqb_refl, arith, Bool-cases,
}

mutual
  pub data Json : Type 0 where
    null : Json
    str : String → Json
    num : ℕ → Json
    flag : Bool → Json
    list : Items → Json
    obj : Fields → Json

  pub data Items : Type 0 where
    nil : Items
    cons : Json → Items → Items

  pub data Fields : Type 0 where
    end : Fields
    field : String → Json → Fields → Fields

abbrev pub of_list : List (String × Json) → Fields
of_list [] = end
of_list (entry ∷ rest) = field entry.0 entry.1 (of_list rest)

abbrev pub dict : List (String × Json) → Json
dict entries = obj (of_list entries)

-- `d.get(k)`
unfoldable pub get : String → Fields → Option Json
get k end = none
get k (field j v rest) = if j == k then some v else get k rest

-- `d.get(k, default)`
abbrev pub get_or : String → Json → Fields → Json
get_or k default fields = elim (get k fields) [ none ↦ default | some v ↦ v ]

-- `d[k] = v`
unfoldable pub set : String → Json → Fields → Fields
set k v end = field k v end
set k v (field j w rest) =
    let later = set k v rest in if j == k then field j v rest else field j w later

pub get-set_self : (k : String) (v : Json) (d : Fields) → get k (set k v d) ≡ some v
unfolding get set
get-set_self k v end = rw (eqb_refl k) refl
get-set_self k v (field j w rest) = elim (Bool-cases (j == k)) [
  | inl here ↦ rw here (rw here refl)
  | inr there ↦ rw there (rw there (get-set_self k v rest))
]

pub get-set_other :
    (k r : String) (v : Json) (d : Fields) → (k == r) ≡ false → get r (set k v d) ≡ get r d
unfolding get set
get-set_other k r v end h = rw h refl
get-set_other k r v (field j w rest) h = elim (Bool-cases (j == k)) [
  | inl here ↦ let eq = (text_key.eqb_iff j k).0 here in rw here (rw (eq, h) refl)
  | inr there ↦ rw there (ground (arith, get-set_other k r v rest h))
]
