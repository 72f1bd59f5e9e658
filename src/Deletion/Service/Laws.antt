-- ===== src/Deletion/Service/Laws.antt =====
-- The file system below the managed trash: its laws, and what moves do to the content of a path.
use backhouse_dff.Base.{
  ◌≡◌, refl, sym, ap, ◌∙◌, inl, inr, String, Bool, true, false, Option, none, some, arith,
  if◌then◌else◌, ◌==◌, text_key, eqb_refl, Bool-cases, ◌||◌,
}
use backhouse_dff.Deletion.Service.{TrashOps}

abbrev pub is_there {ℓ} : {C : Type ℓ} → Option C → Bool
is_there none = false
is_there (some c) = true

-- What a path reads after a move.
abbrev pub moved_content {ℓ} :
    {C : Type ℓ} → String → String → (String → Option C) → String → Option C
moved_content a b content x = if x == b then content a else if x == a then none else content x

pub there_and_back {ℓ} :
    {C : Type ℓ} (a b : String) (f g : String → Option C) (x : String)
    → f b ≡ none
    → ((y : String) → g y ≡ moved_content a b f y)
    → moved_content b a g x ≡ f x
there_and_back a b f g x free read = elim (Bool-cases (x == a)) [
  | inl here ↦
      let self = eqb_refl b in
      rw here (read b ∙ rw self (ap f (sym ((text_key.eqb_iff x a).0 here))))
  | inr not_a ↦ elim (Bool-cases (x == b)) [
    | inl there ↦ rw (not_a, there) (sym (ap f ((text_key.eqb_iff x b).0 there) ∙ free))
    | inr not_b ↦ rw (not_a, not_b) (read x ∙ rw (not_b, not_a) refl)
  ]
]

-- A file that is there, a free place, and the folder of that place.
abbrev pub CanMove :
    {W C : Type 0}
    → TrashOps W
    → (W → String → Option C)
    → (W → String → Bool)
    → W
    → String
    → String
    → Type 0
CanMove ops file_at is_dir w a b =
    (is_there (file_at w a) ≡ true)
    × (file_at w b ≡ none)
    × (is_dir w b ≡ false)
    × (is_dir w (ops.parent b) ≡ true)

pub different {ℓ} :
    {C : Type ℓ} (f : String → Option C) (a b : String)
    → is_there (f a) ≡ true
    → f b ≡ none
    → (a == b) ≡ false
different f a b there free = elim (Bool-cases (a == b)) [
  | inl same ↦
      let eq = (text_key.eqb_iff a b).0 same in
      let back = rw eq at there in absurd (let empty = rw free at back in ground (arith, empty))
  | inr other ↦ other
]

-- After a move, still no file is above a path, where there was none and the place is not above it.
pub no_file_above {ℓ} :
    {C : Type ℓ} (is_above : String → String → Bool) (f : String → Option C) (a b up : String)
    → is_above a up ≡ false
    → is_above b up ≡ false
    → ((x : String) → is_above x up ≡ true → is_there (f x) ≡ false)
    → (x : String) → is_above x up ≡ true
    → (now : Option C) → now ≡ moved_content a b f x
    → is_there now ≡ false
no_file_above is_above f a b up not_a not_b way x above now read =
    ap is_there read ∙ elim (Bool-cases (x == b)) [
      | inl same ↦
          let eq = (text_key.eqb_iff x b).0 same in
          let no = rw eq at above in absurd (let clash = sym no ∙ not_b in ground (arith, clash))
      | inr other ↦
          rw other (elim (Bool-cases (x == a)) [ inl e ↦ rw e refl | inr e ↦ rw e (way x above) ])
    ]

-- What the file system does, by the content of each file, the folders, and `is_above a p`: that `a`
-- is `p` or one of its parents. A move of a file to a free place in a folder that is there, and a
-- `mkdir` with no file in its way, do not fail.
pub record TrashLaws {W C : Type 0} (ops : TrashOps W) (file_at : W → String → Option C)
    (is_dir : W → String → Bool) (is_above : String → String → Bool) : Type 0 where
  pub exists_at : (w : W) (p : String) → ops.exists w p ≡ (is_there (file_at w p) || is_dir w p)
  pub not_above : (p : String) → is_above p (ops.parent p) ≡ false
  pub dir_files : (w : W) (p x : String) → file_at (ops.make_dir w p).0 x ≡ file_at w x
  pub dir_grows :
      (w : W) (p x : String)
      → is_dir w x ≡ false
      → is_above x p ≡ false
      → is_dir (ops.make_dir w p).0 x ≡ false
  pub makes :
      (w : W) (p : String) → (ops.make_dir w p).1 ≡ none → is_dir (ops.make_dir w p).0 p ≡ true
  pub can_make :
      (w : W) (p : String)
      → ((x : String) → is_above x p ≡ true → is_there (file_at w x) ≡ false)
      → (ops.make_dir w p).1 ≡ none
  pub can_move :
      (w : W) (a b : String)
      → CanMove ops file_at is_dir w a b
      → ((ops.move w a b).1 ≡ none)
        × ((x : String) → file_at (ops.move w a b).0 x ≡ moved_content a b (file_at w) x)
        × ((x : String) → is_dir (ops.move w a b).0 x ≡ is_dir w x)
