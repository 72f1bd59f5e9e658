-- ===== src/Deletion/Service/Trashed.antt =====
-- What a step of the managed-trash deletion does to the files, the folders and the paths after it.
use backhouse_dff.Base.{
  ◌≡◌, refl, sym, ap, ◌∙◌, inl, inr, String, Bool, true, false, Option, none, some, List, [], ◌∷◌,
  All, if◌then◌else◌, ◌==◌, text_key, Bool-cases,
}
use backhouse_dff.Deletion.Service.{
  TrashOps, TrashBatch, text_or, fail, succeed, after_move, after_mkdir, trash_one,
}
use backhouse_dff.Deletion.Service.Laws.{is_there, moved_content, CanMove, no_file_above, TrashLaws}

module _ {W C : Type 0} (ops : TrashOps W) (file_at : W → String → Option C)
    (is_dir : W → String → Bool) (is_above : String → String → Bool)
    (laws : TrashLaws ops file_at is_dir is_above) (tx_id : String) where
  -- A path is no folder and no file lies above it; its place in the trash is free.
  abbrev pub IsFree : W → String → Type 0
  IsFree w src =
      (is_dir w src ≡ false)
      × (file_at w (ops.trash_place tx_id src) ≡ none)
      × (is_dir w (ops.trash_place tx_id src) ≡ false)
      × ((x : String) → is_above x (ops.parent src) ≡ true → is_there (file_at w x) ≡ false)

  -- Neither the place of a path is above or the same as a later path or its place, nor the
  -- other way round, nor is the later path below the path.
  abbrev pub IsApart : String → String → Type 0
  IsApart src later =
      ((ops.trash_place tx_id later == ops.trash_place tx_id src) ≡ false)
      × (is_above (ops.trash_place tx_id later) (ops.parent (ops.trash_place tx_id src)) ≡ false)
      × (is_above later (ops.parent (ops.trash_place tx_id src)) ≡ false)
      × (is_above (ops.trash_place tx_id src) (ops.parent later) ≡ false)
      × (is_above src (ops.parent later) ≡ false)

  -- No place in the trash is above its own path, and later paths are apart.
  abbrev pub AreApart : List String → Type 0
  AreApart [] = Unit
  AreApart (src ∷ srcs) =
      (is_above (ops.trash_place tx_id src) (ops.parent src) ≡ false)
      × All (IsApart src) srcs
      × AreApart srcs

  -- The folder of the place of a path is made, and then the path is moved there.
  unfoldable pub with_folder : W → String → W
  with_folder w src = (ops.make_dir w (ops.parent (ops.trash_place tx_id src))).0

  unfoldable pub trash_world : W → String → W
  trash_world w src = (ops.move (with_folder w src) src (ops.trash_place tx_id src)).0

  pub exists-file :
      (w : W) (p : String) → is_dir w p ≡ false → ops.exists w p ≡ is_there (file_at w p)
  exists-file w p h =
      laws.exists_at w p
      ∙ (elim (Bool-cases (is_there (file_at w p))) [ inl e ↦ rw e refl | inr e ↦ rw e h ])

  pub exists-free :
      (w : W) (p : String) → file_at w p ≡ none → is_dir w p ≡ false → ops.exists w p ≡ false
  exists-free w p empty h = exists-file w p h ∙ ap is_there empty

  pub trash_one-missing :
      (w : W) (b : TrashBatch) (src : String)
      → ops.exists w src ≡ false
      → trash_one ops tx_id src (w, b) ≡ (w, fail src "File disappeared before move" b)
  unfolding trash_one
  trash_one-missing w b src gone = rw gone refl

  pub trash_one-blocked :
      (w : W) (b : TrashBatch) (src e : String)
      → ops.exists w src ≡ true
      → (ops.make_dir w (ops.parent (ops.trash_place tx_id src))).1 ≡ some e
      → trash_one ops tx_id src (w, b)
        ≡ (with_folder w src, fail src (text_or "Move to managed storage failed" e) b)
  unfolding trash_one with_folder
  trash_one-blocked w b src e there blocked =
      rw there (
        ap (after_mkdir ops src (ops.trash_place tx_id src) b)
          (λ i. (with_folder w src, blocked i)))

  pub with_folder-CanMove :
      (w : W) (src : String)
      → ops.exists w src ≡ true
      → IsFree w src
      → (ops.make_dir w (ops.parent (ops.trash_place tx_id src))).1 ≡ none
      → CanMove ops file_at is_dir (with_folder w src) src (ops.trash_place tx_id src)
  unfolding with_folder
  with_folder-CanMove w src there free made =
      let dst = ops.trash_place tx_id src in
      let up = ops.parent dst in
      (
        ap is_there (laws.dir_files w up src) ∙ sym (exists-file w src free.0) ∙ there,
        laws.dir_files w up dst ∙ free.1,
        laws.dir_grows w up dst free.2 (laws.not_above dst),
        laws.makes w up made,
      )

  pub trash_one-there :
      (w : W) (b : TrashBatch) (src : String)
      → ops.exists w src ≡ true
      → IsFree w src
      → (ops.make_dir w (ops.parent (ops.trash_place tx_id src))).1 ≡ none
      → trash_one ops tx_id src (w, b)
        ≡ (trash_world w src, succeed src (ops.trash_place tx_id src) b)
  unfolding trash_one trash_world with_folder
  trash_one-there w b src there free made =
      let dst = ops.trash_place tx_id src in
      let w1 = with_folder w src in
      let can = with_folder-CanMove w src there free made in
      let unused = exists-free w1 dst can.1 can.2 in
      let moves = (laws.can_move w1 src dst can).0 in
      rw there (
        ap (after_mkdir ops src dst b) (λ i. (w1, made i))
        ∙ rw unused (ap (after_move ops src dst b) (λ i. ((ops.move w1 src dst).0, moves i))))

  pub trash_world-file_at :
      (w : W) (src x : String)
      → ops.exists w src ≡ true
      → IsFree w src
      → (ops.make_dir w (ops.parent (ops.trash_place tx_id src))).1 ≡ none
      → file_at (trash_world w src) x ≡ moved_content src (ops.trash_place tx_id src) (file_at w) x
  unfolding trash_world with_folder
  trash_world-file_at w src x there free made =
      let dst = ops.trash_place tx_id src in
      let up = ops.parent dst in
      (laws.can_move (with_folder w src) src dst (with_folder-CanMove w src there free made)).1 x
      ∙ (λ i.
          if x == dst
          then laws.dir_files w up src i
          else if x == src
          then none
          else laws.dir_files w up x i)

  pub with_folder-IsFree :
      (w : W) (src later : String)
      → IsApart src later
      → IsFree w later
      → IsFree (with_folder w src) later
  unfolding with_folder
  with_folder-IsFree w src later apart free =
      let up = ops.parent (ops.trash_place tx_id src) in
      (
        laws.dir_grows w up later free.0 apart.2,
        laws.dir_files w up (ops.trash_place tx_id later) ∙ free.1,
        laws.dir_grows w up (ops.trash_place tx_id later) free.2 apart.1,
        λ x h. ap is_there (laws.dir_files w up x) ∙ free.3 x h,
      )

  pub with_folder-file_at : (w : W) (src x : String) → file_at (with_folder w src) x ≡ file_at w x
  unfolding with_folder
  with_folder-file_at w src x = laws.dir_files w (ops.parent (ops.trash_place tx_id src)) x

  pub trash_world-IsFree :
      (w : W) (src later : String)
      → ops.exists w src ≡ true
      → IsFree w src
      → (ops.make_dir w (ops.parent (ops.trash_place tx_id src))).1 ≡ none
      → IsApart src later
      → IsFree w later
      → IsFree (trash_world w src) later
  unfolding trash_world
  trash_world-IsFree w src later there free made apart h =
      let dst = ops.trash_place tx_id src in
      let spot = ops.trash_place tx_id later in
      let between = with_folder-IsFree w src later apart h in
      let can = with_folder-CanMove w src there free made in
      let dirs = (laws.can_move (with_folder w src) src dst can).2 in
      let read : (x : String)
          → file_at (trash_world w src) x ≡ moved_content src dst (file_at w) x =
        λ x. trash_world-file_at w src x there free made in
      (
        dirs later ∙ between.0,
        read spot
            ∙ rw (apart.0)
                (elim (Bool-cases (spot == src)) [ inl e ↦ rw e refl | inr e ↦ rw e (h.1) ]),
        dirs spot ∙ between.2,
        λ x above.
            no_file_above is_above (file_at w) src dst (ops.parent later) apart.4 apart.3 h.3 x
              above _ (read x),
      )

  pub step-AllFree :
      (v w : W) (src : String) (srcs : List String)
      → ((later : String) → IsApart src later → IsFree w later → IsFree v later)
      → All (IsApart src) srcs
      → All (IsFree w) srcs
      → All (IsFree v) srcs
  step-AllFree v w src [] step apart free = tt
  step-AllFree v w src (later ∷ srcs) step apart free =
      (step later apart.0 free.0, step-AllFree v w src srcs step apart.1 free.1)
