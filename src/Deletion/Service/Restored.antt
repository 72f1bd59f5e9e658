-- ===== src/Deletion/Service/Restored.antt =====
-- The undo against the files before the deletion.
use backhouse_dff.Base.{
  ℕ, suc, ◌≡◌, refl, sym, ap, ◌∙◌, inl, inr, String, Bool, true, false, Option, none, List, [], ◌∷◌,
  ◌++◌, All, text_key, eqb_refl, length, Bool-cases, Option-cases,
}
use mathlib.Core.List.{append_assoc, append-nil}
use backhouse_dff.Deletion.Service.{
  TrashOps, TrashBatch, empty_batch, text_or, fail, succeed, trash_all, after_restore, restore_move,
  restore_one, restore_reversed,
}
use backhouse_dff.Deletion.Service.Laws.{
  is_there, moved_content, there_and_back, CanMove, different, no_file_above, TrashLaws,
}
use backhouse_dff.Deletion.Service.Trashed.{
  AreApart, IsApart, IsFree, exists-file, step-AllFree, trash_one-blocked, trash_one-missing,
  trash_one-there, trash_world, trash_world-IsFree, trash_world-file_at, with_folder,
  with_folder-IsFree, with_folder-file_at,
}

module _ {W C : Type 0} (ops : TrashOps W) (file_at : W → String → Option C)
    (is_dir : W → String → Bool) (is_above : String → String → Bool)
    (laws : TrashLaws ops file_at is_dir is_above) (tx_id : String) where
  -- The way back of one file, in a world whose files are those after the move.
  restore_one-there :
      (w w' : W) (src : String) (n : ℕ)
      → ops.exists w src ≡ true
      → IsFree ops file_at is_dir is_above laws tx_id w src
      → is_above (ops.trash_place tx_id src) (ops.parent src) ≡ false
      → ((x : String) → file_at w' x ≡ moved_content src (ops.trash_place tx_id src) (file_at w) x)
      → is_dir w' src ≡ false
      → (w2 : W) × (restore_one ops (src, ops.trash_place tx_id src) (w', n, true)
          ≡ (w2, suc n, true))
        × ((x : String) → file_at w2 x ≡ file_at w x)
        × ((x : String)
            → is_dir w' x ≡ false
            → is_above x (ops.parent src) ≡ false
            → is_dir w2 x ≡ false)
  unfolding restore_one
  restore_one-there w w' src n there free low read no_dir =
      let dst = ops.trash_place tx_id src in
      let up = ops.parent src in
      let held : is_there (file_at w src) ≡ true =
        sym (exists-file ops file_at is_dir is_above laws tx_id w src free.0) ∙ there in
      let apart = different (file_at w) src dst held free.1 in
      let at_dst : file_at w' dst ≡ file_at w src =
        read dst ∙ (let self = eqb_refl dst in rw self refl) in
      let at_src : file_at w' src ≡ none =
        read src ∙ (let self = eqb_refl src in rw (apart, self) refl) in
      let found : ops.exists w' dst ≡ true = laws.exists_at w' dst ∙ rw (at_dst, held) refl in
      let way : (x : String) → is_above x up ≡ true → is_there (file_at w' x) ≡ false = λ x above.
        no_file_above is_above (file_at w) src dst up (laws.not_above src) low free.3 x above
          (file_at w' x) (read x) in
      let made = laws.can_make w' up way in
      let w1 = (ops.make_dir w' up).0 in
      let keeps = laws.dir_files w' up in
      let can : CanMove ops file_at is_dir w1 dst src = (
        ap is_there (keeps dst ∙ at_dst) ∙ held,
        keeps src ∙ at_src,
        laws.dir_grows w' up src no_dir (laws.not_above src),
        laws.makes w' up made,
      ) in
      let moves = laws.can_move w1 dst src can in
      (
        (ops.move w1 dst src).0,
        rw found (
            ap (restore_move ops src dst n true) (λ i. (w1, made i))
            ∙ ap (after_restore ops n true) (λ i. ((ops.move w1 dst src).0, moves.0 i))),
        λ x.
            moves.1 x
            ∙ there_and_back src dst (file_at w) (file_at w1) x free.1 (λ y. keeps y ∙ read y),
        λ x none_yet beside. moves.2 x ∙ laws.dir_grows w' up x none_yet beside,
      )

  -- What the undo leaves of a world with the files that are left after the paths are trashed,
  -- whatever its folders are.
  abbrev Back : W → List String → List (String × String) → W → W → Type 0
  Back w srcs moved out w1 =
      ((x : String) → file_at w1 x ≡ file_at out x)
      → All (λ src. is_dir w1 src ≡ false) srcs
      → (w2 : W) × (restore_reversed ops moved (w1, 0, true) ≡ (w2, length moved, true))
        × ((x : String) → file_at w2 x ≡ file_at w x)
        × ((x : String)
            → is_dir w1 x ≡ false
            → All (λ src. is_above x (ops.parent src) ≡ false) srcs
            → is_dir w2 x ≡ false)

  abbrev Restores : W → List String → List (String × String) → W × TrashBatch → Type 0
  Restores w srcs before out =
      (moved : List (String × String)) × (out.1.moved ≡ before ++ moved)
      × ((w1 : W) → Back w srcs moved out.0 w1)

  Restores-eq :
      (w : W) (srcs : List String) (before : List (String × String)) (out out' : W × TrashBatch)
      → out ≡ out'
      → Restores w srcs before out'
      → Restores w srcs before out
  Restores-eq w srcs before out out' same h = rw same h

  -- A path that is not moved.
  Restores-skip :
      (w v : W) (src : String) (srcs : List String) (before : List (String × String))
      (out : W × TrashBatch)
      → ((x : String) → file_at v x ≡ file_at w x)
      → Restores v srcs before out
      → Restores w (src ∷ srcs) before out
  Restores-skip w v src srcs before out same rest = (
    rest.0,
    rest.1,
    λ w1 files dirs.
        let back = rest.2 w1 files dirs.1 in
        (back.0, back.1, λ x. back.2 x ∙ same x, λ x none_yet h. back.3 x none_yet h.1),
  )

  Restores-moved :
      (w : W) (src : String) (srcs : List String) (b : TrashBatch) (out : W × TrashBatch)
      → ops.exists w src ≡ true
      → IsFree ops file_at is_dir is_above laws tx_id w src
      → (ops.make_dir w (ops.parent (ops.trash_place tx_id src))).1 ≡ none
      → AreApart ops file_at is_dir is_above laws tx_id (src ∷ srcs)
      → Restores
          (trash_world ops file_at is_dir is_above laws tx_id w src)
          srcs
          (succeed src (ops.trash_place tx_id src) b).moved
          out
      → Restores w (src ∷ srcs) b.moved out
  unfolding restore_reversed
  Restores-moved w src srcs b out there free made apart rest =
      let dst = ops.trash_place tx_id src in
      (
        (src, dst) ∷ rest.0,
        rest.1 ∙ append_assoc b.moved ((src, dst) ∷ []) rest.0,
        λ w1 files dirs.
            let back = rest.2 w1 files dirs.1 in
            let one =
              restore_one-there w back.0 src (length rest.0) there free apart.0
                (λ x.
                  back.2 x
                  ∙ trash_world-file_at ops file_at is_dir is_above laws tx_id w src x there free
                      made)
                (back.3 src dirs.0 (beside srcs apart.1)) in
            (
              one.0,
              ap (restore_one ops (src, dst)) back.1 ∙ one.1,
              one.2,
              λ x none_yet h. one.3 x (back.3 x none_yet h.1) h.0,
            ),
      )
    where
      beside :
          (laters : List String)
          → All (IsApart ops file_at is_dir is_above laws tx_id src) laters
          → All (λ later. is_above src (ops.parent later) ≡ false) laters
      beside [] h = tt
      beside (later ∷ laters) h = (h.0.4, beside laters h.1)

  trash_all-Restores :
      (srcs : List String) (w : W) (b : TrashBatch)
      → All (IsFree ops file_at is_dir is_above laws tx_id w) srcs
      → AreApart ops file_at is_dir is_above laws tx_id srcs
      → Restores w srcs b.moved (trash_all ops tx_id srcs (w, b))
  unfolding trash_all restore_reversed
  trash_all-Restores [] w b free apart =
      ([], sym (append-nil b.moved), λ w1 files dirs. (w1, refl, files, λ x h k. h))
  trash_all-Restores (src ∷ srcs) w b free apart = elim (Bool-cases (ops.exists w src)) [
    | inr gone ↦
        let failed = fail src "File disappeared before move" b in
        Restores-eq w (src ∷ srcs) b.moved (trash_all ops tx_id (src ∷ srcs) (w, b))
          (trash_all ops tx_id srcs (w, failed))
          (ap (trash_all ops tx_id srcs)
            (trash_one-missing ops file_at is_dir is_above laws tx_id w b src gone))
          (Restores-skip w w src srcs b.moved (trash_all ops tx_id srcs (w, failed)) (λ x. refl)
            (trash_all-Restores srcs w failed free.1 apart.2))
    | inl there ↦ elim (Option-cases (ops.make_dir w (ops.parent (ops.trash_place tx_id src))).1) [
      | inl made ↦
          let v = trash_world ops file_at is_dir is_above laws tx_id w src in
          let moved = succeed src (ops.trash_place tx_id src) b in
          Restores-eq w (src ∷ srcs) b.moved (trash_all ops tx_id (src ∷ srcs) (w, b))
            (trash_all ops tx_id srcs (v, moved))
            (ap (trash_all ops tx_id srcs)
              (trash_one-there ops file_at is_dir is_above laws tx_id w b src there free.0 made))
            (Restores-moved w src srcs b (trash_all ops tx_id srcs (v, moved)) there free.0 made
              apart
              (trash_all-Restores srcs v moved
                (step-AllFree ops file_at is_dir is_above laws tx_id v w src srcs
                  (λ later.
                    trash_world-IsFree ops file_at is_dir is_above laws tx_id w src later there
                      free.0 made)
                  apart.1 free.1)
                apart.2))
      | inr blocked ↦
          let v = with_folder ops file_at is_dir is_above laws tx_id w src in
          let failed = fail src (text_or "Move to managed storage failed" blocked.0) b in
          Restores-eq w (src ∷ srcs) b.moved (trash_all ops tx_id (src ∷ srcs) (w, b))
            (trash_all ops tx_id srcs (v, failed))
            (ap (trash_all ops tx_id srcs) (
              trash_one-blocked ops file_at is_dir is_above laws tx_id w b src blocked.0 there
                blocked.1))
            (Restores-skip w v src srcs b.moved (trash_all ops tx_id srcs (v, failed))
              (with_folder-file_at ops file_at is_dir is_above laws tx_id w src)
              (trash_all-Restores srcs v failed
                (step-AllFree ops file_at is_dir is_above laws tx_id v w src srcs
                  (λ later. with_folder-IsFree ops file_at is_dir is_above laws tx_id w src later)
                  apart.1 free.1)
                apart.2))
    ]
  ]

  -- When the places in the trash are free and apart: the undo of the moves of a managed-trash
  -- deletion restores as many files as were moved, with no failure, and leaves the files as they
  -- were before, in every world with the files that the deletion left and no folder at a path.
  pub restore_reversed-trash_all :
      (srcs : List String) (w w1 : W)
      → All (IsFree ops file_at is_dir is_above laws tx_id w) srcs
      → AreApart ops file_at is_dir is_above laws tx_id srcs
      → ((x : String) → file_at w1 x ≡ file_at (trash_all ops tx_id srcs (w, empty_batch)).0 x)
      → All (λ src. is_dir w1 src ≡ false) srcs
      → (w2 : W) × (restore_reversed ops
            (trash_all ops tx_id srcs (w, empty_batch)).1.moved
            (w1, 0, true)
          ≡ (w2, length (trash_all ops tx_id srcs (w, empty_batch)).1.moved, true))
        × ((x : String) → file_at w2 x ≡ file_at w x)
  restore_reversed-trash_all srcs w w1 free apart files dirs =
      let all = trash_all-Restores srcs w empty_batch free apart in
      let back = all.2 w1 files dirs in (back.0, rw (all.1) back.1, back.2)
