-- ===== src/Deletion/Service/Tests.antt =====
-- The managed trash on a small file system, an association list of paths and contents.
use backhouse_dff.Base.{
  ℕ, Bool, false, ◌≡◌, refl, String, true, Option, none, some, List, [], ◌∷◌, arith, if◌then◌else◌,
  ◌==◌, text_key, ◌||◌, All, Bool-cases, inl, inr, eqb_refl,
}
use backhouse_dff.Deletion.Service.{
  TrashOps, TrashUndoTransaction, trash_one, trash_all, delete_to_managed_trash, restore_one,
  make_roots, restore_reversed, undo_last_trash_delete, trim_history,
}
use backhouse_dff.Base.Dict.{insert}
use backhouse_dff.Deletion.Adapters.{FileOps, trash, permanent, done, delete}
use backhouse_dff.Deletion.Engine.{execute_plan, delete_from, delete_one}
use backhouse_dff.Deletion.Service.Files.{delete_files, check_all}
use backhouse_dff.Deletion.Service.Laws.{TrashLaws, is_there, moved_content}
use backhouse_dff.Deletion.Service.Trashed.{IsFree, AreApart}
use backhouse_dff.Deletion.Service.Kept.{undo-delete_to_managed_trash}

-- The files and the folders. A path lies in the folder `d`, which itself lies in `e`.
pub record Disk : Type 0 where
  pub files : String → Option ℕ
  pub dirs : String → Bool

abbrev folder_of : String → String
folder_of p = if p == "d" then "e" else "d"

abbrev disk_move : Disk → String → String → Disk × Option String
disk_move w a b =
    if w.dirs (folder_of b)
    then (record w { files = moved_content a b w.files }, none)
    else (w, some "no such folder")

abbrev disk_mkdir : Disk → String → Disk × Option String
disk_mkdir w p =
    if is_there (w.files p)
    then (w, some "file exists")
    else (record w { dirs = λ x. x == p || w.dirs x }, none)

-- `a` and `b` have places of their own; other paths share one.
abbrev disk_ops : TrashOps Disk
disk_ops = record {
  exists = λ w p. is_there (w.files p) || w.dirs p;
  make_dir = disk_mkdir;
  move = disk_move;
  parent = folder_of;
  trash_root = "t";
  tx_root = λ tx. "t/tx";
  trash_place = λ tx p. if p == "a" then "trash/a" else if p == "b" then "trash/b" else "trash/ab";
  dup_name = λ p. "trash/ab__dup";
}

abbrev disk_file : Disk → String → Option ℕ
disk_file w p = w.files p

abbrev disk_dir : Disk → String → Bool
disk_dir w p = w.dirs p

abbrev same_path : String → String → Bool
same_path a p = a == p

folder_of-other : (p : String) → same_path p (folder_of p) ≡ false
folder_of-other p = elim (Bool-cases (p == "d")) [
  | inl e ↦ let eq = (text_key.eqb_iff p "d").0 e in rw eq refl
  | inr e ↦ rw e e
]

disk_mkdir-files : (w : Disk) (p x : String) → (disk_mkdir w p).0.files x ≡ w.files x
disk_mkdir-files w p x = elim (Bool-cases (is_there (w.files p))) [
  | inl e ↦ rw e refl
  | inr e ↦ rw e refl
]

disk_mkdir-grows :
    (w : Disk) (p x : String)
    → w.dirs x ≡ false
    → same_path x p ≡ false
    → (disk_mkdir w p).0.dirs x ≡ false
disk_mkdir-grows w p x h other = elim (Bool-cases (is_there (w.files p))) [
  | inl e ↦ rw e h
  | inr e ↦ rw (e, other) h
]

disk_mkdir-makes :
    (w : Disk) (p : String) → (disk_mkdir w p).1 ≡ none → (disk_mkdir w p).0.dirs p ≡ true
disk_mkdir-makes w p h = elim (Bool-cases (is_there (w.files p))) [
  | inl e ↦ absurd (let bad = rw e at h in ground (arith, bad))
  | inr e ↦ let self = eqb_refl p in rw (e, self) refl
]

disk_laws : TrashLaws disk_ops disk_file disk_dir same_path
disk_laws = record {
  exists_at = λ w p. refl;
  not_above = folder_of-other;
  dir_files = disk_mkdir-files;
  dir_grows = disk_mkdir-grows;
  makes = disk_mkdir-makes;
  can_make = λ w p way. let free = way p (eqb_refl p) in rw free refl;
  can_move = λ w a b can. let up = can.3 in rw up (refl, λ x. refl, λ x. refl);
}

abbrev disk : Disk
disk = record {
  files = λ p. if p == "a" then some 1 else if p == "b" then some 2 else none;
  dirs = λ p. p == "d";
}

-- The disk after the deletion, and without its folders.
abbrev emptied : Disk
emptied = record {
  files = λ p. if p == "trash/b" then some 2 else if p == "trash/a" then some 1 else none;
  dirs = λ p. false;
}

emptied-files :
    (x : String)
    → emptied.files x
      ≡ (delete_to_managed_trash disk_ops "tx" 9 ("a" ∷ "gone" ∷ "b" ∷ []) disk []).0.0.files x
unfolding delete_to_managed_trash make_roots trash_all trash_one
emptied-files x = elim (Bool-cases (x == "trash/b")) [
  | inl e ↦ rw e refl
  | inr e ↦ rw e (elim (Bool-cases (x == "trash/a")) [
    | inl f ↦ let eq = (text_key.eqb_iff x "trash/a").0 f in rw (f, eq) refl
    | inr f ↦ rw f (elim (Bool-cases (x == "a")) [
      | inl g ↦ let eq = (text_key.eqb_iff x "a").0 g in rw (g, eq) refl
      | inr g ↦ rw g (elim (Bool-cases (x == "b")) [ inl h ↦ rw h refl | inr h ↦ rw h refl ])
    ])
  ])
]

undo_run :
    (undo_last_trash_delete disk_ops
      (delete_to_managed_trash disk_ops "tx" 9 ("a" ∷ "gone" ∷ "b" ∷ []) disk []).0.0
      (delete_to_managed_trash disk_ops "tx" 9 ("a" ∷ "gone" ∷ "b" ∷ []) disk []).1).2
    ≡ 2
unfolding undo_last_trash_delete delete_to_managed_trash make_roots trash_all trash_one
    restore_reversed restore_one trim_history
undo_run = refl

-- Three files whose paths lose their colons and become one place: the third file takes the place
-- of the second one, which no undo brings back.
abbrev colons : Disk
colons = record {
  files = λ p.
      if p == ":ab"
      then some 1
      else if p == "a:b"
      then some 2
      else if p == "ab:"
      then some 3
      else none;
  dirs = λ p. false;
}

abbrev after_undo : Disk
after_undo =
    (undo_last_trash_delete disk_ops
      (delete_to_managed_trash disk_ops "tx" 9 (":ab" ∷ "a:b" ∷ "ab:" ∷ []) colons []).0.0
      (delete_to_managed_trash disk_ops "tx" 9 (":ab" ∷ "a:b" ∷ "ab:" ∷ []) colons []).1).0.0

second_lost : after_undo.files "a:b" ≡ none
unfolding undo_last_trash_delete delete_to_managed_trash make_roots trash_all trash_one
    restore_reversed restore_one trim_history
second_lost = refl

-- The same disk for the deletion engine.
abbrev disk_fs : FileOps Disk String
disk_fs = record {
  exists = λ d p. is_there (d.files p);
  is_file = λ d p. is_there (d.files p);
  stat_size = λ d p. done 5;
  name = λ p. p;
  send2trash_available = false;
  send2trash = λ d p. (d, some "missing");
  make_trash_dir = λ d. (d, none);
  trash_dest = λ d p. "trash/ab";
  move = disk_move;
  remove = λ d p. (d, if p == "b" then some "in use" else none);
  rmtree = λ d p. (d, none);
}

abbrev never_raises : ℕ → ℕ → String → Bool
never_raises i total name = false

delete_files_run :
    (delete_files disk_fs disk_ops "tx" 9 never_raises permanent
      ("a" ∷ "gone" ∷ "b" ∷ [])
      disk
      []).1
    ≡ some (record {
      deleted_count = 1;
      failed_count = 2;
      bytes_reclaimed = 5;
      deleted_paths = "a" ∷ [];
      failures = ("gone", "File not found") ∷ ("b", "in use") ∷ [];
    })
unfolding delete_files check_all execute_plan delete_from delete_one insert delete
delete_files_run = refl

-- A file stands where the folder of the trash should be.
abbrev no_trash : Disk
no_trash = record disk { files = λ p. if p == "t" then some 0 else disk.files p }

delete_files_raises :
    (delete_files disk_fs disk_ops "tx" 9 never_raises trash ("a" ∷ "b" ∷ []) no_trash []).1 ≡ none
unfolding delete_files check_all delete_to_managed_trash make_roots insert
delete_files_raises = refl

abbrev made_disk : Disk
made_disk = (make_roots disk_ops "tx" disk).0

disk-IsFree :
    All
      (IsFree disk_ops disk_file disk_dir same_path disk_laws "tx" made_disk)
      ("a" ∷ "gone" ∷ "b" ∷ [])
unfolding make_roots
disk-IsFree = (
  (refl, refl, refl, in_folder),
  ((refl, refl, refl, in_folder), ((refl, refl, refl, in_folder), tt)),
)
  where
    in_folder : (x : String) → (x == "d") ≡ true → is_there (disk.files x) ≡ false
    in_folder x h = let eq = (text_key.eqb_iff x "d").0 h in rw eq refl

disk-AreApart :
    AreApart disk_ops disk_file disk_dir same_path disk_laws "tx" ("a" ∷ "gone" ∷ "b" ∷ [])
disk-AreApart = (
  refl,
  ((refl, refl, refl, refl, refl), ((refl, refl, refl, refl, refl), tt)),
  (refl, ((refl, refl, refl, refl, refl), tt), (refl, tt, tt)),
)

undo-delete_to_managed_trash_example :
    (w' : Disk) × (before : List TrashUndoTransaction) × (undo_last_trash_delete disk_ops emptied
        (delete_to_managed_trash disk_ops "tx" 9 ("a" ∷ "gone" ∷ "b" ∷ []) disk []).1
      ≡ ((w', before), true, 2))
    × ((x : String) → w'.files x ≡ disk.files x)
unfolding delete_to_managed_trash make_roots trash_all trash_one
undo-delete_to_managed_trash_example =
    undo-delete_to_managed_trash disk_ops disk_file disk_dir same_path disk_laws "tx" 9
      ("a" ∷ "gone" ∷ "b" ∷ []) disk emptied [] ("a", "trash/a") (("b", "trash/b") ∷ []) refl
      disk-IsFree disk-AreApart refl emptied-files (refl, (refl, (refl, tt)))
