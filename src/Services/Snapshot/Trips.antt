-- ===== src/Services/Snapshot/Trips.antt =====
-- The groups that are read back.
use backhouse_dff.Base.{
  ℕ, ◌≡◌, refl, ap, inl, inr, String, false, some, List, [], ◌∷◌, All, arith, nat_beq, ◌==◌,
  text_key, Bool-cases,
}
use backhouse_dff.Engine.{DuplicateFile, DuplicateGroup, new_group}
use backhouse_dff.Services.Json.{str, num, list, obj, Items, nil, cons, Fields, end, field, get}
use backhouse_dff.Services.Snapshot.{
  Codec, or_json, file_fields, file_to_dict, add_json, file_from_dict, files_to_items,
  files_from_items, type_or_exact, group_from_dict, groups_to_items, groups_from_items,
  loaded_groups, load_last_scan_snapshot, snapshot_payload,
}

-- A number or its default, when the default is the number that stands for nothing.
or_zero_number : (n : ℕ) → or_json (num n) (num 0) ≡ num n
or_zero_number n = elim (Bool-cases (nat_beq n 0)) [
  | inl e ↦ let eq : n ≡ 0 = ground (arith, e) in rw eq refl
  | inr e ↦ rw e refl
]

or_empty_text : (s : String) → or_json (str s) (str "") ≡ str s
or_empty_text s = elim (Bool-cases (s == "")) [
  | inl e ↦ rw ((text_key.eqb_iff s "").0 e) refl
  | inr e ↦ rw e refl
]

some_number : (n one : ℕ) → nat_beq n 0 ≡ false → or_json (num n) (num one) ≡ num n
some_number n one h = rw h refl

module _ (c : Codec) where
  -- A file whose path is in normal form, whose similarity is not 0, and whose metadata json writes
  -- and reads.
  unfoldable pub IsWritable : DuplicateFile → Type 0
  IsWritable f =
      (c.norm f.path ≡ f.path)
      × (nat_beq f.similarity 0 ≡ false)
      × ((metadata : Fields) × (c.dump_metadata f.metadata ≡ some metadata)
          × (c.load_metadata metadata ≡ f.metadata))

  file_from_dict-file_fields :
      (f : DuplicateFile) (metadata : Fields)
      → c.norm f.path ≡ f.path
      → nat_beq f.similarity 0 ≡ false
      → c.load_metadata metadata ≡ f.metadata
      → file_from_dict c (file_fields c f metadata) ≡ some f
  unfolding file_from_dict get
  file_from_dict-file_fields f metadata path similar read =
      rw (or_zero_number f.size, or_zero_number f.modified, some_number f.similarity c.one similar)
        (rw (or_empty_text f.extension, path, read) refl)

  files_from_items-files_to_items :
      (files : List DuplicateFile)
      → All IsWritable files
      → (items : Items) × (files_to_items c files ≡ some items)
        × (files_from_items c items ≡ some files)
  unfolding files_to_items files_from_items IsWritable
  files_from_items-files_to_items [] h = (nil, refl, refl)
  files_from_items-files_to_items (f ∷ files) h =
      let (path, similar, m) = h.0 in
      let rest = files_from_items-files_to_items files h.1 in
      let written : file_to_dict c f ≡ some (obj (file_fields c f m.0)) =
        rw (m.1, file_to_dict) refl in
      (
        cons (obj (file_fields c f m.0)) rest.0,
        λ i. add_json c (written i) (rest.1 i),
        rw (file_from_dict-file_fields f m.0 path similar m.2, rest.2) refl,
      )

  -- A group as `__post_init__` makes it, with a type, of writable files.
  abbrev pub IsStored : DuplicateGroup → Type 0
  IsStored g =
      ((g.similarity_type == "") ≡ false)
      × (new_group g.group_id g.files g.similarity_type ≡ g)
      × All IsWritable g.files

  group_fields : DuplicateGroup → Items → Fields
  group_fields g items = field "group_id" (num g.group_id) (
      field "similarity_type" (str (type_or_exact c g.similarity_type))
        (field "files" (list items) end))

  or_empty_list : (items : Items) → or_json (list items) (list nil) ≡ list items
  or_empty_list nil = refl
  or_empty_list (cons j rest) = refl

  group_from_dict-group_fields :
      (g : DuplicateGroup) (items : Items)
      → (g.similarity_type == "") ≡ false
      → new_group g.group_id g.files g.similarity_type ≡ g
      → files_from_items c items ≡ some g.files
      → group_from_dict c (group_fields g items) ≡ some g
  unfolding group_from_dict get group_fields
  group_from_dict-group_fields g items typed made read =
      rw (or_empty_list items) (rw (read, typed) (rw typed (ap some made)))

  groups_from_items-groups_to_items :
      (groups : List DuplicateGroup)
      → All IsStored groups
      → (items : Items) × (groups_to_items c groups ≡ some items)
        × (groups_from_items c items ≡ groups)
  unfolding groups_to_items groups_from_items group_fields
  groups_from_items-groups_to_items [] h = (nil, refl, refl)
  groups_from_items-groups_to_items (g ∷ groups) h =
      let files = files_from_items-files_to_items g.files h.0.2 in
      let rest = groups_from_items-groups_to_items groups h.1 in
      (
        cons (obj (group_fields g files.0)) rest.0,
        rw (files.1, rest.1) refl,
        rw (group_from_dict-group_fields g files.0 h.0.0 h.0.1 files.2, rest.2) refl,
      )

  -- A snapshot of at least one group is loaded as the groups, the mode and the time that were
  -- saved, when the mode is not empty, each group has a type and the totals that `__post_init__`
  -- gives it, and each file a path in normal form, a similarity that is not 0, and metadata that
  -- json writes and reads.
  pub load_last_scan_snapshot-snapshot_payload :
      (g : DuplicateGroup) (groups : List DuplicateGroup) (scan_mode : String) (session_ts : ℕ)
      → (scan_mode == "") ≡ false
      → All IsStored (g ∷ groups)
      → load_last_scan_snapshot c (snapshot_payload c (g ∷ groups) scan_mode session_ts)
        ≡ some (g ∷ groups, scan_mode, session_ts)
  unfolding get
  load_last_scan_snapshot-snapshot_payload g groups scan_mode session_ts mode h =
      let all = groups_from_items-groups_to_items (g ∷ groups) h in
      rw (all.1, mode)
        (rw (or_empty_list all.0, or_zero_number session_ts, mode)
          (ap (λ gs. loaded_groups c (gs, scan_mode) (some session_ts)) all.2))
