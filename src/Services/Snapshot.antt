-- ===== src/Services/Snapshot.antt =====
-- cerebro/v2/persistence/scan_snapshot.py: groups of duplicates as JSON and back. `json` writes and
-- reads the values below; what it makes of a file's metadata, and what `str`, `int` and `float` make
-- of a value of another kind, are parameters. Numbers are whole numbers of a fixed small unit.
pub mod Trips
mod Tests
use backhouse_dff.Base.{
  ℕ, String, Bool, true, false, not, Option, none, some, List, [], ◌∷◌, map, if◌then◌else◌, nat_beq,
  ltb, ◌==◌, text_key,
}
use backhouse_dff.Base.Value.{Value}
use backhouse_dff.Engine.{DuplicateFile, DuplicateGroup, new_group}
use backhouse_dff.Services.Json.{
  Json, null, str, num, flag, list, obj, Items, nil, cons, Fields, end, field, of_list, dict,
  get_or,
}

abbrev pub truthy : Json → Bool
truthy null = false
truthy (str s) = not (s == "")
truthy (num n) = not (nat_beq n 0)
truthy (flag b) = b
truthy (list nil) = false
truthy (list (cons j rest)) = true
truthy (obj end) = false
truthy (obj (field k j rest)) = true

-- `a or b`
abbrev pub or_json : Json → Json → Json
or_json a b = if truthy a then a else b

-- `one` is 1.0 in the unit of the similarities.
pub record Codec : Type 0 where
  pub one : ℕ
  pub norm : String → String
  pub dump_metadata : List (String × Value) → Option Fields
  pub load_metadata : Fields → List (String × Value)
  pub text_of : Json → String
  pub number_of : Json → Option ℕ

module _ (c : Codec) where
  abbrev pub as_text : Json → String
  as_text (str s) = s
  as_text j = c.text_of j

  -- `none` is a TypeError or a ValueError.
  abbrev pub as_number : Json → Option ℕ
  as_number (num n) = some n
  as_number j = c.number_of j

  abbrev pub file_fields : DuplicateFile → Fields → Fields
  file_fields f metadata = of_list (
      ("path", str f.path)
      ∷ ("size", num f.size)
      ∷ ("modified", num f.modified)
      ∷ ("extension", str f.extension)
      ∷ ("is_keeper", flag f.is_keeper)
      ∷ ("similarity", num f.similarity)
      ∷ ("metadata", obj metadata)
      ∷ [])

  -- `none` is the TypeError of metadata that json cannot write.
  abbrev pub file_to_dict : DuplicateFile → Option Json
  file_to_dict f = elim (c.dump_metadata f.metadata) [
    | none ↦ none
    | some metadata ↦ some (obj (file_fields f metadata))
  ]

  abbrev pub metadata_of : Json → List (String × Value)
  metadata_of (obj fields) = c.load_metadata fields
  metadata_of j = []

  abbrev pub read_file : Fields → Option ℕ → Option ℕ → Option ℕ → Option DuplicateFile
  read_file d none modified similarity = none
  read_file d (some size) none similarity = none
  read_file d (some size) (some modified) none = none
  read_file d (some size) (some modified) (some similarity) = some (record {
    path = c.norm (as_text (get_or "path" (str "") d));
    size = size;
    modified = modified;
    extension = as_text (or_json (get_or "extension" (str "") d) (str ""));
    is_keeper = truthy (get_or "is_keeper" (flag false) d);
    similarity = similarity;
    metadata = metadata_of (get_or "metadata" (obj end) d);
  })

  unfoldable pub file_from_dict : Fields → Option DuplicateFile
  file_from_dict d =
      read_file d (as_number (or_json (get_or "size" (num 0) d) (num 0)))
        (as_number (or_json (get_or "modified" (num 0) d) (num 0)))
        (as_number (or_json (get_or "similarity" (num c.one) d) (num c.one)))

  abbrev pub add_json : Option Json → Option Items → Option Items
  add_json none rest = none
  add_json (some j) none = none
  add_json (some j) (some rest) = some (cons j rest)

  unfoldable pub files_to_items : List DuplicateFile → Option Items
  files_to_items [] = some nil
  files_to_items (f ∷ files) = add_json (file_to_dict f) (files_to_items files)

  -- `str(g.similarity_type or "exact")`
  abbrev pub type_or_exact : String → String
  type_or_exact text = if text == "" then "exact" else text

  abbrev pub group_json : DuplicateGroup → Option Items → Option Json
  group_json g none = none
  group_json g (some files) = some (
      dict (
        ("group_id", num g.group_id)
        ∷ ("similarity_type", str (type_or_exact g.similarity_type))
        ∷ ("files", list files)
        ∷ []))

  abbrev pub group_to_dict : DuplicateGroup → Option Json
  group_to_dict g = group_json g (files_to_items g.files)

  abbrev pub add_file :
      Option DuplicateFile → Option (List DuplicateFile) → Option (List DuplicateFile)
  add_file none rest = none
  add_file (some f) none = none
  add_file (some f) (some rest) = some (f ∷ rest)

  -- `[_file_from_dict(x) for x in ... if isinstance(x, dict)]`
  unfoldable pub files_from_items : Items → Option (List DuplicateFile)
  files_from_items nil = some []
  files_from_items (cons (obj d) rest) = add_file (file_from_dict d) (files_from_items rest)
  files_from_items (cons j rest) = files_from_items rest

  -- The items of a loop over a value: a text or a dict has none that are dicts.
  abbrev pub iterate : Json → Option Items
  iterate (list items) = some items
  iterate (str s) = some nil
  iterate (obj fields) = some nil
  iterate j = none

  abbrev pub read_items : Option Items → Option (List DuplicateFile)
  read_items none = none
  read_items (some items) = files_from_items items

  abbrev pub read_group : Fields → Option (List DuplicateFile) → Option ℕ → Option DuplicateGroup
  read_group d none group_id = none
  read_group d (some files) none = none
  read_group d (some files) (some group_id) = some (
      new_group group_id files
        (as_text (or_json (get_or "similarity_type" (str "exact") d) (str "exact"))))

  unfoldable pub group_from_dict : Fields → Option DuplicateGroup
  group_from_dict d =
      read_group d (read_items (iterate (or_json (get_or "files" (list nil) d) (list nil))))
        (as_number (get_or "group_id" (num 0) d))

  unfoldable pub groups_to_items : List DuplicateGroup → Option Items
  groups_to_items [] = some nil
  groups_to_items (g ∷ groups) = add_json (group_to_dict g) (groups_to_items groups)

  abbrev pub keep_group : Option DuplicateGroup → List DuplicateGroup → List DuplicateGroup
  keep_group none groups = groups
  keep_group (some g) groups = g ∷ groups

  -- The loop over the groups, which skips one that raises.
  unfoldable pub groups_from_items : Items → List DuplicateGroup
  groups_from_items nil = []
  groups_from_items (cons (obj d) rest) = keep_group (group_from_dict d) (groups_from_items rest)
  groups_from_items (cons j rest) = groups_from_items rest

  abbrev pub groups_of : Json → List DuplicateGroup
  groups_of (list items) = groups_from_items items
  groups_of j = []

  -- The groups and the mode.
  abbrev pub groups_from_payload : Fields → List DuplicateGroup × String
  groups_from_payload payload = (
    groups_of (or_json (get_or "groups" (list nil) payload) (list nil)),
    as_text (or_json (get_or "scan_mode" (str "files") payload) (str "files")),
  )

  abbrev pub payload_with : ℕ → String → Option Items → Option Fields
  payload_with session_ts scan_mode none = none
  payload_with session_ts scan_mode (some items) = some (
      field "version" (num 1) (
        field "session_ts" (num session_ts) (
          field "scan_mode" (str (if scan_mode == "" then "files" else scan_mode))
            (field "groups" (list items) end))))

  -- What save_scan_results_snapshot writes, `none` where it writes nothing.
  abbrev pub snapshot_payload : List DuplicateGroup → String → ℕ → Option Fields
  snapshot_payload [] scan_mode session_ts = none
  snapshot_payload (g ∷ groups) scan_mode session_ts =
      payload_with session_ts scan_mode (groups_to_items (g ∷ groups))

  abbrev pub loaded_groups :
      List DuplicateGroup × String → Option ℕ → Option (List DuplicateGroup × String × ℕ)
  loaded_groups ([], mode) ts = none
  loaded_groups (g ∷ groups, mode) none = none
  loaded_groups (g ∷ groups, mode) (some ts) = some (g ∷ groups, mode, ts)

  abbrev pub load_version : Fields → Option ℕ → Option (List DuplicateGroup × String × ℕ)
  load_version payload none = none
  load_version payload (some version) =
      if ltb version 1
      then none
      else loaded_groups (groups_from_payload payload)
          (as_number (or_json (get_or "session_ts" (num 0) payload) (num 0)))

  -- What load_last_scan_snapshot makes of the file; `none` is also a number that cannot be read.
  abbrev pub load_last_scan_snapshot : Option Fields → Option (List DuplicateGroup × String × ℕ)
  load_last_scan_snapshot none = none
  load_last_scan_snapshot (some payload) =
      load_version payload (as_number (or_json (get_or "version" (num 0) payload) (num 0)))
