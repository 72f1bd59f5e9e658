-- ===== src/Services/Snapshot/Tests.antt =====
-- A snapshot of one group.
use backhouse_dff.Base.{ℕ, ◌≡◌, refl, String, Bool, true, false, Option, none, some, [], ◌∷◌}
use backhouse_dff.Engine.{DuplicateFile, DuplicateGroup, new_group, post_init, keeper_size}
use backhouse_dff.Services.Json.{end, get}
use backhouse_dff.Services.Snapshot.{
  Codec, file_fields, file_from_dict, snapshot_payload, load_last_scan_snapshot,
}
use backhouse_dff.Services.Snapshot.Trips.{
  IsWritable, IsStored, load_last_scan_snapshot-snapshot_payload,
}

-- Metadata is empty, and a similarity is a number of hundredths.
abbrev codec : Codec
codec = record {
  one = 100;
  norm = λ p. p;
  dump_metadata = λ m. some end;
  load_metadata = λ d. [];
  text_of = λ j. "";
  number_of = λ j. none;
}

abbrev saved_file : String → ℕ → Bool → DuplicateFile
saved_file path similarity keeper = record {
  path = path;
  size = 8;
  modified = 3;
  extension = ".txt";
  is_keeper = keeper;
  similarity = similarity;
  metadata = [];
}

abbrev saved_group : DuplicateGroup
saved_group = record {
  group_id = 4;
  files = saved_file "a" 100 true ∷ saved_file "b" 90 false ∷ [];
  total_size = 16;
  reclaimable = 8;
  similarity_type = "perceptual";
}

saved_group-IsStored : IsStored codec saved_group
unfolding IsWritable new_group post_init keeper_size
saved_group-IsStored =
    (refl, refl, ((refl, refl, (end, refl, refl)), ((refl, refl, (end, refl, refl)), tt)))

load_last_scan_snapshot-snapshot_payload_example :
    load_last_scan_snapshot codec (snapshot_payload codec (saved_group ∷ []) "photos" 77)
    ≡ some (saved_group ∷ [], "photos", 77)
load_last_scan_snapshot-snapshot_payload_example =
    load_last_scan_snapshot-snapshot_payload codec saved_group [] "photos" 77 refl
      (saved_group-IsStored, tt)

-- A similarity of 0 is read back as 1.0.
similarity_of : Option DuplicateFile → ℕ
similarity_of none = 0
similarity_of (some f) = f.similarity

zero_similarity :
    similarity_of (file_from_dict codec (file_fields codec (saved_file "a" 0 true) end)) ≡ 100
unfolding file_from_dict get similarity_of
zero_similarity = refl
