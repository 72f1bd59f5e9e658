-- ===== src/Engine/Samples.antt =====
-- Sample files and groups for the tests.
use backhouse_dff.Base.{ℕ, String, Bool, false, List, [], ◌∷◌}
use backhouse_dff.Engine.{DuplicateFile, DuplicateGroup}

abbrev pub file : String → ℕ → Bool → DuplicateFile
file path size keep = record {
  path = path;
  size = size;
  modified = 0;
  extension = ".jpg";
  is_keeper = keep;
  similarity = 1;
  metadata = [];
}

abbrev pub three : List DuplicateFile
three = file "/a" 10 false ∷ file "/b" 30 false ∷ file "/c" 30 false ∷ []

abbrev pub three_group : DuplicateGroup
three_group = record {
  group_id = 1;
  files = three;
  total_size = 0;
  reclaimable = 0;
  similarity_type = "exact";
}
