-- ===== src/Services/Thumbnails.antt =====
-- cerebro/v2/ui/flet_app/services/thumbnail_cache.py: the cache of the thumbnails, an OrderedDict
-- with the entry used last at its end. The image library is a parameter: `decoded` is the text of
-- the image, `none` where it cannot be read.
pub mod Recency
use backhouse_dff.Base.{
  ℕ, min, max, String, Bool, true, false, Option, none, some, List, [], ◌∷◌, ◌++◌, if◌then◌else◌,
  ltb, length, text_key,
}
use backhouse_dff.Base.Dict.{insert, erase, lookup}

abbrev pub Thumbnails : Type 0
Thumbnails = List (String × Option String)

-- `self._data.move_to_end(key)`
abbrev pub move_to_end : String → Thumbnails → Thumbnails
move_to_end key entries = elim (lookup key entries) [
  | none ↦ entries
  | some value ↦ erase key entries ++ (key, value) ∷ []
]

-- `while len(self._data) > self._max: self._data.popitem(last=False)`
unfoldable pub evict : ℕ → Thumbnails → Thumbnails
evict max_entries [] = []
evict max_entries (entry ∷ entries) =
    let rest = evict max_entries entries in
    if ltb max_entries (length (entry ∷ entries)) then rest else entry ∷ entries

unfoldable pub remember : ℕ → String → Option String → Thumbnails → Thumbnails
remember max_entries key value entries =
    evict max_entries (move_to_end key (insert key value entries))

-- The edge of `get_base64_sized`, and of `get_preview_tiny_base64`.
abbrev pub sized_edge : ℕ → ℕ
sized_edge max_edge = max 64 (min 512 max_edge)

abbrev pub tiny_edge : ℕ → ℕ
tiny_edge edge = max 16 (min 512 edge)

-- What a miss stores: nothing for a path that is no image file.
abbrev pub loaded : Bool → Option String → Option String
loaded is_image decoded = if is_image then decoded else none

-- `get_base64`; the other three `get_...` do the same under keys of their own. An OSError of
-- `resolve`, which leaves the first two, is left out.
unfoldable pub get : ℕ → String → Bool → Option String → Thumbnails → Thumbnails × Option String
get max_entries key is_image decoded entries = elim (lookup key entries) [
  | none ↦ (remember max_entries key (loaded is_image decoded) entries, loaded is_image decoded)
  | some value ↦ (move_to_end key entries, value)
]
