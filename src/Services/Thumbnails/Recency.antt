-- ===== src/Services/Thumbnails/Recency.antt =====
-- The size of the cache and the place of the entry used last.
use backhouse_dff.Base.{
  ℕ, ◌+◌, ◌≤◌, ◌<◌, ◌≡◌, refl, ◌∙◌, inl, inr, String, Bool, false, ◌&&◌, ◌||◌, not, Option, none,
  some, [], ◌∷◌, ◌++◌, arith, ltb, length, length-append, text_key, ◌==◌, eqb_refl, contains,
  Distinct, Bool-cases, Option-cases,
}
use backhouse_dff.Base.Dict.{insert, erase, lookup, lookup-insert, keys}
use backhouse_dff.Services.Thumbnails.{Thumbnails, move_to_end, evict, remember, loaded, get}

-- At most the number of entries that the cache may have, each key once.
unfoldable pub IsCache : ℕ → Thumbnails → Type 0
IsCache max_entries entries = (length entries ≤ max_entries) × Distinct (keys entries)

erase-contains :
    (k : String) (d : Thumbnails) (r : String)
    → contains (keys (erase k d)) r ≡ (not (k == r) && contains (keys d) r)
unfolding erase
erase-contains k [] r = ground arith
erase-contains k (entry ∷ d) r = ground (
  arith,
  erase-contains k d r,
  text_key.eqb_iff entry.0 k,
  text_key.eqb_iff entry.0 r,
  text_key.eqb_iff k r,
)

erase-Distinct : (k : String) (d : Thumbnails) → Distinct (keys d) → Distinct (keys (erase k d))
unfolding erase
erase-Distinct k [] h = tt
erase-Distinct k (entry ∷ d) h = elim (Bool-cases (entry.0 == k)) [
  | inl here ↦ rw here (erase-Distinct k d h.1)
  | inr there ↦ rw there (ground (arith, erase-contains k d entry.0, h.0), erase-Distinct k d h.1)
]

erase-le : (k : String) (d : Thumbnails) → length (erase k d) ≤ length d
unfolding erase
erase-le k [] = omega arith
erase-le k (entry ∷ d) = elim (Bool-cases (entry.0 == k)) [
  | inl here ↦ rw here (omega (arith, erase-le k d))
  | inr there ↦ rw there (omega (arith, erase-le k d))
]

erase-length :
    (k : String) (d : Thumbnails) (v : Option String)
    → lookup k d ≡ some v
    → length (erase k d) + 1 ≤ length d
unfolding erase lookup
erase-length k [] v h = ground arith
erase-length k (entry ∷ d) v h = elim (Bool-cases (entry.0 == k)) [
  | inl here ↦ rw here (omega (arith, erase-le k d))
  | inr there ↦ rw there (omega (arith, erase-length k d v (rw there at h)))
]

snoc-contains :
    (d : Thumbnails) (k : String) (v : Option String) (r : String)
    → contains (keys (d ++ (k, v) ∷ [])) r ≡ (contains (keys d) r || (k == r))
snoc-contains [] k v r = ground arith
snoc-contains (entry ∷ d) k v r = ground (arith, snoc-contains d k v r)

snoc-Distinct :
    (d : Thumbnails) (k : String) (v : Option String)
    → Distinct (keys d)
    → contains (keys d) k ≡ false
    → Distinct (keys (d ++ (k, v) ∷ []))
snoc-Distinct [] k v h out = (refl, tt)
snoc-Distinct (entry ∷ d) k v h out = (
  ground (
    arith,
    snoc-contains d k v entry.0,
    h.0,
    text_key.eqb_iff k entry.0,
    text_key.eqb_iff entry.0 k,
  ),
  snoc-Distinct d k v h.1 (ground arith),
)

-- An entry that is moved stands at the end, and the keys stay distinct.
move_to_end-snoc :
    (k : String) (d : Thumbnails) (v : Option String)
    → lookup k d ≡ some v
    → move_to_end k d ≡ erase k d ++ (k, v) ∷ []
move_to_end-snoc k d v h = rw (h, move_to_end) refl

moved-Distinct :
    (k : String) (d : Thumbnails) (v : Option String)
    → Distinct (keys d)
    → Distinct (keys (erase k d ++ (k, v) ∷ []))
moved-Distinct k d v h =
    snoc-Distinct (erase k d) k v (erase-Distinct k d h)
      (erase-contains k d k ∙ rw (eqb_refl k) refl)

insert-contains :
    (k : String) (v : Option String) (d : Thumbnails) (r : String)
    → contains (keys (insert k v d)) r ≡ ((k == r) || contains (keys d) r)
unfolding insert
insert-contains k v [] r = refl
insert-contains k v (entry ∷ d) r =
    ground (arith, insert-contains k v d r, text_key.eqb_iff entry.0 k)

insert-Distinct :
    (k : String) (v : Option String) (d : Thumbnails)
    → Distinct (keys d)
    → Distinct (keys (insert k v d))
unfolding insert
insert-Distinct k v [] h = (refl, tt)
insert-Distinct k v (entry ∷ d) h = elim (Bool-cases (entry.0 == k)) [
  | inl here ↦ rw here h
  | inr there ↦ rw there (
    ground (
      arith,
      insert-contains k v d entry.0,
      h.0,
      text_key.eqb_iff k entry.0,
      text_key.eqb_iff entry.0 k,
    ),
    insert-Distinct k v d h.1,
  )
]

evict-le : (n : ℕ) (d : Thumbnails) → length (evict n d) ≤ n
unfolding evict
evict-le n [] = omega arith
evict-le n (entry ∷ d) = elim (Bool-cases (ltb n (length (entry ∷ d)))) [
  | inl over ↦ rw over (evict-le n d)
  | inr fits ↦ rw fits (ground arith)
]

evict-Distinct : (n : ℕ) (d : Thumbnails) → Distinct (keys d) → Distinct (keys (evict n d))
unfolding evict
evict-Distinct n [] h = h
evict-Distinct n (entry ∷ d) h = elim (Bool-cases (ltb n (length (entry ∷ d)))) [
  | inl over ↦ rw over (evict-Distinct n d h.1)
  | inr fits ↦ rw fits h
]

-- The last entry is evicted last.
evict-snoc :
    (n : ℕ) (d : Thumbnails) (entry : String × Option String)
    → 0 < n
    → (front : Thumbnails) × (evict n (d ++ entry ∷ []) ≡ front ++ entry ∷ [])
unfolding evict
evict-snoc n [] entry h = let fits : ltb n 1 ≡ false = ground arith in ([], rw fits refl)
evict-snoc n (first ∷ d) entry h = elim (Bool-cases (ltb n (length (first ∷ d ++ entry ∷ [])))) [
  | inl over ↦ let rest = evict-snoc n d entry h in (rest.0, rw over rest.1)
  | inr fits ↦ (first ∷ d, rw fits refl)
]

-- What `get` leaves and returns.
pub record Served (max_entries : ℕ) (key : String) (before : Thumbnails) (value : Option String)
    (after : Thumbnails) : Type 0 where
  pub cache : IsCache max_entries after
  pub front : Thumbnails
  pub last : after ≡ front ++ (key, value) ∷ []

abbrev pub or_loaded : Option (Option String) → Option String → Option String
or_loaded none fresh = fresh
or_loaded (some value) fresh = value

-- In a cache that may have entries and is within its size, each key once, every `get` returns the
-- value that the cache has under the key, or else the one that is loaded, leaves it at the end of
-- the cache, and keeps the cache so.
pub get-Served :
    (max_entries : ℕ) (key : String) (is_image : Bool) (decoded : Option String)
    (entries : Thumbnails)
    → 0 < max_entries
    → IsCache max_entries entries
    → ((get max_entries key is_image decoded entries).1
        ≡ or_loaded (lookup key entries) (loaded is_image decoded))
      × Served max_entries key entries
          (get max_entries key is_image decoded entries).1
          (get max_entries key is_image decoded entries).0
unfolding get IsCache remember
get-Served n key is_image decoded entries h cache = elim (Option-cases (lookup key entries)) [
  | inl miss ↦
      let v = loaded is_image decoded in
      let stored = insert key v entries in
      let there : lookup key stored ≡ some v =
        lookup-insert key key v entries ∙ rw (eqb_refl key) refl in
      let moved = move_to_end-snoc key stored v there in
      let last = evict-snoc n (erase key stored) (key, v) h in
      rw (get, miss, remember, moved)
        (
          refl,
          record {
            cache = (
              evict-le n (erase key stored ++ (key, v) ∷ []),
              evict-Distinct n (erase key stored ++ (key, v) ∷ [])
                  (moved-Distinct key stored v (insert-Distinct key v entries cache.1)),
            );
            front = last.0;
            last = last.1;
          },
        )
  | inr hit ↦
      let moved = move_to_end-snoc key entries hit.0 hit.1 in
      rw (get, hit.1, moved)
        (
          refl,
          record {
            cache = (
              omega (
                arith,
                length-append (erase key entries) ((key, hit.0) ∷ []),
                erase-length key entries hit.0 hit.1,
                cache.0,
              ),
              moved-Distinct key entries hit.0 cache.1,
            );
            front = erase key entries;
            last = refl;
          },
        )
]
