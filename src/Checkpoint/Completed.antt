-- ===== src/Checkpoint/Completed.antt =====
-- The number of completed files that a manifest shows.
use backhouse_dff.Base.{
  ℕ, ◌+◌, ◌≡◌, refl, sym, ap, inl, inr, String, List, [], ◌∷◌, map, arith, if◌then◌else◌, nat_beq,
  nat_beq_iff, ◌==◌, text_key, filter, All, Bool-cases,
}
use backhouse_dff.Checkpoint.{ScanManifest, CheckpointDb}
use backhouse_dff.Checkpoint.Writer.{HashResult, flush_items, completed_count}

-- The completed files that the manifests of a scan show, in their order.
abbrev pub completed_of : String → CheckpointDb → List ℕ
completed_of id db = map (λ m. m.completed_files) (filter (λ m. m.scan_id == id) db.scan_manifests)

add_completed-rows :
    (id : String) (now n : ℕ) (ms : List ScanManifest)
    → map
        (λ m. m.completed_files)
        (filter
          (λ m. m.scan_id == id)
          (map
            (λ m.
              if m.scan_id == id
              then record m { completed_files = m.completed_files + n; updated_at = now }
              else m)
            ms))
      ≡ map (λ c. c + n) (map (λ m. m.completed_files) (filter (λ m. m.scan_id == id) ms))
add_completed-rows id now n [] = refl
add_completed-rows id now n (m ∷ ms) = elim (Bool-cases (m.scan_id == id)) [
  | inl e ↦ rw (e, e) (ap (◌∷◌ (m.completed_files + n)) (add_completed-rows id now n ms))
  | inr e ↦ rw (e, e) (add_completed-rows id now n ms)
]

add_completed-first :
    (id first : String) (now n : ℕ) (ms : List ScanManifest)
    → first ≡ id
    → map
        (λ m. m.completed_files)
        (filter
          (λ m. m.scan_id == id)
          (map
            (λ m.
              if m.scan_id == first
              then record m { completed_files = m.completed_files + n; updated_at = now }
              else m)
            ms))
      ≡ map (λ c. c + n) (map (λ m. m.completed_files) (filter (λ m. m.scan_id == id) ms))
add_completed-first id first now n ms same = rw same (add_completed-rows id now n ms)

map-zero : (n : ℕ) (counts : List ℕ) → n ≡ 0 → map (λ c. c + n) counts ≡ counts
map-zero n [] h = refl
map-zero n (c ∷ counts) h =
    let eq : c + n ≡ c = omega (arith, h) in rw (eq, map-zero n counts h) refl

-- When all items that are written belong to one scan, its number of completed files grows by the
-- numberXX
pub flush_items-completed_of :
    (now : ℕ) (items : List HashResult) (db : CheckpointDb) (id : String)
    → All (λ item. item.scan_id ≡ id) items
    → completed_of id (flush_items now items db)
      ≡ map (λ c. c + completed_count items) (completed_of id db)
unfolding flush_items
flush_items-completed_of now [] db id h = sym (map-zero 0 (completed_of id db) refl)
flush_items-completed_of now (item ∷ items) db id h =
    elim (Bool-cases (nat_beq (completed_count (item ∷ items)) 0)) [
      | inl zero_ ↦
          let eq = (nat_beq_iff _ _).0 zero_ in rw zero_ (sym (map-zero _ (completed_of id db) eq))
      | inr some_ ↦ rw some_ (
          add_completed-first id item.scan_id now (completed_count (item ∷ items)) db.scan_manifests
            h.0)
    ]
