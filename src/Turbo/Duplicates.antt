-- ===== src/Turbo/Duplicates.antt =====
-- The groups of the last hash phase against the hashes of the files.
use backhouse_dff.Base.{
  ℕ, ◌≤◌, ◌≡◌, refl, ap, ◌∙◌, String, Bool, true, false, ◌&&◌, Option, List, arith, if◌then◌else◌,
  leb, ◌==◌, text_key, &&-true,
}
use backhouse_dff.Base.Buckets.{bucket}
use backhouse_dff.Turbo.Grouping.{Entry, Groups}
use backhouse_dff.Turbo.Jobs.{passing, passing-cong}
use backhouse_dff.Turbo.Hashing.{HashConfig, flatten, compute_hashes, final_groups}
use backhouse_dff.Turbo.Content.{
  has_hash, passing_mono, flatten-Keyed, hash_files-Distinct, compute_hashes-has_hash,
}

abbrev pub both_phases : HashConfig
both_phases = record { use_quick_hash = true; use_full_hash = true }

module _ (quick_hash full_hash : String → Option String) (as_completed : List Entry → List Entry)
    (ends : (p : Entry → Bool) (xs : List Entry) → passing p (as_completed xs) ≡ passing p xs)
    (text : ℕ → String) where
  and_implied : (a b : Bool) → (b ≡ true → a ≡ true) → (a && b) ≡ b
  and_implied true b h = refl
  and_implied false true h = h refl
  and_implied false false h = refl

  quick_phase-passing :
      (groups : Groups) (k : String) (q : Entry → Bool)
      → (k == "") ≡ false
      → ((x : Entry) → q x ≡ true → has_hash quick_hash k x ≡ true)
      → passing q (flatten (compute_hashes quick_hash as_completed groups)) ≡ (
          if leb 2 (passing (has_hash quick_hash k) (flatten groups))
          then passing q (flatten groups)
          else 0)
  unfolding compute_hashes
  quick_phase-passing groups k q full h =
      let phase = compute_hashes quick_hash as_completed groups in
      let sound = hash_files-Distinct quick_hash as_completed ends (flatten groups) in
      flatten-Keyed quick_hash q k phase h sound.0 sound.1
      ∙ compute_hashes-has_hash quick_hash as_completed ends groups k q full
      ∙ ap (λ n. if leb 2 (passing (has_hash quick_hash k) (flatten groups)) then n else 0)
          (passing-cong (λ x. has_hash quick_hash k x && q x) q (flatten groups)
            (λ x. and_implied (has_hash quick_hash k x) (q x) (h x)))

  -- The arithmetic of two phases: `nk`, `n` and `m` count the files with the quick hash, with the
  -- full hash, and those of the latter that pass a test.
  two_phases :
      (nk n m n' m' : ℕ)
      → n ≤ nk
      → n' ≡ (if leb 2 nk then n else 0)
      → m' ≡ (if leb 2 nk then m else 0)
      → (if leb 2 n' then m' else 0) ≡ (if leb 2 n then m else 0)
  two_phases nk n m n' m' le eq eq' = ground (arith, le, eq, eq')

  -- When both hash phases run and all workers end: if the files with a full hash also share a quick
  -- hash, and neither hash is empty, the scan's group of the full hash holds exactly the files among
  -- the size groups that have it, where there are at least two of them: for every test, the numbers
  -- of those that pass it agree. With fewer there is no such group.
  pub final_groups-has_hash :
      (groups : Groups) (h k : String) (p : Entry → Bool)
      → (h == "") ≡ false
      → (k == "") ≡ false
      → ((x : Entry) → has_hash full_hash h x ≡ true → has_hash quick_hash k x ≡ true)
      → passing p
          (bucket h (final_groups both_phases quick_hash full_hash as_completed text groups))
        ≡ (if leb 2 (passing (has_hash full_hash h) (flatten groups))
            then passing (λ x. has_hash full_hash h x && p x) (flatten groups)
            else 0)
  unfolding final_groups
  final_groups-has_hash groups h k p full full' same =
      let quick = compute_hashes quick_hash as_completed groups in
      let hit = λ (x : Entry). has_hash full_hash h x && p x in
      compute_hashes-has_hash full_hash as_completed ends quick h p full
      ∙ two_phases (passing (has_hash quick_hash k) (flatten groups))
          (passing (has_hash full_hash h) (flatten groups)) (passing hit (flatten groups))
          (passing (has_hash full_hash h) (flatten quick)) (passing hit (flatten quick))
          (passing_mono (has_hash full_hash h) (has_hash quick_hash k) (flatten groups) same)
          (quick_phase-passing groups k (has_hash full_hash h) full' same)
          (quick_phase-passing groups k hit full'
            (λ x both. same x (&&-true (has_hash full_hash h x) (p x) both).0))
