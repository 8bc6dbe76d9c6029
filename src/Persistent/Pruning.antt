-- ===== src/Persistent/Pruning.antt =====
-- What a pruning of the disk tier leaves.
use wyoming_vietnamese.Common.{
  ltb, leb, ◌==◌, if◌then◌else◌, Bool-cases, length, All, pos, ℕ, ◌+◌, ◌-◌, ◌≤◌, ◌≡◌, refl, ap, ◌≢◌,
  inl, inr, Bool, true, false, not, ◌&&◌, ◌||◌, List, [], ◌∷◌, ◌++◌, arith,
}
use wyoming_vietnamese.Persistent.{
  File, Disk, item_size, total_size, live_files, insert_file, sort_files, evict_files,
  prune_disk_entries,
}

module _ {K : Type 0} (dec : Discrete K) (key_bytes : K → ℕ) where
  -- The accounts are those of the files, and within the limits.
  pub record IsAccounted (d : Disk K) : Type 0 where
    pub bytes : d.disk_total_bytes ≡ pos (total_size dec key_bytes d.files)
    pub entries : d.disk_entries ≡ length d.files
    pub small : total_size dec key_bytes d.files ≤ d.max_bytes
    pub few : length d.files ≤ d.max_entries

  abbrev pub Absent : K → List (File K) → Type 0
  Absent key = All (λ f. f.key ≢ key)

  pub any_files : (files : List (File K)) → All (λ f. Unit {0}) files
  any_files [] = tt
  any_files (f ∷ files) = (tt, any_files files)

  pub total_size-append :
      (xs ys : List (File K))
      → total_size dec key_bytes (xs ++ ys)
        ≡ total_size dec key_bytes xs + total_size dec key_bytes ys
  total_size-append [] ys = omega arith
  total_size-append (f ∷ xs) ys = omega (arith, total_size-append xs ys)

  live_files-All :
      (P : File K → Type 0) (max_idle now : ℕ) (files : List (File K))
      → All P files
      → All P (live_files dec key_bytes max_idle now files)
  unfolding live_files
  live_files-All P max_idle now [] h = tt
  live_files-All P max_idle now (f ∷ files) (h, hs) =
      kept (not (max_idle == 0) && leb (f.mtime + max_idle) now)
        (live_files-All P max_idle now files hs)
    where
      kept :
          (old : Bool)
          → All P (live_files dec key_bytes max_idle now files)
          → All P (
              if old
              then live_files dec key_bytes max_idle now files
              else f ∷ live_files dec key_bytes max_idle now files)
      kept true r = r
      kept false r = (h, r)

  insert_file-All :
      (P : File K → Type 0) (f : File K) (files : List (File K))
      → P f
      → All P files
      → All P (insert_file dec key_bytes f files)
  unfolding insert_file
  insert_file-All P f [] h hs = (h, tt)
  insert_file-All P f (g ∷ files) h (k, hs) =
      placed (leb f.mtime g.mtime) (insert_file-All P f files h hs)
    where
      placed :
          (first : Bool)
          → All P (insert_file dec key_bytes f files)
          → All P (if first then f ∷ g ∷ files else g ∷ insert_file dec key_bytes f files)
      placed true r = (h, (k, hs))
      placed false r = (k, r)

  sort_files-All :
      (P : File K → Type 0) (files : List (File K))
      → All P files
      → All P (sort_files dec key_bytes files)
  unfolding sort_files
  sort_files-All P [] h = tt
  sort_files-All P (f ∷ files) (h, hs) =
      insert_file-All P f (sort_files dec key_bytes files) h (sort_files-All P files hs)

  -- What is left is within both limits, and its bytes are counted.
  evict_files_lem :
      (P : File K → Type 0) (max_entries max_bytes : ℕ) (live : List (File K)) (total : ℕ)
      → total ≡ total_size dec key_bytes live
      → All P live
      → ((evict_files dec key_bytes max_entries max_bytes live total).1
          ≡ total_size dec key_bytes (evict_files dec key_bytes max_entries max_bytes live total).0)
        × ((evict_files dec key_bytes max_entries max_bytes live total).1 ≤ max_bytes)
        × (length (evict_files dec key_bytes max_entries max_bytes live total).0 ≤ max_entries)
        × All P (evict_files dec key_bytes max_entries max_bytes live total).0
  unfolding evict_files
  evict_files_lem P max_entries max_bytes [] total h a = (h, omega arith, omega arith, tt)
  evict_files_lem P max_entries max_bytes (f ∷ live) total h (k, ks) =
      elim (Bool-cases (ltb max_entries (length (f ∷ live)) || ltb max_bytes total)) [
        | inl over ↦ rw over (
            evict_files_lem P max_entries max_bytes live (total - item_size dec key_bytes f)
              (omega arith) ks)
        | inr within ↦ rw within (h, ground arith, ground arith, (k, ks))
      ]

  -- Pruning to targets within the limits.
  pub prune_disk_entries_lem :
      (P : File K → Type 0) (now max_bytes max_entries : ℕ) (d : Disk K)
      → max_bytes ≤ d.max_bytes
      → max_entries ≤ d.max_entries
      → All P d.files
      → IsAccounted (prune_disk_entries dec key_bytes now max_bytes max_entries d)
        × All P (prune_disk_entries dec key_bytes now max_bytes max_entries d).files
  unfolding prune_disk_entries
  prune_disk_entries_lem P now max_bytes max_entries d b e a =
      let live =
        sort_files dec key_bytes (live_files dec key_bytes d.max_idle_seconds now d.files) in
      let (counted, small, few, kept) =
        evict_files_lem P max_entries max_bytes live (total_size dec key_bytes live) refl
          (sort_files-All P _ (live_files-All P d.max_idle_seconds now d.files a)) in
      (
        record {
          bytes = ap pos counted;
          entries = refl;
          small = omega (arith, counted);
          few = omega arith;
        },
        kept,
      )
