-- ===== src/Persistent.antt =====
-- The disk tier of `PersistentAudioCache` in wyoming_vietnamese/cache.py. A file is its key, its
-- content and its time of modification in whole seconds; `key_bytes` is the length of a key, and of
-- half the stem of its file's name. Listing, reading and deleting succeed, a write may fail, and the
-- memory tier is left out: `stored` is what its `put` returned, for a size that is not negative.
pub mod Pruning
pub mod Accounts
mod Examples
use wyoming_vietnamese.Common.{
  ltb, leb, ◌==◌, if◌then◌else◌, length, ℤ, pos, negsuc, ℕ, ◌+◌, ◌-◌, ◌/◌, max, ite, Bool, true,
  false, not, ◌&&◌, ◌||◌, List, [], ◌∷◌, ◌++◌,
}

pub record File (K : Type 0) : Type 0 where
  pub key : K
  pub content : List ℕ
  pub mtime : ℕ

pub record Disk (K : Type 0) : Type 0 where
  pub max_entries : ℕ
  pub max_bytes : ℕ
  pub disk_max_item_bytes : ℕ
  pub max_idle_seconds : ℕ
  pub files : List (File K)
  pub disk_total_bytes : ℤ
  pub disk_entries : ℕ
  pub puts_since_prune : ℕ

-- `_disk_enabled`
abbrev pub disk_enabled : {K : Type 0} → Disk K → Bool
disk_enabled d =
    not (d.max_entries == 0) && (not (d.max_bytes == 0) && not (d.disk_max_item_bytes == 0))

abbrev pub minus : ℕ → ℕ → ℤ
minus a b = if leb b a then pos (a - b) else negsuc (b - a - 1)

-- `total + (size_bytes - existing_size)`
abbrev pub plus_increase : ℤ → ℕ → ℕ → ℤ
plus_increase (pos total) size_bytes existing_size = minus (total + size_bytes) existing_size
plus_increase (negsuc n) size_bytes existing_size = minus size_bytes (existing_size + (n + 1))

abbrev pub is_above : ℤ → ℕ → Bool
is_above (pos total) limit = ltb limit total
is_above (negsuc n) limit = false

module _ {K : Type 0} (dec : Discrete K) (key_bytes : K → ℕ) where
  abbrev pub item_size : File K → ℕ
  item_size f = length f.content + key_bytes f.key

  abbrev pub total_size : List (File K) → ℕ
  total_size [] = 0
  total_size (f ∷ files) = item_size f + total_size files

  -- The files that are not too old.
  unfoldable pub live_files : ℕ → ℕ → List (File K) → List (File K)
  live_files max_idle now [] = []
  live_files max_idle now (f ∷ files) =
      if not (max_idle == 0) && leb (f.mtime + max_idle) now
      then live_files max_idle now files
      else f ∷ live_files max_idle now files

  -- `live.sort(key=lambda item: item[0])`
  unfoldable pub insert_file : File K → List (File K) → List (File K)
  insert_file f [] = f ∷ []
  insert_file f (g ∷ files) = if leb f.mtime g.mtime then f ∷ g ∷ files else g ∷ insert_file f files

  unfoldable pub sort_files : List (File K) → List (File K)
  sort_files [] = []
  sort_files (f ∷ files) = insert_file f (sort_files files)

  -- The loop that deletes the oldest files: what is left, and its bytes.
  unfoldable pub evict_files : ℕ → ℕ → List (File K) → ℕ → List (File K) × ℕ
  evict_files max_entries max_bytes [] total = ([], total)
  evict_files max_entries max_bytes (f ∷ live) total =
      if ltb max_entries (length (f ∷ live)) || ltb max_bytes total
      then evict_files max_entries max_bytes live (total - item_size f)
      else (f ∷ live, total)

  -- `_prune_disk_entries`
  unfoldable pub prune_disk_entries : ℕ → ℕ → ℕ → Disk K → Disk K
  prune_disk_entries now max_bytes max_entries d =
      let live = sort_files (live_files d.max_idle_seconds now d.files) in
      let left = evict_files max_entries max_bytes live (total_size live) in
      record d { files = left.0; disk_total_bytes = pos left.1; disk_entries = length left.0 }

  unfoldable pub size_on_disk : K → List (File K) → ℕ
  size_on_disk key [] = 0
  size_on_disk key (f ∷ files) = ite (dec f.key key) (item_size f) (size_on_disk key files)

  unfoldable pub without_file : K → List (File K) → List (File K)
  without_file key [] = []
  without_file key (f ∷ files) =
      ite (dec f.key key) (without_file key files) (f ∷ without_file key files)

  abbrev pub net_entry_increase : ℕ → ℕ
  net_entry_increase existing_size = if ltb 0 existing_size then 0 else 1

  abbrev pub exceeds : Disk K → ℕ → ℕ → Bool
  exceeds d size_bytes existing_size =
      is_above (plus_increase d.disk_total_bytes size_bytes existing_size) d.max_bytes
      || ltb d.max_entries (d.disk_entries + net_entry_increase existing_size)

  -- The first test and its pruning.
  abbrev pub make_room : ℕ → ℕ → ℕ → Disk K → Disk K
  make_room now size_bytes existing_size d =
      if exceeds d size_bytes existing_size
      then prune_disk_entries now (d.max_bytes + existing_size - size_bytes)
          (d.max_entries - net_entry_increase existing_size) d
      else d

  abbrev pub replace_file : ℕ → K → List ℕ → ℕ → ℕ → Disk K → Disk K
  replace_file now key value size_bytes existing_size d = record d {
    files = without_file key d.files ++ (record { key = key; content = value; mtime = now } ∷ []);
    disk_total_bytes = plus_increase d.disk_total_bytes size_bytes existing_size;
    disk_entries = d.disk_entries + net_entry_increase existing_size;
    puts_since_prune = d.puts_since_prune + 1;
  }

  abbrev pub prune_at_times : ℕ → Disk K → Disk K
  prune_at_times now d =
      if leb (max 1 (d.max_entries / 16)) d.puts_since_prune
      then record (prune_disk_entries now d.max_bytes d.max_entries d) { puts_since_prune = 0 }
      else d

  abbrev pub write_file : ℕ → Bool → Bool → K → List ℕ → ℕ → ℕ → Disk K → Bool × Disk K
  write_file now stored writes key value size_bytes existing_size d =
      if exceeds d size_bytes existing_size
      then (stored, d)
      else if writes
      then (true, prune_at_times now (replace_file now key value size_bytes existing_size d))
      else (stored, d)

  -- `put`
  unfoldable pub put : ℕ → Bool → Bool → K → List ℕ → ℕ → Disk K → Bool × Disk K
  put now stored writes key value size_bytes d =
      let existing_size = size_on_disk key d.files in
      if not (disk_enabled d)
        || (ltb d.disk_max_item_bytes size_bytes || ltb d.max_bytes size_bytes)
      then (stored, d)
      else write_file now stored writes key value size_bytes existing_size
          (make_room now size_bytes existing_size d)
