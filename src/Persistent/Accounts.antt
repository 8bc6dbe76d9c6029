-- ===== src/Persistent/Accounts.antt =====
-- The accounts of the disk tier, and its limits.
use wyoming_vietnamese.Common.{
  ltb, leb, if◌then◌else◌, not_ltb→le, Bool-cases, length, length-append, pos, ℕ, ◌+◌, ◌-◌, ◌/◌,
  ◌≤◌, max, ◌≡◌, refl, sym, ap, ◌∙◌, ◌≢◌, inl, inr, if_neg, Bool, true, false, not, ◌||◌, List, [],
  ◌∷◌, arith,
}
use wyoming_vietnamese.Persistent.{
  File, Disk, disk_enabled, minus, plus_increase, is_above, total_size, prune_disk_entries,
  size_on_disk, without_file, exceeds, make_room, replace_file, prune_at_times, write_file, put,
}
use wyoming_vietnamese.Persistent.Pruning.{
  IsAccounted, Absent, any_files, total_size-append, prune_disk_entries_lem,
}

module _ {K : Type 0} (dec : Discrete K) (key_bytes : K → ℕ) where
  size_on_disk-Absent :
      (key : K) (files : List (File K))
      → Absent dec key_bytes key files
      → size_on_disk dec key_bytes key files ≡ 0
  unfolding size_on_disk
  size_on_disk-Absent key [] h = refl
  size_on_disk-Absent key (f ∷ files) (h, hs) =
      rw (if_neg (dec f.key key) h) (size_on_disk-Absent key files hs)

  without_file-Absent :
      (key : K) (files : List (File K))
      → Absent dec key_bytes key files
      → without_file dec key_bytes key files ≡ files
  unfolding without_file
  without_file-Absent key [] h = refl
  without_file-Absent key (f ∷ files) (h, hs) =
      rw (if_neg (dec f.key key) h) (ap (◌∷◌ f) (without_file-Absent key files hs))

  prune_at_times-IsAccounted :
      (now : ℕ) (d : Disk K)
      → IsAccounted dec key_bytes d
      → IsAccounted dec key_bytes (prune_at_times dec key_bytes now d)
  prune_at_times-IsAccounted now d h = chosen (leb (max 1 (d.max_entries / 16)) d.puts_since_prune)
    where
      chosen :
          (due : Bool)
          → IsAccounted dec key_bytes (
              if due
              then record (prune_disk_entries dec key_bytes now d.max_bytes d.max_entries d) {
                puts_since_prune = 0;
              }
              else d)
      chosen true =
          let (r, all) =
            prune_disk_entries_lem dec key_bytes (λ f. Unit {0}) now d.max_bytes d.max_entries d
              (omega arith) (omega arith) (any_files dec key_bytes d.files) in
          record { bytes = r.bytes; entries = r.entries; small = r.small; few = r.few }
      chosen false = h

  -- What is known of a disk to which a file is to be added.
  abbrev IsReady : K → Disk K → Disk K → Type 0
  IsReady key d d' =
      IsAccounted dec key_bytes d'
      × Absent dec key_bytes key d'.files
      × (d'.max_bytes ≡ d.max_bytes)
      × (d'.max_entries ≡ d.max_entries)

  make_room-IsReady :
      (now size_bytes : ℕ) (key : K) (d : Disk K)
      → IsAccounted dec key_bytes d
      → Absent dec key_bytes key d.files
      → IsReady key d (make_room dec key_bytes now size_bytes 0 d)
  unfolding prune_disk_entries
  make_room-IsReady now size_bytes key d h a = chosen (exceeds dec key_bytes d size_bytes 0)
    where
      chosen :
          (over : Bool)
          → IsReady key d (
              if over
              then prune_disk_entries dec key_bytes now
                  (d.max_bytes + 0 - size_bytes)
                  (d.max_entries - 1)
                  d
              else d)
      chosen true =
          let (r, absent) =
            prune_disk_entries_lem dec key_bytes (λ f. f.key ≢ key) now
              (d.max_bytes + 0 - size_bytes) (d.max_entries - 1) d (omega arith) (omega arith) a in
          (r, absent, refl, refl)
      chosen false = (h, a, refl, refl)

  minus_zero : (n : ℕ) → minus n 0 ≡ pos n
  minus_zero n = ground arith

  or_false : (a b : Bool) → (a || b) ≡ false → (a ≡ false) × (b ≡ false)
  or_false true b h = ground arith
  or_false false b h = (refl, h)

  -- Where a new file exceeds no limit, the accounts with it are within the limits.
  not_exceeds_lem :
      (d : Disk K) (size_bytes : ℕ)
      → IsAccounted dec key_bytes d
      → exceeds dec key_bytes d size_bytes 0 ≡ false
      → (plus_increase d.disk_total_bytes size_bytes 0
          ≡ pos (total_size dec key_bytes d.files + size_bytes))
        × (total_size dec key_bytes d.files + size_bytes ≤ d.max_bytes)
        × (length d.files + 1 ≤ d.max_entries)
  not_exceeds_lem d size_bytes h fits =
      let at_bytes = ap (λ z. plus_increase z size_bytes 0) h.bytes ∙ minus_zero _ in
      let (b, e) =
        or_false (is_above (plus_increase d.disk_total_bytes size_bytes 0) d.max_bytes)
          (ltb d.max_entries (d.disk_entries + 1)) fits in
      let b' = sym (ap (λ z. is_above z d.max_bytes) at_bytes) ∙ b in
      let e' = ap (λ n. ltb d.max_entries (n + 1)) (sym h.entries) ∙ e in
      (at_bytes, not_ltb→le _ _ b', not_ltb→le _ _ e')

  replace_file-IsAccounted :
      (now : ℕ) (key : K) (value : List ℕ) (size_bytes : ℕ) (d : Disk K)
      → IsAccounted dec key_bytes d
      → Absent dec key_bytes key d.files
      → size_bytes ≡ length value + key_bytes key
      → exceeds dec key_bytes d size_bytes 0 ≡ false
      → IsAccounted dec key_bytes (replace_file dec key_bytes now key value size_bytes 0 d)
  replace_file-IsAccounted now key value size_bytes d h a exact fits =
      let new : File K = record { key = key; content = value; mtime = now } in
      let (total, small, few) = not_exceeds_lem d size_bytes h fits in
      let same = without_file-Absent key d.files a in
      let longer = length-append d.files (new ∷ []) in
      let larger = total_size-append dec key_bytes d.files (new ∷ []) in
      record {
        bytes = rw same (total ∙ ap pos (omega (arith, larger, exact)));
        entries = rw same (omega (arith, longer, h.entries));
        small = rw same (omega (arith, larger, exact));
        few = rw same (omega (arith, longer));
      }

  write_file-IsAccounted :
      (now : ℕ) (stored writes : Bool) (key : K) (value : List ℕ) (size_bytes : ℕ) (d : Disk K)
      → IsAccounted dec key_bytes d
      → Absent dec key_bytes key d.files
      → size_bytes ≡ length value + key_bytes key
      → IsAccounted dec key_bytes
          (write_file dec key_bytes now stored writes key value size_bytes 0 d).1
  write_file-IsAccounted now stored writes key value size_bytes d h a exact =
      elim (Bool-cases (exceeds dec key_bytes d size_bytes 0)) [
        | inl over ↦ rw over h
        | inr fits ↦ rw fits (
            written writes _ (
              prune_at_times-IsAccounted now _
                (replace_file-IsAccounted now key value size_bytes d h a exact fits)))
      ]
    where
      picked : Bool → Bool × Disk K → Bool × Disk K
      picked works attempt = if works then attempt else (stored, d)

      written :
          (works : Bool) (after : Disk K)
          → IsAccounted dec key_bytes after
          → IsAccounted dec key_bytes (picked works (true, after)).1
      written true after r = r
      written false after r = h

  -- On a disk whose accounts are those of its files and within the limits, an item that has no file
  -- and whose size is that of its content and its key leaves the accounts exact and within the limits,
  -- whether or not it is stored and can be written.
  pub put-IsAccounted :
      (now : ℕ) (stored writes : Bool) (key : K) (value : List ℕ) (size_bytes : ℕ) (d : Disk K)
      → IsAccounted dec key_bytes d
      → Absent dec key_bytes key d.files
      → size_bytes ≡ length value + key_bytes key
      → IsAccounted dec key_bytes (put dec key_bytes now stored writes key value size_bytes d).1
  unfolding put
  put-IsAccounted now stored writes key value size_bytes d h a exact =
      let (h', a', b', e') = make_room-IsReady now size_bytes key d h a in
      rw (size_on_disk-Absent key d.files a) (
        chosen
          (not (disk_enabled d)
            || (ltb d.disk_max_item_bytes size_bytes || ltb d.max_bytes size_bytes))
          (write_file dec key_bytes now stored writes key value size_bytes 0
            (make_room dec key_bytes now size_bytes 0 d))
          (write_file-IsAccounted now stored writes key value size_bytes _ h' a' exact))
    where
      chosen :
          (skipped : Bool) (attempt : Bool × Disk K)
          → IsAccounted dec key_bytes attempt.1
          → IsAccounted dec key_bytes (if skipped then (stored, d) else attempt).1
      chosen true attempt r = h
      chosen false attempt r = r
