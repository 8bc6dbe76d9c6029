-- ===== src/Persistent/Examples.antt =====
-- A disk of at most two files and thirty bytes, with numbers as keys of two bytes each.
use wyoming_vietnamese.Common.{
  length, pos, ℕ, ◌≡◌, refl, true, false, List, [], ◌∷◌, ◌++◌, arith, ℕ_discrete,
}
use wyoming_vietnamese.Persistent.{
  File, Disk, total_size, live_files, insert_file, sort_files, evict_files, prune_disk_entries,
  size_on_disk, without_file, put,
}
use wyoming_vietnamese.Persistent.Pruning.{IsAccounted}
use wyoming_vietnamese.Persistent.Accounts.{put-IsAccounted}

abbrev some_files : List (File ℕ)
some_files =
    record { key = 1; content = 0 ∷ 0 ∷ 0 ∷ 0 ∷ 0 ∷ 0 ∷ 0 ∷ 0 ∷ []; mtime = 1 }
    ∷ record { key = 2; content = 0 ∷ 0 ∷ []; mtime = 2 }
    ∷ []

abbrev some_disk : Disk ℕ
some_disk = record {
  max_entries = 2;
  max_bytes = 16;
  disk_max_item_bytes = 16;
  max_idle_seconds = 0;
  files = some_files;
  disk_total_bytes = pos 14;
  disk_entries = 2;
  puts_since_prune = 0;
}

abbrev four_bytes : List ℕ
four_bytes = 0 ∷ 0 ∷ 0 ∷ 0 ∷ []

-- The oldest file makes room for the third.
run_put :
    (put ℕ_discrete (λ key. 2) 3 false true 3 four_bytes 6 some_disk).1.disk_total_bytes ≡ pos 10
unfolding put live_files insert_file sort_files evict_files prune_disk_entries size_on_disk
    without_file ℕ_discrete
run_put = refl

put-IsAccounted_example :
    IsAccounted ℕ_discrete
      (λ key. 2)
      (put ℕ_discrete (λ key. 2) 3 false true 3 four_bytes 6 some_disk).1
put-IsAccounted_example =
    put-IsAccounted ℕ_discrete (λ key. 2) 3 false true 3 four_bytes 6 some_disk
      (record { bytes = refl; entries = refl; small = omega arith; few = omega arith })
      ((λ e. omega (arith, e)), ((λ e. omega (arith, e)), tt)) refl

abbrev large_disk : Disk ℕ
large_disk = record some_disk { max_entries = 32 }

abbrev fourteen_bytes : List ℕ
fourteen_bytes = four_bytes ++ (four_bytes ++ (0 ∷ 0 ∷ four_bytes))

-- The pruning deletes the file that is then replaced: twenty bytes in two files, counted as ten in
-- one.
run_replace :
    let d = (put ℕ_discrete (λ key. 2) 3 false true 1 fourteen_bytes 16 large_disk).1 in
    (d.disk_total_bytes ≡ pos 10)
    × (d.disk_entries ≡ 1)
    × (total_size ℕ_discrete (λ key. 2) d.files ≡ 20)
    × (length d.files ≡ 2)
unfolding put live_files insert_file sort_files evict_files prune_disk_entries size_on_disk
    without_file ℕ_discrete
run_replace = (refl, refl, refl, refl)
