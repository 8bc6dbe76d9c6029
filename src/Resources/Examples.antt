-- ===== src/Resources/Examples.antt =====
-- The limits of devices with one, four and eight gigabytes.
use wyoming_vietnamese.Common.{pos, ok, ℕ, ◌+◌, ◌≤◌, ◌≡◌, refl, true, none, some, [], ◌∷◌, arith}
use wyoming_vietnamese.Threads.{collect_quotas, minimum}
use wyoming_vietnamese.Resources.{
  average, nghitts, device_policies, ram_cache_limits, classify, hierarchy_memory_available,
  available_memory_bytes, minimum_startup_memory_bytes,
}
use wyoming_vietnamese.Resources.Bounds.{ram_cache_limits-classify}

abbrev one_gigabyte : ℕ
one_gigabyte = 1073741824

abbrev four_gigabytes : ℕ
four_gigabytes = 4294967296

four_is_average : classify (some four_gigabytes) ≡ average
unfolding classify
four_is_average = refl

-- A cgroup that leaves 700 bytes, and one without a limit.
cgroup_leaves_700 :
    available_memory_bytes
      (some 5000)
      true
      ((some (pos 1000), some (pos 300)) ∷ (none, some (pos 10)) ∷ [])
    ≡ some 700
unfolding available_memory_bytes hierarchy_memory_available collect_quotas minimum
cgroup_leaves_700 = refl

ram_cache_limits-classify_example :
    ((ram_cache_limits (classify (some one_gigabyte))).0
      ≤ (ram_cache_limits (classify (some four_gigabytes))).0)
    × ((ram_cache_limits (classify (some one_gigabyte))).1
        ≤ (ram_cache_limits (classify (some four_gigabytes))).1)
    × ((ram_cache_limits (classify (some one_gigabyte))).2
        ≤ (ram_cache_limits (classify (some four_gigabytes))).2)
ram_cache_limits-classify_example =
    ram_cache_limits-classify one_gigabyte four_gigabytes (omega arith)

-- Three voices: 300 MiB, twice 100 MiB, the cache and the reserve of the system.
three_voices :
    minimum_startup_memory_bytes nghitts (pos 3) (some four_gigabytes) (pos 50)
    ≡ ok (
        524288000
        + 50
        + (device_policies (classify (some four_gigabytes))).minimum_system_reserve_bytes)
unfolding minimum_startup_memory_bytes
three_voices = refl
