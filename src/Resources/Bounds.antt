-- ===== src/Resources/Bounds.antt =====
-- More memory never means less: the tiers and the cache limits.
use wyoming_vietnamese.Common.{pos, ok, ℕ, ◌≤◌, ◌≡◌, refl, true, Option, some, arith}
use wyoming_vietnamese.Cache as C
use wyoming_vietnamese.Resources.{DeviceTier, weak, average, strong, ram_cache_limits, classify}

abbrev pub rank : DeviceTier → ℕ
rank weak = 0
rank average = 1
rank strong = 2

classify_mono :
    (memory memory' : ℕ)
    → memory ≤ memory'
    → rank (classify (some memory)) ≤ rank (classify (some memory'))
unfolding classify
classify_mono memory memory' h = ground arith

limits_mono :
    (tier tier' : DeviceTier)
    → rank tier ≤ rank tier'
    → ((ram_cache_limits tier).0 ≤ (ram_cache_limits tier').0)
      × ((ram_cache_limits tier).1 ≤ (ram_cache_limits tier').1)
      × ((ram_cache_limits tier).2 ≤ (ram_cache_limits tier').2)
limits_mono weak weak h = (omega arith, omega arith, omega arith)
limits_mono weak average h = (omega arith, omega arith, omega arith)
limits_mono weak strong h = (omega arith, omega arith, omega arith)
limits_mono average weak h = absurd (omega arith)
limits_mono average average h = (omega arith, omega arith, omega arith)
limits_mono average strong h = (omega arith, omega arith, omega arith)
limits_mono strong weak h = absurd (omega arith)
limits_mono strong average h = absurd (omega arith)
limits_mono strong strong h = (omega arith, omega arith, omega arith)

-- A device with more memory gets cache limits that are no smaller, all three of them.
pub ram_cache_limits-classify :
    (memory memory' : ℕ)
    → memory ≤ memory'
    → ((ram_cache_limits (classify (some memory))).0
        ≤ (ram_cache_limits (classify (some memory'))).0)
      × ((ram_cache_limits (classify (some memory))).1
          ≤ (ram_cache_limits (classify (some memory'))).1)
      × ((ram_cache_limits (classify (some memory))).2
          ≤ (ram_cache_limits (classify (some memory'))).2)
ram_cache_limits-classify memory memory' h =
    limits_mono (classify (some memory)) (classify (some memory')) (classify_mono memory memory' h)

-- The cache that a device's limits are for is always made, and it is enabled.
init-ram_cache_limits :
    (memory : Option ℕ) (idle : ℕ)
    → (c : C.Cache ℕ ℕ) × (C.init
          (pos (ram_cache_limits (classify memory)).0)
          (pos (ram_cache_limits (classify memory)).1)
          (pos (ram_cache_limits (classify memory)).2)
          (pos idle)
        ≡ ok c)
      × (C.enabled c ≡ true)
unfolding C.init
init-ram_cache_limits memory idle = of_tier (classify memory)
  where
    of_tier :
        (tier : DeviceTier)
        → (c : C.Cache ℕ ℕ) × (C.init
              (pos (ram_cache_limits tier).0)
              (pos (ram_cache_limits tier).1)
              (pos (ram_cache_limits tier).2)
              (pos idle)
            ≡ ok c)
          × (C.enabled c ≡ true)
    of_tier weak = (_, refl, refl)
    of_tier average = (_, refl, refl)
    of_tier strong = (_, refl, refl)
