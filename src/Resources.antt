-- ===== src/Resources.antt =====
-- wyoming_vietnamese/resources.py: the tiers of devices and their limits, the memory that the host
-- and its cgroups leave, and the memory that a start asks for. Sizes are bytes. What the files and
-- the system report is an argument.
pub mod Bounds
mod Examples
use wyoming_vietnamese.Common.{
  leb, ◌==◌, if◌then◌else◌, ℤ, pos, negsuc, Result, value_error, ok, raise, ℕ, ◌+◌, ◌-◌, ◌*◌, ◌^◌,
  min, Bool, false, ◌||◌, Option, none, some, List, [], ◌∷◌, map,
}
use wyoming_vietnamese.Threads.{collect_quotas, minimum_or_none}

pub data DeviceTier : Type 0 where
  weak average strong : DeviceTier

pub data TtsEngine : Type 0 where
  nghitts zerotts : TtsEngine

abbrev mib : ℕ
mib = 1048576

abbrev gib : ℕ
gib = 1073741824

-- The idle time is in seconds.
pub record DevicePolicy : Type 0 where
  pub memory_below_bytes : Option ℕ
  pub minimum_system_reserve_bytes : ℕ
  pub max_tts_voices : Option ℕ
  pub max_ram_cache_entries : ℕ
  pub max_ram_cache_bytes : ℕ
  pub max_ram_cache_item_bytes : ℕ
  pub max_disk_cache_entries : ℕ
  pub max_disk_cache_bytes : ℕ
  pub max_disk_cache_item_bytes : ℕ
  pub cache_idle_seconds : ℕ

-- `DEVICE_POLICIES`
abbrev pub device_policies : DeviceTier → DevicePolicy
device_policies weak = record {
  memory_below_bytes = some (2 * gib);
  minimum_system_reserve_bytes = 256 * mib;
  max_tts_voices = some 1;
  max_ram_cache_entries = 64;
  max_ram_cache_bytes = 16 * 1024 * 1024;
  max_ram_cache_item_bytes = 2 * 1024 * 1024;
  max_disk_cache_entries = 256;
  max_disk_cache_bytes = 128 * 1024 * 1024;
  max_disk_cache_item_bytes = 8 * 1024 * 1024;
  cache_idle_seconds = 2592000;
}
device_policies average = record {
  memory_below_bytes = some (6 * gib);
  minimum_system_reserve_bytes = 512 * mib;
  max_tts_voices = some 2;
  max_ram_cache_entries = 256;
  max_ram_cache_bytes = 64 * 1024 * 1024;
  max_ram_cache_item_bytes = 8 * 1024 * 1024;
  max_disk_cache_entries = 1024;
  max_disk_cache_bytes = 256 * 1024 * 1024;
  max_disk_cache_item_bytes = 8 * 1024 * 1024;
  cache_idle_seconds = 2592000;
}
device_policies strong = record {
  memory_below_bytes = none;
  minimum_system_reserve_bytes = gib;
  max_tts_voices = none;
  max_ram_cache_entries = 2048;
  max_ram_cache_bytes = 512 * 1024 * 1024;
  max_ram_cache_item_bytes = 8 * 1024 * 1024;
  max_disk_cache_entries = 2048;
  max_disk_cache_bytes = 512 * 1024 * 1024;
  max_disk_cache_item_bytes = 8 * 1024 * 1024;
  cache_idle_seconds = 2592000;
}

-- `ram_cache_limits`, of a device's tier.
abbrev pub ram_cache_limits : DeviceTier → ℕ × ℕ × ℕ
ram_cache_limits tier =
    let policy = device_policies tier in
    (
      policy.max_ram_cache_entries,
      policy.max_ram_cache_bytes,
      min policy.max_ram_cache_bytes policy.max_ram_cache_item_bytes,
    )

abbrev pub within : ℕ → Option ℕ → Bool
within memory none = false
within memory (some bound) = leb memory bound

-- `_classify`
unfoldable pub classify : Option ℕ → DeviceTier
classify none = weak
classify (some memory) =
    if within memory (device_policies weak).memory_below_bytes
    then weak
    else if within memory (device_policies average).memory_below_bytes
    then average
    else strong

-- `_read_memory_limit`, of the number in its file, if there is one.
abbrev pub read_memory_limit : Option ℤ → Option ℕ
read_memory_limit none = none
read_memory_limit (some (negsuc n)) = none
read_memory_limit (some (pos limit)) = if limit == 0 || leb (2 ^ 60) limit then none else some limit

-- `_read_memory_usage`
abbrev pub read_memory_usage : Option ℤ → Option ℕ
read_memory_usage none = none
read_memory_usage (some (negsuc n)) = none
read_memory_usage (some (pos usage)) = some usage

-- `max(0, limit - usage)`, if both are known.
abbrev pub remaining : Option ℕ → Option ℕ → Option ℕ
remaining none usage = none
remaining (some limit) none = none
remaining (some limit) (some usage) = some (limit - usage)

-- `_hierarchy_memory_available`, from the limit and the usage of each directory on the paths.
unfoldable pub hierarchy_memory_available : List (Option ℤ × Option ℤ) → List ℕ
hierarchy_memory_available directories =
    collect_quotas
      (map (λ d. remaining (read_memory_limit d.0) (read_memory_usage d.1)) directories)

abbrev pub optional_first : Option ℕ → List ℕ → List ℕ
optional_first none rest = rest
optional_first (some n) rest = n ∷ rest

-- `available_memory_bytes`, from the host's memory and the directories of the cgroups.
unfoldable pub available_memory_bytes : Option ℕ → Bool → List (Option ℤ × Option ℤ) → Option ℕ
available_memory_bytes host is_linux directories =
    minimum_or_none
      (optional_first host (if is_linux then hierarchy_memory_available directories else []))

-- `_ENGINE_MEMORY_ESTIMATES`
abbrev pub engine_memory_estimates : TtsEngine → ℕ × ℕ
engine_memory_estimates nghitts = (300 * mib, 100 * mib)
engine_memory_estimates zerotts = (700 * mib, 0)

abbrev pub additional_voices : TtsEngine → ℕ → ℕ
additional_voices nghitts voice_count = voice_count - 1
additional_voices zerotts voice_count = 0

-- `minimum_startup_memory_bytes`, for an engine that is known.
unfoldable pub minimum_startup_memory_bytes : TtsEngine → ℤ → Option ℕ → ℤ → Result ℕ
minimum_startup_memory_bytes engine (negsuc n) device_memory_bytes ram_cache_bytes =
    raise value_error
minimum_startup_memory_bytes engine (pos voice_count) device_memory_bytes (negsuc n) =
    raise value_error
minimum_startup_memory_bytes engine (pos voice_count) device_memory_bytes (pos ram_cache_bytes) =
    if voice_count == 0
    then raise value_error
    else ok (
        (engine_memory_estimates engine).0
        + additional_voices engine voice_count * (engine_memory_estimates engine).1
        + ram_cache_bytes
        + (device_policies (classify device_memory_bytes)).minimum_system_reserve_bytes)
