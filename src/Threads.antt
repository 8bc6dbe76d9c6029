-- ===== src/Threads.antt =====
-- How many threads run: `available_cpu_count` and `resolve_cpu_threads` of wyoming_vietnamese/cpu.py,
-- with the quotas of the cgroups, and `resolve_zerotts_thread_budget` of
-- wyoming_vietnamese/zerotts_engine.py. What the operating system reports is an argument.
pub mod Bounds
mod Examples
use wyoming_vietnamese.Common.{
  ltb, leb, ◌==◌, if◌then◌else◌, ℤ, to_nat, pos, negsuc, Result, value_error, ok, raise, ℕ, ◌+◌,
  ◌-◌, ◌/◌, min, max, Bool, not, ◌&&◌, Option, none, some, List, [], ◌∷◌, ◌++◌,
}

-- `_read_cgroup_v2_quota` and `_read_cgroup_v1_quota` on the numbers of their files, divided exactly:
-- `math.ceil(quota / period) if quota > 0 and period > 0 else None`
abbrev pub cpu_quota : ℤ → ℤ → Option ℕ
cpu_quota (pos quota) (pos period) =
    if ltb 0 quota && ltb 0 period then some ((quota + (period - 1)) / period) else none
cpu_quota (negsuc n) period = none
cpu_quota (pos quota) (negsuc n) = none

-- The loop over the directories of a hierarchy, from the leaf up: the quotas that are set.
unfoldable pub collect_quotas : List (Option ℕ) → List ℕ
collect_quotas [] = []
collect_quotas (none ∷ readings) = collect_quotas readings
collect_quotas (some quota ∷ readings) = quota ∷ collect_quotas readings

-- `min(first, *rest)`
unfoldable pub minimum : ℕ → List ℕ → ℕ
minimum first [] = first
minimum first (x ∷ rest) = minimum (min first x) rest

-- `min(quotas, default=None)`
abbrev pub minimum_or_none : List ℕ → Option ℕ
minimum_or_none [] = none
minimum_or_none (x ∷ rest) = some (minimum x rest)

-- `_cpu_count_cgroup`, from the readings of the root, of the version 2 paths and of the version 1
-- paths with their mounts.
abbrev pub cpu_count_cgroup : Option ℕ → List (Option ℕ) → List (Option ℕ) → Option ℕ
cpu_count_cgroup root v2 v1 = minimum_or_none (
    collect_quotas
      (root ∷ minimum_or_none (collect_quotas v2) ∷ minimum_or_none (collect_quotas v1) ∷ []))

-- What the host reports: `os.cpu_count()`, `os.process_cpu_count()`, the size of the affinity set,
-- the quota of the cgroups and the physical cores.
pub record Host : Type 0 where
  pub is_windows : Bool
  pub os_cpu_count : Option ℕ
  pub process_cpus : Option ℕ
  pub affinity : Option ℕ
  pub cgroup : Option ℕ
  pub physical : Option ℕ

-- `x or 1`
abbrev pub or_one : Option ℕ → ℕ
or_one none = 1
or_one (some n) = if n == 0 then 1 else n

-- The cap on Windows.
abbrev pub logical_cpus : Host → ℕ
logical_cpus h = if h.is_windows then min (or_one h.os_cpu_count) 61 else or_one h.os_cpu_count

abbrev pub or_else : Option ℕ → ℕ → ℕ
or_else none n = n
or_else (some m) n = m

abbrev pub affinity_cpus : Host → ℕ
affinity_cpus h = or_else h.process_cpus (or_else h.affinity (logical_cpus h))

abbrev pub optional : Option ℕ → List ℕ
optional none = []
optional (some n) = n ∷ []

-- `if only_physical_cores: ... if physical_count is not None and physical_count >= 1`
abbrev pub physical_cpus : Bool → Option ℕ → List ℕ
physical_cpus only_physical_cores none = []
physical_cpus only_physical_cores (some n) = if only_physical_cores && leb 1 n then n ∷ [] else []

-- `available_cpu_count`
unfoldable pub available_cpu_count : Bool → Host → ℕ
available_cpu_count only_physical_cores h = max 1 (
    minimum (logical_cpus h)
      (affinity_cpus h ∷ (optional h.cgroup ++ physical_cpus only_physical_cores h.physical)))

-- `resolve_cpu_threads`
unfoldable pub resolve_cpu_threads : ℤ → Bool → Host → Result ℕ
resolve_cpu_threads (negsuc n) only_physical_cores h = raise value_error
resolve_cpu_threads (pos configured) only_physical_cores h =
    let available = available_cpu_count only_physical_cores h in
    ok (if configured == 0 then available else min configured available)

-- `max(1, n)`
abbrev pub at_least_one : ℤ → ℕ
at_least_one n = max 1 (to_nat n)

-- `_default_non_pipelined_codec_threads`
abbrev pub default_non_pipelined_codec_threads : ℕ → ℕ
default_non_pipelined_codec_threads total =
    if leb total 2 then 1 else if leb total 4 then 2 else min (total / 2) 4

-- `_default_pipelined_codec_threads`
abbrev pub default_pipelined_codec_threads : ℕ → ℕ
default_pipelined_codec_threads total =
    if leb total 4 then 1 else if leb total 8 then 2 else if leb total 12 then 3 else 4

-- `opportunistic and 2 < total <= 4`
abbrev pub may_borrow : Bool → ℕ → Bool
may_borrow opportunistic total = opportunistic && (ltb 2 total && leb total 4)

-- `_resolve_dual_override_threads`
unfoldable pub resolve_dual_override_threads : ℤ → ℤ → ℕ → Bool → ℕ × ℕ
resolve_dual_override_threads effective_codec effective_ggml total opportunistic =
    let c_threads = min (at_least_one effective_codec) (total - 1) in
    let g_max =
      if may_borrow opportunistic total && c_threads == 1 then total else total - c_threads in
    (min (at_least_one effective_ggml) g_max, c_threads)

-- `_resolve_explicit_pipelined_threads`
unfoldable pub resolve_explicit_pipelined_threads : Option ℤ → Option ℤ → ℕ → Bool → Option (ℕ × ℕ)
resolve_explicit_pipelined_threads (some codec) (some ggml) total opportunistic =
    some (resolve_dual_override_threads codec ggml total opportunistic)
resolve_explicit_pipelined_threads (some codec) none total opportunistic =
    let c_threads = min (at_least_one codec) (total - 1) in
    some (
      if may_borrow opportunistic total && c_threads == 1 then total else max 1 (total - c_threads),
      c_threads,
    )
resolve_explicit_pipelined_threads none (some ggml) total opportunistic =
    let g_max = if may_borrow opportunistic total then total else total - 1 in
    let g_threads = min (at_least_one ggml) g_max in
    some (
      g_threads,
      if may_borrow opportunistic total && g_threads == total then 1 else max 1 (total - g_threads),
    )
resolve_explicit_pipelined_threads none none total opportunistic = none

-- The end of `resolve_zerotts_thread_budget`, without an explicit allocation.
abbrev pub default_budget : ℕ → Bool → ℕ × ℕ
default_budget total opportunistic =
    if leb total 2
    then (1, 1)
    else if leb total 4
    then (if opportunistic then (total, 1) else (total - 1, 1))
    else (total - default_pipelined_codec_threads total, default_pipelined_codec_threads total)

abbrev pub explicit_or : Option (ℕ × ℕ) → ℕ × ℕ → ℕ × ℕ
explicit_or none d = d
explicit_or (some t) d = t

-- An override, or the environment's, which counts if it is positive.
abbrev pub effective : Option ℤ → Option ℤ → Option ℤ
effective (some n) env = some n
effective none none = none
effective none (some (pos n)) = if ltb 0 n then some (pos n) else none
effective none (some (negsuc n)) = none

abbrev pub or_default : Option ℤ → ℕ → ℕ
or_default none d = d
or_default (some n) d = at_least_one n

-- The allocation, from the two effective overrides.
abbrev pub allocate : ℕ → Bool → Option ℤ → Option ℤ → Bool → ℕ × ℕ
allocate total pipelined codec ggml opportunistic =
    if not pipelined
    then (or_default ggml total, or_default codec (default_non_pipelined_codec_threads total))
    else if leb total 1
    then (1, 1)
    else explicit_or (resolve_explicit_pipelined_threads codec ggml total opportunistic)
        (default_budget total opportunistic)

-- The numbers of the two variables of the environment, `none` if one is unset or no number.
pub record Environment : Type 0 where
  pub codec_threads : Option ℤ
  pub ggml_threads : Option ℤ

-- `resolve_zerotts_thread_budget`
unfoldable pub resolve_zerotts_thread_budget :
    Environment → ℤ → Bool → Option ℤ → Option ℤ → Bool → ℕ × ℕ
resolve_zerotts_thread_budget env total_threads pipelined codec ggml opportunistic =
    allocate (at_least_one total_threads) pipelined (effective codec env.codec_threads)
      (effective ggml env.ggml_threads) opportunistic
