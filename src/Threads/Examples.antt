-- ===== src/Threads/Examples.antt =====
-- Thread counts of a few hosts.
use wyoming_vietnamese.Common.{pos, negsuc, ok, ℕ, ◌≤◌, ◌≡◌, refl, true, false, none, some, arith}
use wyoming_vietnamese.Threads.{
  Environment, Host, minimum, available_cpu_count, resolve_cpu_threads,
  resolve_zerotts_thread_budget, resolve_explicit_pipelined_threads,
}
use wyoming_vietnamese.Threads.Bounds.{
  IsShared, resolve_zerotts_thread_budget-IsShared, resolve_zerotts_thread_budget-positive,
  IsAllowed, resolve_cpu_threads-IsLargest,
}

-- Eight cores, two of them in the affinity set and three granted by the cgroup.
abbrev host : Host
host = record {
  is_windows = false;
  os_cpu_count = some 8;
  process_cpus = none;
  affinity = some 2;
  cgroup = some 3;
  physical = some 4;
}

abbrev env : Environment
env = record { codec_threads = none; ggml_threads = some (pos 2) }

two_cpus : available_cpu_count true host ≡ 2
unfolding available_cpu_count minimum
two_cpus = refl

from_environment : resolve_zerotts_thread_budget env (pos 4) true none none true ≡ (2, 2)
unfolding resolve_zerotts_thread_budget resolve_explicit_pipelined_threads
from_environment = refl

resolve_zerotts_thread_budget-IsShared_example :
    IsShared false 8 (resolve_zerotts_thread_budget env (pos 8) true (some (pos 20)) none false)
resolve_zerotts_thread_budget-IsShared_example =
    resolve_zerotts_thread_budget-IsShared env 8 (some (pos 20)) none false (omega arith)

resolve_zerotts_thread_budget-positive_example :
    (1 ≤ (resolve_zerotts_thread_budget env (negsuc 3) true none (some (pos 2)) true).0)
    × (1 ≤ (resolve_zerotts_thread_budget env (negsuc 3) true none (some (pos 2)) true).1)
resolve_zerotts_thread_budget-positive_example =
    resolve_zerotts_thread_budget-positive env (negsuc 3) true none (some (pos 2)) true

resolve_cpu_threads-IsLargest_example :
    (n : ℕ) × (resolve_cpu_threads (pos 6) false host ≡ ok n)
    × (1 ≤ n)
    × IsAllowed 6 false host n
    × ((m : ℕ) → IsAllowed 6 false host m → m ≤ n)
resolve_cpu_threads-IsLargest_example = resolve_cpu_threads-IsLargest 6 false host
