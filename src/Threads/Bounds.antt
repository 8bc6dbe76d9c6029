-- ===== src/Threads/Bounds.antt =====
-- The bounds of the thread counts.
use wyoming_vietnamese.Common.{
  leb, All, All-mono, ℤ, pos, ok, ℕ, zero, suc, ◌+◌, ◌≤◌, min, max, ◌≡◌, refl, ◌⊎◌, inl, inr, Bool,
  true, false, Option, none, some, List, [], ◌∷◌, ◌++◌, arith, dec_le,
}
use wyoming_vietnamese.Threads.{
  Environment, allocate, effective, at_least_one, default_non_pipelined_codec_threads, minimum,
  Host, logical_cpus, affinity_cpus, optional, physical_cpus, available_cpu_count,
  resolve_cpu_threads, may_borrow, resolve_dual_override_threads,
  resolve_explicit_pipelined_threads, default_budget, explicit_or, or_default,
  resolve_zerotts_thread_budget,
}

minimum-le-first : (first : ℕ) (rest : List ℕ) → minimum first rest ≤ first
unfolding minimum
minimum-le-first first [] = omega arith
minimum-le-first first (x ∷ rest) = omega (arith, minimum-le-first (min first x) rest)

minimum-le : (first : ℕ) (rest : List ℕ) → All (λ x. minimum first rest ≤ x) rest
unfolding minimum
minimum-le first [] = tt
minimum-le first (x ∷ rest) =
    (omega (arith, minimum-le-first (min first x) rest), minimum-le (min first x) rest)

-- The two engines of a pipeline have a thread each, and share the budget of the process; only where
-- borrowing is allowed, on three or four cores, has the one every core and the codec one more.
abbrev pub IsShared : Bool → ℕ → ℕ × ℕ → Type 0
IsShared opportunistic total (g_threads, c_threads) =
    (1 ≤ g_threads)
    × (1 ≤ c_threads)
    × ((g_threads + c_threads ≤ total)
        ⊎ ((may_borrow opportunistic total ≡ true) × (g_threads ≡ total) × (c_threads ≡ 1)))

dual-IsShared :
    (codec ggml : ℤ) (total : ℕ) (opportunistic : Bool)
    → 2 ≤ total
    → IsShared opportunistic total (resolve_dual_override_threads codec ggml total opportunistic)
unfolding resolve_dual_override_threads
dual-IsShared codec ggml total opportunistic h = ground arith

codec-IsShared :
    (codec : ℤ) (total : ℕ) (opportunistic : Bool)
    → 2 ≤ total
    → IsShared opportunistic total (
        explicit_or
          (resolve_explicit_pipelined_threads (some codec) none total opportunistic)
          (0, 0))
unfolding resolve_explicit_pipelined_threads
codec-IsShared codec total opportunistic h = ground arith

ggml-IsShared :
    (ggml : ℤ) (total : ℕ) (opportunistic : Bool)
    → 2 ≤ total
    → IsShared opportunistic total (
        explicit_or
          (resolve_explicit_pipelined_threads none (some ggml) total opportunistic)
          (0, 0))
unfolding resolve_explicit_pipelined_threads
ggml-IsShared ggml total opportunistic h = ground arith

default-IsShared :
    (total : ℕ) (opportunistic : Bool)
    → 2 ≤ total
    → IsShared opportunistic total (default_budget total opportunistic)
default-IsShared total opportunistic h = ground arith

pipelined-IsShared :
    (codec ggml : Option ℤ) (total : ℕ) (opportunistic : Bool)
    → 2 ≤ total
    → IsShared opportunistic total (
        explicit_or
          (resolve_explicit_pipelined_threads codec ggml total opportunistic)
          (default_budget total opportunistic))
unfolding resolve_explicit_pipelined_threads
pipelined-IsShared (some codec) (some ggml) total opportunistic h =
    dual-IsShared codec ggml total opportunistic h
pipelined-IsShared (some codec) none total opportunistic h =
    codec-IsShared codec total opportunistic h
pipelined-IsShared none (some ggml) total opportunistic h = ggml-IsShared ggml total opportunistic h
pipelined-IsShared none none total opportunistic h = default-IsShared total opportunistic h

-- With two threads or more and a pipeline, whatever overrides are given and whatever the environment
-- says, the two engines have a thread each and together at most the total; only on three or four
-- cores, where borrowing is allowed, may the generator have all of them and the codec one more.
pub resolve_zerotts_thread_budget-IsShared :
    (env : Environment) (total : ℕ) (codec ggml : Option ℤ) (opportunistic : Bool)
    → 2 ≤ total
    → IsShared opportunistic total
        (resolve_zerotts_thread_budget env (pos total) true codec ggml opportunistic)
unfolding resolve_zerotts_thread_budget
resolve_zerotts_thread_budget-IsShared env total codec ggml opportunistic h =
    let same : max 1 total ≡ total = omega arith in
    let more : leb total 1 ≡ false = ground arith in
    rw (same, more)
      (pipelined-IsShared (effective codec env.codec_threads) (effective ggml env.ggml_threads)
        total opportunistic h)

or_default-positive : (o : Option ℤ) (d : ℕ) → 1 ≤ d → 1 ≤ or_default o d
or_default-positive none d h = h
or_default-positive (some n) d h = omega arith

allocate-positive :
    (total : ℕ) (pipelined : Bool) (codec ggml : Option ℤ) (opportunistic : Bool)
    → 1 ≤ total
    → (1 ≤ (allocate total pipelined codec ggml opportunistic).0)
      × (1 ≤ (allocate total pipelined codec ggml opportunistic).1)
allocate-positive total false codec ggml opportunistic h = (
  or_default-positive ggml total h,
  or_default-positive codec (default_non_pipelined_codec_threads total) (ground arith),
)
allocate-positive total true codec ggml opportunistic h = elim (dec_le 2 total) [
  | yes many ↦
      let more : leb total 1 ≡ false = ground arith in
      let shared = pipelined-IsShared codec ggml total opportunistic many in
      rw more (shared.0, shared.1)
  | no few ↦ let one : leb total 1 ≡ true = ground arith in rw one (omega arith, omega arith)
]

-- For any total, overrides, environment and mode, both engines have a thread at least.
pub resolve_zerotts_thread_budget-positive :
    (env : Environment) (total : ℤ) (pipelined : Bool) (codec ggml : Option ℤ)
    (opportunistic : Bool)
    → (1 ≤ (resolve_zerotts_thread_budget env total pipelined codec ggml opportunistic).0)
      × (1 ≤ (resolve_zerotts_thread_budget env total pipelined codec ggml opportunistic).1)
unfolding resolve_zerotts_thread_budget
resolve_zerotts_thread_budget-positive env total pipelined codec ggml opportunistic =
    allocate-positive (at_least_one total) pipelined (effective codec env.codec_threads)
      (effective ggml env.ggml_threads) opportunistic (omega arith)

-- The counts that the host reports, each of which is a limit.
abbrev pub limits_of : Bool → Host → List ℕ
limits_of only_physical_cores h =
    logical_cpus h
    ∷ affinity_cpus h
    ∷ (optional h.cgroup ++ physical_cpus only_physical_cores h.physical)

-- Within every limit of the host, of which one thread is always allowed, and within the configured
-- count, unless that is zero.
abbrev pub IsAllowed : ℕ → Bool → Host → ℕ → Type 0
IsAllowed configured only_physical_cores h n =
    All (λ limit. n ≤ max 1 limit) (limits_of only_physical_cores h)
    × ((configured ≡ 0) ⊎ (n ≤ configured))

le_minimum :
    (n first : ℕ) (rest : List ℕ)
    → n ≤ max 1 first
    → All (λ limit. n ≤ max 1 limit) rest
    → n ≤ max 1 (minimum first rest)
unfolding minimum
le_minimum n first [] h hs = h
le_minimum n first (x ∷ rest) h (k, hs) = le_minimum n (min first x) rest (omega arith) hs

available_cpu_count-positive :
    (only_physical_cores : Bool) (h : Host) → 1 ≤ available_cpu_count only_physical_cores h
unfolding available_cpu_count
available_cpu_count-positive only_physical_cores h = omega arith

le_available_cpu_count :
    (only_physical_cores : Bool) (h : Host) (n : ℕ)
    → All (λ limit. n ≤ max 1 limit) (limits_of only_physical_cores h)
    → n ≤ available_cpu_count only_physical_cores h
unfolding available_cpu_count
le_available_cpu_count only_physical_cores h n (first, rest) =
    le_minimum n (logical_cpus h) _ first rest

available_cpu_count-within :
    (only_physical_cores : Bool) (h : Host) (n : ℕ)
    → n ≤ available_cpu_count only_physical_cores h
    → All (λ limit. n ≤ max 1 limit) (limits_of only_physical_cores h)
unfolding available_cpu_count
available_cpu_count-within only_physical_cores h n less =
    let rest =
      affinity_cpus h ∷ (optional h.cgroup ++ physical_cpus only_physical_cores h.physical) in
    let least = minimum (logical_cpus h) rest in
    (
      omega (arith, minimum-le-first (logical_cpus h) rest),
      All-mono (λ x. least ≤ x) (λ x. n ≤ max 1 x) rest (λ x t. omega arith)
          (minimum-le (logical_cpus h) rest),
    )

-- A configured count that is not negative resolves to the largest count, one at least, that every
-- limit allows: the logical processors, the affinity of the process, the quota of the cgroups, the
-- physical cores, if only they are asked for, and the configured count, unless it is zero. A limit
-- of zero allows one.
pub resolve_cpu_threads-IsLargest :
    (configured : ℕ) (only_physical_cores : Bool) (h : Host)
    → (n : ℕ) × (resolve_cpu_threads (pos configured) only_physical_cores h ≡ ok n)
      × (1 ≤ n)
      × IsAllowed configured only_physical_cores h n
      × ((m : ℕ) → IsAllowed configured only_physical_cores h m → m ≤ n)
unfolding resolve_cpu_threads
resolve_cpu_threads-IsLargest zero only_physical_cores h = (
  available_cpu_count only_physical_cores h,
  refl,
  available_cpu_count-positive only_physical_cores h,
  (available_cpu_count-within only_physical_cores h _ (omega arith), inl refl),
  λ m (within, asked). le_available_cpu_count only_physical_cores h m within,
)
resolve_cpu_threads-IsLargest (suc configured) only_physical_cores h =
    let available = available_cpu_count only_physical_cores h in
    let positive = available_cpu_count-positive only_physical_cores h in
    (
      min (suc configured) available,
      ground arith,
      omega (arith, positive),
      (available_cpu_count-within only_physical_cores h _ (omega arith), inr (omega arith)),
      λ m allowed. omega (
        arith,
        le_available_cpu_count only_physical_cores h m allowed.0,
        within_configured configured m allowed.1,
      ),
    )
  where
    within_configured : (k m : ℕ) → (suc k ≡ 0) ⊎ (m ≤ suc k) → m ≤ suc k
    within_configured k m (inl e) = absurd (omega arith)
    within_configured k m (inr h) = h
