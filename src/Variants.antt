-- ===== src/Variants.antt =====
-- The CPU variants of the ZeroTTS runtime: `can_host_execute_variant`, `detect_cpu_variant` and
-- `get_supported_variants_for_host` of wyoming_vietnamese/cpu.py. A machine is what
-- `platform.machine().lower()` names, and the flags of the host are a list.
pub mod Best
mod Examples
use wyoming_vietnamese.Common.{if◌then◌else◌, Bool, true, false, not, ◌&&◌, ◌||◌, List, [], ◌∷◌}
use Prim.Native.String.{String}
use text.Mathlib.Text.{◌==◌ as str_eq}

-- The names that the code compares with: `x86_64`, `amd64` and `x64`; `aarch64` and `arm64`.
pub data Machine : Type 0 where
  x86 arm other_machine : Machine

pub data Variant : Type 0 where
  compat sse4 avx avx2 avx512 arm_dotprod native_variant : Variant

abbrev pub sse4_cpu_flags : List String
sse4_cpu_flags = "sse4_1" ∷ "sse4_2" ∷ "popcnt" ∷ []

abbrev pub avx_cpu_flags : List String
avx_cpu_flags = "avx" ∷ sse4_cpu_flags

abbrev pub avx2_cpu_flags : List String
avx2_cpu_flags = "avx2" ∷ "fma" ∷ "f16c" ∷ "bmi2" ∷ avx_cpu_flags

abbrev pub avx512_cpu_flags : List String
avx512_cpu_flags = "avx512f" ∷ "avx512vl" ∷ "avx512bw" ∷ "avx512dq" ∷ avx2_cpu_flags

unfoldable pub has_flag : List String → String → Bool
has_flag [] flag = false
has_flag (f ∷ flags) flag = if str_eq f flag then true else has_flag flags flag

-- `wanted.issubset(flags)`
unfoldable pub is_subset : List String → List String → Bool
is_subset [] flags = true
is_subset (w ∷ wanted) flags = has_flag flags w && is_subset wanted flags

abbrev pub is_machine : Machine → Machine → Bool
is_machine x86 x86 = true
is_machine x86 arm = false
is_machine x86 other_machine = false
is_machine arm x86 = false
is_machine arm arm = true
is_machine arm other_machine = false
is_machine other_machine x86 = false
is_machine other_machine arm = false
is_machine other_machine other_machine = true

abbrev pub is_none : List String → Bool
is_none [] = true
is_none (f ∷ flags) = false

abbrev pub has_dotprod : List String → Bool
has_dotprod flags = has_flag flags "asimddp" || has_flag flags "dotprod"

-- The flags that an x86 variant wants.
abbrev pub executes : Variant → List String → Bool
executes compat flags = true
executes native_variant flags = true
executes arm_dotprod flags = has_dotprod flags
executes avx512 flags = is_subset avx512_cpu_flags flags
executes avx2 flags = is_subset avx2_cpu_flags flags
executes avx flags = is_subset avx_cpu_flags flags
executes sse4 flags = is_subset sse4_cpu_flags flags

abbrev pub on_machine : Machine → Machine → Variant → List String → Bool
on_machine wanted machine variant flags =
    if is_none flags
    then false
    else if not (is_machine wanted machine)
    then false
    else executes variant flags

-- `can_host_execute_variant`
unfoldable pub can_host_execute_variant : Machine → List String → Variant → Bool
can_host_execute_variant machine flags compat = true
can_host_execute_variant machine flags native_variant = true
can_host_execute_variant machine flags arm_dotprod = on_machine arm machine arm_dotprod flags
can_host_execute_variant machine flags avx512 = on_machine x86 machine avx512 flags
can_host_execute_variant machine flags avx2 = on_machine x86 machine avx2 flags
can_host_execute_variant machine flags avx = on_machine x86 machine avx flags
can_host_execute_variant machine flags sse4 = on_machine x86 machine sse4 flags

-- The arms of `detect_cpu_variant`, for machines that are no Arm and that are.
abbrev pub best_x86 : Machine → List String → Variant
best_x86 machine flags =
    if can_host_execute_variant machine flags avx512
    then avx512
    else if can_host_execute_variant machine flags avx2
    then avx2
    else if can_host_execute_variant machine flags avx
    then avx
    else if can_host_execute_variant machine flags sse4
    then sse4
    else compat

abbrev pub best_arm : Machine → List String → Variant
best_arm machine flags =
    if can_host_execute_variant machine flags arm_dotprod then arm_dotprod else compat

-- `detect_cpu_variant`
unfoldable pub detect_cpu_variant : Machine → List String → Variant
detect_cpu_variant machine flags =
    if is_machine arm machine then best_arm machine flags else best_x86 machine flags

-- `get_supported_variants_for_host`
unfoldable pub get_supported_variants_for_host : Machine → List Variant
get_supported_variants_for_host x86 = compat ∷ sse4 ∷ avx ∷ avx2 ∷ avx512 ∷ []
get_supported_variants_for_host arm = compat ∷ arm_dotprod ∷ []
get_supported_variants_for_host other_machine = compat ∷ []
