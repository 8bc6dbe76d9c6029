-- ===== src/Variants/Examples.antt =====
-- The variants of two hosts.
use wyoming_vietnamese.Common.{◌≡◌, refl, List, [], ◌∷◌}
use Prim.Native.String.{String}
use wyoming_vietnamese.Variants.{
  x86, arm, avx, arm_dotprod, has_flag, is_subset, can_host_execute_variant, detect_cpu_variant,
  get_supported_variants_for_host,
}
use wyoming_vietnamese.Variants.Best.{IsBest, detect_cpu_variant-IsBest}

abbrev sandy_bridge : List String
sandy_bridge = "sse4_2" ∷ "sse4_1" ∷ "avx" ∷ "popcnt" ∷ []

detects_avx : detect_cpu_variant x86 sandy_bridge ≡ avx
unfolding detect_cpu_variant can_host_execute_variant is_subset has_flag
detects_avx = refl

detects_dotprod : detect_cpu_variant arm ("asimd" ∷ "asimddp" ∷ []) ≡ arm_dotprod
unfolding detect_cpu_variant can_host_execute_variant has_flag
detects_dotprod = refl

detect_cpu_variant-IsBest_example :
    IsBest
      (can_host_execute_variant x86 sandy_bridge)
      (get_supported_variants_for_host x86)
      (detect_cpu_variant x86 sandy_bridge)
detect_cpu_variant-IsBest_example = detect_cpu_variant-IsBest x86 sandy_bridge
