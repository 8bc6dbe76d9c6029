-- ===== src/Variants/Best.antt =====
-- The variant that is detected runs on the host, and no supported variant that runs is better.
use wyoming_vietnamese.Common.{
  if◌then◌else◌, Bool-cases, All, ℕ, ◌≤◌, ◌≡◌, refl, sym, ◌∙◌, inl, inr, Bool, true, false, List,
  [], ◌∷◌, arith,
}
use Prim.Native.String.{String}
use mathlib.Core.Bool.{true≢false}
use wyoming_vietnamese.Variants.{
  Machine, x86, arm, other_machine, Variant, compat, sse4, avx, avx2, avx512, arm_dotprod,
  native_variant, can_host_execute_variant, detect_cpu_variant, get_supported_variants_for_host,
  best_arm,
}

-- How many instruction sets a variant uses beyond the baseline.
abbrev pub rank : Variant → ℕ
rank compat = 0
rank native_variant = 0
rank sse4 = 1
rank avx = 2
rank avx2 = 3
rank avx512 = 4
rank arm_dotprod = 1

-- A variant that runs, and at least as good as each of the list that runs.
abbrev pub IsBest : (Variant → Bool) → List Variant → Variant → Type 0
IsBest can variants best = (can best ≡ true) × All (λ v. can v ≡ true → rank v ≤ rank best) variants

-- The chain of tests of `detect_cpu_variant`.
abbrev first_of : (Variant → Bool) → Variant
first_of can =
    if can avx512
    then avx512
    else if can avx2
    then avx2
    else if can avx
    then avx
    else if can sse4
    then sse4
    else compat

abbrev x86_variants : List Variant
x86_variants = compat ∷ sse4 ∷ avx ∷ avx2 ∷ avx512 ∷ []

-- A test that fails excuses its variant.
fails : (b : Bool) (m n : ℕ) → b ≡ false → b ≡ true → m ≤ n
fails b m n h k = absurd (true≢false (sym k ∙ h))

first_of-IsBest :
    (can : Variant → Bool) → can compat ≡ true → IsBest can x86_variants (first_of can)
first_of-IsBest can h = elim (Bool-cases (can avx512)) [
  | inl a ↦ rw a (
    a,
    (
      λ _. omega arith,
      (λ _. omega arith, (λ _. omega arith, (λ _. omega arith, (λ _. omega arith, tt)))),
    ),
  )
  | inr a ↦ rw a (elim (Bool-cases (can avx2)) [
    | inl b ↦ rw b (
      b,
      (
        λ _. omega arith,
        (λ _. omega arith, (λ _. omega arith, (λ _. omega arith, (fails false 4 3 refl, tt)))),
      ),
    )
    | inr b ↦ rw b (elim (Bool-cases (can avx)) [
      | inl c ↦ rw c (
        c,
        (
          λ _. omega arith,
          (
            λ _. omega arith,
            (λ _. omega arith, (fails false 3 2 refl, (fails false 4 2 refl, tt))),
          ),
        ),
      )
      | inr c ↦ rw c (elim (Bool-cases (can sse4)) [
        | inl d ↦ rw d (
          d,
          (
            λ _. omega arith,
            (
              λ _. omega arith,
              (fails false 2 1 refl, (fails false 3 1 refl, (fails false 4 1 refl, tt))),
            ),
          ),
        )
        | inr d ↦ rw d (
          h,
          (
            λ _. omega arith,
            (
              fails false 1 0 refl,
              (fails false 2 0 refl, (fails false 3 0 refl, (fails false 4 0 refl, tt))),
            ),
          ),
        )
      ])
    ])
  ])
]

compat-runs :
    (machine : Machine) (flags : List String) → can_host_execute_variant machine flags compat ≡ true
unfolding can_host_execute_variant
compat-runs machine flags = refl

best_arm-IsBest :
    (flags : List String)
    → IsBest (can_host_execute_variant arm flags) (compat ∷ arm_dotprod ∷ []) (best_arm arm flags)
best_arm-IsBest flags =
    let runs = compat-runs arm flags in
    elim (Bool-cases (can_host_execute_variant arm flags arm_dotprod)) [
      | inl a ↦ rw a (a, (λ _. omega arith, (λ _. omega arith, tt)))
      | inr a ↦ rw a (runs, (λ _. omega arith, (fails false 1 0 refl, tt)))
    ]

-- On any machine and whatever its flags, the detected variant runs on the host, and of the variants
-- that are supported for the machine none that runs on the host uses more instruction sets.
pub detect_cpu_variant-IsBest :
    (machine : Machine) (flags : List String)
    → IsBest
        (can_host_execute_variant machine flags)
        (get_supported_variants_for_host machine)
        (detect_cpu_variant machine flags)
unfolding detect_cpu_variant get_supported_variants_for_host
detect_cpu_variant-IsBest x86 flags =
    first_of-IsBest (can_host_execute_variant x86 flags) (compat-runs x86 flags)
detect_cpu_variant-IsBest arm flags = best_arm-IsBest flags
detect_cpu_variant-IsBest other_machine flags =
    let (runs, (least, _)) =
      first_of-IsBest (can_host_execute_variant other_machine flags)
        (compat-runs other_machine flags) in
    (runs, (least, tt))
