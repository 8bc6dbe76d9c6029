-- ===== src/Common/Bits.antt =====
-- `|` of two fields that do not overlap and `&` with seven ones, as arithmetic, at every value.
use Prim.Native.Nat.{
  ℕ, zero, suc, ◌+◌, ◌*◌, ◌/◌, ◌%◌, ◌^◌, ◌≤◌, ◌<◌, min, max, bit_and, bit_or, digits,
  bit_and-bitwise, bit_or-bitwise,
}
use mathlib.Core.Path.{◌≡◌, refl, ap}
use native.Mathlib.Nat.{pow-suc}
use native.Mathlib.Omega.{arith}

-- Both operations stand for a recursion on the digits of the left number, with a count of steps.
-- Counts that are not below the number give the same.
steps_agree :
    (rest : ℕ → ℕ) (digit : ℕ → ℕ → ℕ) (x k l y : ℕ)
    → x ≤ k
    → x ≤ l
    → digits rest digit k x y ≡ digits rest digit l x y
steps_agree rest digit (suc x) (suc k) (suc l) y below below' =
    let halves = steps_agree rest digit (suc x / 2) k l (y / 2) (omega arith) (omega arith) in
    ap (λ (high : ℕ). high * 2 + digit (suc x % 2) (y % 2)) halves
steps_agree rest digit (suc x) (suc k) zero y below below' = absurd (omega arith)
steps_agree rest digit (suc x) zero l y below below' = absurd (omega arith)
steps_agree rest digit zero (suc k) (suc l) y below below' = refl
steps_agree rest digit zero (suc k) zero y below below' = refl
steps_agree rest digit zero zero (suc l) y below below' = refl
steps_agree rest digit zero zero zero y below below' = refl

zero-bit_or : (y : ℕ) → bit_or zero y ≡ y
zero-bit_or y = bit_or-bitwise zero y

zero-bit_and : (y : ℕ) → bit_and zero y ≡ zero
zero-bit_and y = bit_and-bitwise zero y

pub bit_or_halves : (x y : ℕ) → bit_or x y ≡ bit_or (x / 2) (y / 2) * 2 + max (x % 2) (y % 2)
bit_or_halves (suc x) y =
    let enough = steps_agree (λ t. t) max (suc x / 2) x (suc x / 2) (y / 2) in
    omega (
      arith,
      enough (omega arith) (omega arith),
      bit_or-bitwise (suc x / 2) (y / 2),
      bit_or-bitwise (suc x) y,
    )
bit_or_halves zero y = omega (arith, zero-bit_or (y / 2), zero-bit_or y)

pub bit_and_halves : (x y : ℕ) → bit_and x y ≡ bit_and (x / 2) (y / 2) * 2 + min (x % 2) (y % 2)
bit_and_halves (suc x) y =
    let enough = steps_agree (λ _. zero) min (suc x / 2) x (suc x / 2) (y / 2) in
    omega (
      arith,
      enough (omega arith) (omega arith),
      bit_and-bitwise (suc x / 2) (y / 2),
      bit_and-bitwise (suc x) y,
    )
bit_and_halves zero y = omega (arith, zero-bit_and (y / 2), zero-bit_and y)

-- `low | (high << k)` is a sum when `low` has at most `k` bits.
pub bit_or_disjoint :
    (k low high : ℕ) → low < 2 ^ k → bit_or low (high * 2 ^ k) ≡ low + high * 2 ^ k
bit_or_disjoint zero zero high h = omega (arith, zero-bit_or (high * 2 ^ 0))
bit_or_disjoint zero (suc low) high h = absurd (omega arith)
bit_or_disjoint (suc k) low high h =
    let twice : high * 2 ^ suc k ≡ 2 * (high * 2 ^ k) =
      omega (arith, ap (λ (t : ℕ). high * t) (pow-suc 2 k)) in
    let half : high * 2 ^ suc k / 2 ≡ high * 2 ^ k = omega (arith, twice) in
    let even : high * 2 ^ suc k % 2 ≡ 0 = omega (arith, twice) in
    rw
      (
        bit_or_halves low (high * 2 ^ suc k),
        half,
        even,
        bit_or_disjoint k (low / 2) high (omega (arith, pow-suc 2 k)),
      )
      (omega (arith, twice))

bit_and-zero_below : (x bound : ℕ) → x < bound → bit_and x zero ≡ zero
bit_and-zero_below x zero below = absurd (omega arith)
bit_and-zero_below zero (suc bound) below = zero-bit_and zero
bit_and-zero_below (suc x) (suc bound) below =
    let half = bit_and-zero_below (suc x / 2) bound (omega arith) in
    omega (arith, half, bit_and_halves (suc x) zero)

bit_and-zero : (x : ℕ) → bit_and x zero ≡ zero
bit_and-zero x = bit_and-zero_below x (suc x) (omega arith)

bit_and_seven : (a : ℕ) → bit_and a 7 ≡ a % 8
bit_and_seven a = omega (
  arith,
  bit_and_halves a 7,
  bit_and_halves (a / 2) 3,
  bit_and_halves (a / 2 / 2) 1,
  bit_and-zero (a / 2 / 2 / 2),
)

-- `a & 0x7F`
pub bit_and_low : (a : ℕ) → bit_and a 0x7f ≡ a % 128
bit_and_low a = omega (
  arith,
  bit_and_halves a 127,
  bit_and_halves (a / 2) 63,
  bit_and_halves (a / 2 / 2) 31,
  bit_and_halves (a / 2 / 2 / 2) 15,
  bit_and_seven (a / 2 / 2 / 2 / 2),
)

bit_and_eight : (a : ℕ) → bit_and a 8 ≡ a / 8 % 2 * 8
bit_and_eight a = omega (
  arith,
  bit_and_halves a 8,
  bit_and_halves (a / 2) 4,
  bit_and_halves (a / 2 / 2) 2,
  bit_and_halves (a / 2 / 2 / 2) 1,
  bit_and-zero (a / 2 / 2 / 2 / 2),
)

-- `a & 0x80`
pub bit_and_high : (a : ℕ) → bit_and a 0x80 ≡ a / 128 % 2 * 128
bit_and_high a = omega (
  arith,
  bit_and_halves a 128,
  bit_and_halves (a / 2) 64,
  bit_and_halves (a / 2 / 2) 32,
  bit_and_halves (a / 2 / 2 / 2) 16,
  bit_and_eight (a / 2 / 2 / 2 / 2),
)
