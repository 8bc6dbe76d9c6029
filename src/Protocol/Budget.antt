-- ===== src/Protocol/Budget.antt =====
-- `ByteBudget` of wyoming_vietnamese/protocol.py: one bound shared by the buffers of all handlers.
use wyoming_vietnamese.Common.{
  ltb, if◌then◌else◌, ℤ, to_nat, pos, negsuc, Result, ◌>>◌, raise_if, value_error, runtime_error,
  ok, raise, ℕ, ◌+◌, ◌-◌, ◌≤◌, ◌≡◌, Bool, true, false, arith,
}
use wyoming_vietnamese.Protocol.Limiter.{below_one}

pub record Budget : Type 0 where
  pub maximum : ℕ
  pub used : ℕ

-- `__init__`
unfoldable pub init : ℤ → Result Budget
init maximum = do
  raise_if (below_one maximum) value_error
  ok (record { maximum = to_nat maximum; used = 0 })

-- `try_reserve`: the budget afterwards, and whether the bytes were reserved.
unfoldable pub try_reserve : Budget → ℤ → Result (Budget × Bool)
try_reserve b (negsuc n) = raise value_error
try_reserve b (pos size) =
    if ltb b.maximum (b.used + size)
    then ok (b, false)
    else ok (record b { used = b.used + size }, true)

-- `release`
unfoldable pub release : Budget → ℤ → Result Budget
release b (negsuc n) = raise runtime_error
release b (pos size) =
    if ltb b.used size then raise runtime_error else ok (record b { used = b.used - size })

abbrev pub IsValid : Budget → Type 0
IsValid b = (1 ≤ b.maximum) × (b.used ≤ b.maximum)

pub init-IsValid : (maximum : ℤ) {b : Budget} → init maximum ≡ ok b → IsValid b
unfolding init
init-IsValid maximum h = ground arith

pub try_reserve-IsValid :
    (b b' : Budget) (size : ℤ) (granted : Bool)
    → try_reserve b size ≡ ok (b', granted)
    → IsValid b
    → IsValid b'
unfolding try_reserve
try_reserve-IsValid b b' (negsuc n) granted h v = cc
try_reserve-IsValid b b' (pos size) granted h v = ground arith

-- Bytes that were granted can be given back, and the budget is then what it was.
pub release-try_reserve :
    (b b' : Budget) (size : ℤ) → try_reserve b size ≡ ok (b', true) → release b' size ≡ ok b
unfolding try_reserve release
release-try_reserve b b' (negsuc n) h = cc
release-try_reserve b b' (pos size) h = ground arith
