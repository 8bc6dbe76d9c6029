-- ===== src/Protocol/Limiter.antt =====
-- `ConnectionLimiter` of wyoming_vietnamese/protocol.py. The limiter runs on the event loop, so its
-- operations are atomic. `_idle` is an asyncio event: a flag that waiters read.
pub mod Invariant
use wyoming_vietnamese.Common.{
  ltb, leb, ◌==◌, if◌then◌else◌, ℤ, is_negative, to_nat, pos, negsuc, Result, ◌>>=◌, ◌>>◌, raise_if,
  value_error, runtime_error, ok, ℕ, ◌+◌, ◌-◌, Bool, true, false, not,
}

pub record Limiter : Type 0 where
  pub maximum : ℕ
  pub local_reserve : ℕ
  pub active : ℕ
  pub accepting : Bool
  pub idle : Bool

-- `a < 1`
abbrev pub below_one : ℤ → Bool
below_one (pos n) = n == 0
below_one (negsuc n) = true

-- `__init__`
unfoldable pub init : ℤ → ℤ → Result Limiter
init maximum local_reserve = do
  raise_if (below_one maximum) value_error
  raise_if (is_negative local_reserve) value_error
  ok (record {
    maximum = to_nat maximum;
    local_reserve = to_nat local_reserve;
    active = 0;
    accepting = true;
    idle = true;
  })

-- The bound that `try_acquire` compares with.
abbrev pub limit : Limiter → Bool → ℕ
limit l is_local = if is_local then l.maximum + l.local_reserve else l.maximum

-- `try_acquire`: the limiter afterwards, and whether a slot was reserved.
unfoldable pub try_acquire : Limiter → Bool → Limiter × Bool
try_acquire l is_local =
    if not l.accepting
    then (l, false)
    else if leb (limit l is_local) l.active
    then (l, false)
    else (record l { active = l.active + 1; idle = false }, true)

-- `stop_accepting`
unfoldable pub stop_accepting : Limiter → Limiter
stop_accepting l = record l { accepting = false }

-- `release`
unfoldable pub release : Limiter → Result Limiter
release l = do
  raise_if (ltb l.active 1) runtime_error
  ok (record l { active = l.active - 1; idle = if l.active - 1 == 0 then true else l.idle })
