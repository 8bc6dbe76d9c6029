-- ===== src/Protocol/Limiter/Invariant.antt =====
-- Any history of one `ConnectionLimiter`: connections that come and go, and a shutdown.
use wyoming_vietnamese.Common.{◌==◌, ℤ, ok, ◌+◌, ◌≤◌, ◌≡◌, Bool, true, arith}
use wyoming_vietnamese.Protocol.Limiter.{Limiter, init, try_acquire, release}

pub record IsValid (l : Limiter) : Type 0 where
  pub positive : 1 ≤ l.maximum
  pub bounded : l.active ≤ l.maximum + l.local_reserve
  pub idle_flag : l.idle ≡ (l.active == 0)

pub init-IsValid :
    (maximum local_reserve : ℤ) {l : Limiter}
    → init maximum local_reserve ≡ ok l
    → IsValid l × (l.active ≡ 0) × (l.accepting ≡ true)
unfolding init
init-IsValid maximum local_reserve h = ground arith

pub try_acquire-IsValid :
    (l : Limiter) (is_local : Bool) → IsValid l → IsValid (try_acquire l is_local).0
unfolding try_acquire
try_acquire-IsValid l is_local v = ground arith

pub release-IsValid : (l l' : Limiter) → IsValid l → release l ≡ ok l' → IsValid l'
unfolding release
release-IsValid l l' v h = ground arith
