-- ===== src/Combined/Admission.antt =====
-- `run` of `CombinedEventHandler`, of wyoming_vietnamese/combined.py: the slots of the limiter over
-- any sequence of connections that come, end, and a shutdown.
use wyoming_vietnamese.Common.{
  if◌then◌else◌, Bool-cases, ℤ, Result, ◌>>=◌, ok, raise, ℕ, zero, suc, ◌+◌, ◌≤◌, ◌<◌, ◌≡◌, refl,
  subst, ◌∙◌, inl, inr, Bool, true, false, List, [], ◌∷◌, arith,
}
use wyoming_vietnamese.Protocol.Limiter.Invariant.{init-IsValid}
use wyoming_vietnamese.Protocol.Limiter.{Limiter, init, try_acquire, stop_accepting, release}

-- The connections that run, each with whether its peer is on the loopback interface.
pub record Server : Type 0 where
  pub limiter : Limiter
  pub running : List Bool

-- A peer connects, the connection at a position of the list ends, or the server shuts down.
pub data Move : Type 0 where
  connect : Bool → Move
  close : ℕ → Move
  shut_down : Move

abbrev is_running : List Bool → ℕ → Bool
is_running [] n = false
is_running (b ∷ bs) zero = true
is_running (b ∷ bs) (suc n) = is_running bs n

abbrev remove : List Bool → ℕ → List Bool
remove [] n = []
remove (b ∷ bs) zero = bs
remove (b ∷ bs) (suc n) = b ∷ remove bs n

abbrev admitted : Server → Bool → Limiter × Bool → Server
admitted s is_local (l, true) = record { limiter = l; running = is_local ∷ s.running }
admitted s is_local (l, false) = record s { limiter = l }

abbrev closed : Server → ℕ → Result Limiter → Result Server
closed s n (raise e) = raise e
closed s n (ok l) = ok (record { limiter = l; running = remove s.running n })

-- `run` up to `try_acquire`, and its `finally: release`; a rejected peer takes no slot.
unfoldable pub move : Server → Move → Result Server
move s (connect is_local) = ok (admitted s is_local (try_acquire s.limiter is_local))
move s (close n) = if is_running s.running n then closed s n (release s.limiter) else ok s
move s shut_down = ok (record s { limiter = stop_accepting s.limiter })

unfoldable pub moves : Server → List Move → Result Server
moves s [] = ok s
moves s (m ∷ ms) = move s m >>= λ s'. moves s' ms

abbrev pub locals : List Bool → ℕ
locals [] = 0
locals (true ∷ bs) = suc (locals bs)
locals (false ∷ bs) = locals bs

abbrev pub remotes : List Bool → ℕ
remotes [] = 0
remotes (true ∷ bs) = remotes bs
remotes (false ∷ bs) = suc (remotes bs)

-- Each running connection has one slot, and remote ones hold no part of the loopback reserve.
abbrev pub IsAdmitted : Server → Type 0
IsAdmitted s =
    (s.limiter.active ≡ locals s.running + remotes s.running)
    × (s.limiter.active ≤ s.limiter.maximum + s.limiter.local_reserve)
    × (remotes s.running ≤ s.limiter.maximum)

remove_lem :
    (bs : List Bool) (n : ℕ)
    → is_running bs n ≡ true
    → (suc (locals (remove bs n) + remotes (remove bs n)) ≡ locals bs + remotes bs)
      × (remotes (remove bs n) ≤ remotes bs)
remove_lem [] n h = cc
remove_lem (true ∷ bs) zero h = (omega arith, omega arith)
remove_lem (false ∷ bs) zero h = (omega arith, omega arith)
remove_lem (true ∷ bs) (suc n) h = let t = remove_lem bs n h in (omega (arith, t.0), t.1)
remove_lem (false ∷ bs) (suc n) h =
    let t = remove_lem bs n h in (omega (arith, t.0), omega (arith, t.1))

-- The operation returns, and the limits are the same.
abbrev pub IsAfter : Server → Result Server → Type 0
IsAfter s (raise e) = ⊥
IsAfter s (ok s') =
    IsAdmitted s'
    × (s'.limiter.maximum ≡ s.limiter.maximum)
    × (s'.limiter.local_reserve ≡ s.limiter.local_reserve)

move-IsAfter : (s : Server) (m : Move) → IsAdmitted s → IsAfter s (move s m)
unfolding move try_acquire stop_accepting release
move-IsAfter s (connect true) v = ground arith
move-IsAfter s (connect false) v = ground arith
move-IsAfter s (close n) v = elim (Bool-cases (is_running s.running n)) [
  | inl h ↦ rw h (let t = remove_lem s.running n h in ground (arith, t, v))
  | inr h ↦ rw h (v, refl, refl)
]
move-IsAfter s shut_down v = (v, refl, refl)

IsAfter-trans :
    (s s' : Server) (r : Result Server)
    → s'.limiter.maximum ≡ s.limiter.maximum
    → s'.limiter.local_reserve ≡ s.limiter.local_reserve
    → IsAfter s' r
    → IsAfter s r
IsAfter-trans s s' (raise e) h h' v = v
IsAfter-trans s s' (ok s'') h h' v = (v.0, v.1 ∙ h, v.2 ∙ h')

bind-IsAfter :
    (s : Server) (r : Result Server) (f : Server → Result Server)
    → IsAfter s r
    → ((s' : Server) → IsAdmitted s' → IsAfter s' (f s'))
    → IsAfter s (r >>= f)
bind-IsAfter s (raise e) f v next = v
bind-IsAfter s (ok s') f v next = IsAfter-trans s s' (f s') v.1 v.2 (next s' v.0)

moves-IsAfter : (s : Server) (ms : List Move) → IsAdmitted s → IsAfter s (moves s ms)
unfolding moves
moves-IsAfter s [] v = (v, refl, refl)
moves-IsAfter s (m ∷ ms) v =
    bind-IsAfter s (move s m) (λ s'. moves s' ms) (move-IsAfter s m v)
      (λ s' v'. moves-IsAfter s' ms v')

-- From a server without connections, any sequence of connections, ends and a shutdown goes through
-- without the error of `release`; there are as many running connections as slots taken, at most the
-- maximum and the reserve, and at most the maximum of them are remote.
pub moves-IsAdmitted :
    (maximum local_reserve : ℤ) (l : Limiter) (ms : List Move)
    → init maximum local_reserve ≡ ok l
    → IsAfter
        (record { limiter = l; running = [] })
        (moves (record { limiter = l; running = [] }) ms)
moves-IsAdmitted maximum local_reserve l ms h =
    let (v, none_active, _) = init-IsValid maximum local_reserve h in
    moves-IsAfter (record { limiter = l; running = [] }) ms (none_active, v.bounded, omega arith)

-- Remote load never keeps loopback peers out: after any such sequence, a server that still accepts
-- and runs fewer loopback connections than its reserve gives a loopback peer a slot.
pub try_acquire-local :
    (maximum local_reserve : ℤ) (l : Limiter) (ms : List Move) (s : Server)
    → init maximum local_reserve ≡ ok l
    → moves (record { limiter = l; running = [] }) ms ≡ ok s
    → s.limiter.accepting ≡ true
    → locals s.running < s.limiter.local_reserve
    → (try_acquire s.limiter true).1 ≡ true
unfolding try_acquire
try_acquire-local maximum local_reserve l ms s h run accepts few =
    let start : Server = record { limiter = l; running = [] } in
    let after = subst (IsAfter start) run (moves-IsAdmitted maximum local_reserve l ms h) in
    ground (arith, after)
