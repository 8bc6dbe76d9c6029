-- ===== src/Cache/History.antt =====
-- Any sequence of calls on one `BoundedLruCache`, at times that do not go back.
use wyoming_vietnamese.Common.{
  Bool-cases, ℤ, pos, negsuc, Result, ok, raise, ℕ, ◌≤◌, ◌≡◌, refl, inl, inr, Bool, List, [], ◌∷◌,
  arith,
}
use wyoming_vietnamese.Cache.Entries.{sizes}
use wyoming_vietnamese.Cache
use wyoming_vietnamese.Cache.{Cache, enabled, init, clear, prune}
use wyoming_vietnamese.Cache.Accounting.{
  IsValid, init-IsValid, prune-IsValid, clear-IsValid, prune_lem,
}
use wyoming_vietnamese.Cache.Lookup.{get-IsValid, refuses, put-Stores, Stores-IsValid}
use wyoming_vietnamese.Cache.Expiry.{IsOrdered, get-IsOrdered, put-IsOrdered, tail-IsOrdered}

pub data Call {ℓ} (K V : Type ℓ) : Type ℓ where
  gets : K → Call K V
  puts : K → V → ℤ → Call K V
  prunes clears : Call K V

module _ {ℓ} {K V : Type ℓ} where
  -- The times of the calls do not go back.
  abbrev pub Rising : ℕ → List (ℕ × Call K V) → Type 0
  Rising now [] = Unit
  Rising now ((t, call) ∷ calls) = (now ≤ t) × Rising t calls

  abbrev pub last_time : ℕ → List (ℕ × Call K V) → ℕ
  last_time now [] = now
  last_time now ((t, call) ∷ calls) = last_time t calls

  -- A call that raises leaves the cache as it was.
  abbrev pub after : Cache K V → Result (Cache K V × Bool) → Cache K V
  after c (ok (c', stored)) = c'
  after c (raise e) = c

module _ {ℓ} {K V : Type ℓ} (dec : Discrete K) where
  pub step : Cache K V → ℕ × Call K V → Cache K V
  step c (now, gets key) = (Cache.get dec c key now).0
  step c (now, puts key value size) = after c (Cache.put dec c key value size now)
  step c (now, prunes) = (prune c now).0
  step c (now, clears) = (clear c).0

  pub run : Cache K V → List (ℕ × Call K V) → Cache K V
  run c [] = c
  run c (call ∷ calls) = run (step c call) calls

  -- Both invariants at once.
  abbrev pub IsSound : Cache K V → ℕ → Type ℓ
  IsSound c now = IsValid c × IsOrdered c now

  wait-IsOrdered :
      (c : Cache K V) (before now : ℕ) → before ≤ now → IsOrdered c before → IsOrdered c now
  wait-IsOrdered c before now h o = tail-IsOrdered c before now [] c.entries c.total_bytes h refl o

  put-IsSound :
      (c : Cache K V) (key : K) (value : V) (size : ℤ) (before now : ℕ)
      → before ≤ now
      → IsSound c before
      → IsSound (after c (Cache.put dec c key value size now)) now
  unfolding Cache.put
  put-IsSound c key value (negsuc n) before now h s = (s.0, wait-IsOrdered c before now h s.1)
  put-IsSound c key value (pos size) before now h s = elim (Bool-cases (refuses dec c size)) [
    | inl no_room ↦ rw (no_room, Cache.put) (s.0, wait-IsOrdered c before now h s.1)
    | inr room ↦
        let st =
          put-Stores dec c key value size now s.0 (ground arith) (ground arith) (ground arith) in
        rw st.runs (
          Stores-IsValid dec c key value size now st (ground arith),
          put-IsOrdered dec c key value size before now h s.0 s.1 st,
        )
  ]

  step-IsSound :
      (c : Cache K V) (call : Call K V) (before now : ℕ)
      → before ≤ now
      → IsSound c before
      → IsSound (step c (now, call)) now
  unfolding step clear
  step-IsSound c (gets key) before now h s =
      (get-IsValid dec c key now s.0, get-IsOrdered dec c key before now h s.0 s.1)
  step-IsSound c (puts key value size) before now h s = put-IsSound c key value size before now h s
  step-IsSound c prunes before now h s =
      let (d, n, run, dropped, split, count) = prune_lem c now s.0 in
      (
        prune-IsValid c now s.0,
        rw (run, step) (tail-IsOrdered c before now dropped d (sizes d) h split s.1),
      )
  step-IsSound c clears before now h s = (clear-IsValid c, record { sorted = tt; bounded = tt })

  run-IsSound :
      (calls : List (ℕ × Call K V)) (c : Cache K V) (now : ℕ)
      → Rising now calls
      → IsSound c now
      → IsSound (run c calls) (last_time now calls)
  unfolding run
  run-IsSound [] c now h s = s
  run-IsSound ((t, call) ∷ calls) c now h s =
      run-IsSound calls (step c (t, call)) t h.1 (step-IsSound c call now t h.0 s)

  -- After any history of get, put, prune and clear on a new cache, at times that do not go back: the total is the exact sum of the sizes, no limit is
  -- exceeded, no key stands twice, and the deadlines rise from the oldest entry to the newest.
  pub run-init-IsSound :
      (max_entries max_bytes max_item_bytes max_idle_seconds : ℤ) (start : ℕ)
      (calls : List (ℕ × Call K V)) {c : Cache K V}
      → init max_entries max_bytes max_item_bytes max_idle_seconds ≡ ok c
      → Rising start calls
      → IsSound (run c calls) (last_time start calls)
  run-init-IsSound a b i t start calls {c} h r =
      let (v, none_yet) = init-IsValid a b i t h in
      run-IsSound calls c start r (v, record { sorted = rw none_yet tt; bounded = rw none_yet tt })
