-- ===== src/Cache.antt =====
-- `BoundedLruCache` of wyoming_vietnamese/cache.py. The lock makes each method atomic. An
-- `OrderedDict` is the list of its items, oldest first. Times are whole ticks of the monotonic clock:
-- the reading that a method takes is its argument `now`. `none` as a deadline is `float("inf")`.
-- Byte counts stay exact on ℕ, since `total_bytes` is the sum of the sizes (Cache/Accounting).
pub mod Entries
pub mod Accounting
pub mod Eviction
pub mod Lookup
pub mod Expiry
pub mod RoundTrip
pub mod History
mod Examples
use wyoming_vietnamese.Common.{
  ltb, ◌==◌, if◌then◌else◌, length, ℤ, is_negative, to_nat, pos, negsuc, Result, ◌>>=◌, ◌>>◌,
  raise_if, value_error, key_error, ok, raise, ℕ, ◌+◌, ◌-◌, Bool, true, false, not, ◌&&◌, ◌||◌,
  Option, none, some, List, [], ◌∷◌,
}
use Entries.{Entry, pop, assign}

pub record Cache {ℓ} (K V : Type ℓ) : Type ℓ where
  pub max_entries : ℕ
  pub max_bytes : ℕ
  pub max_item_bytes : ℕ
  pub max_idle_seconds : ℕ
  pub entries : List (K × Entry V)
  pub total_bytes : ℕ

-- The test `entry.expires_at > current_time`.
abbrev pub is_live : ℕ → Option ℕ → Bool
is_live now none = true
is_live now (some t) = ltb now t

module _ {ℓ} {K V : Type ℓ} where
  -- `__init__`
  unfoldable pub init : ℤ → ℤ → ℤ → ℤ → Result (Cache K V)
  init max_entries max_bytes max_item_bytes max_idle_seconds = do
    raise_if (is_negative max_entries || (is_negative max_bytes || is_negative max_item_bytes))
        value_error
    raise_if (is_negative max_idle_seconds) value_error
    ok (record {
      max_entries = to_nat max_entries;
      max_bytes = to_nat max_bytes;
      max_item_bytes = to_nat max_item_bytes;
      max_idle_seconds = to_nat max_idle_seconds;
      entries = [];
      total_bytes = 0;
    })

  -- `enabled`
  abbrev pub enabled : Cache K V → Bool
  enabled c = not (c.max_entries == 0) && (not (c.max_bytes == 0) && not (c.max_item_bytes == 0))

  -- `_expires_at`
  abbrev pub expires_at : Cache K V → ℕ → Option ℕ
  expires_at c now = if c.max_idle_seconds == 0 then none else some (now + c.max_idle_seconds)

  abbrev pub is_empty : List (K × Entry V) → Bool
  is_empty [] = true
  is_empty (i ∷ entries) = false

  -- The loop of `prune`: the entries left, the bytes left, and how many were removed.
  unfoldable pub prune_loop : ℕ → List (K × Entry V) → ℕ → ℕ → List (K × Entry V) × ℕ × ℕ
  prune_loop now [] total removed = ([], total, removed)
  prune_loop now ((k, e) ∷ entries) total removed =
      let rest = prune_loop now entries (total - e.size_bytes) (removed + 1) in
      if is_live now e.expires_at then ((k, e) ∷ entries, total, removed) else rest

  -- `prune`: the cache afterwards, and how many values were discarded.
  unfoldable pub prune : Cache K V → ℕ → Cache K V × ℕ
  prune c now =
      if is_empty c.entries || c.max_idle_seconds == 0
      then (c, 0)
      else let (entries, total, removed) = prune_loop now c.entries c.total_bytes 0 in
        (record c { entries = entries; total_bytes = total }, removed)

  -- `clear`
  unfoldable pub clear : Cache K V → Cache K V × ℕ × ℕ
  clear c = (record c { entries = []; total_bytes = 0 }, length c.entries, c.total_bytes)

  -- `__len__`
  unfoldable pub len : Cache K V → ℕ → Cache K V × ℕ
  len c now = let c' = (prune c now).0 in (c', length c'.entries)

  -- The loop that ends `put`: `popitem(last=False)` while a limit is exceeded.
  unfoldable pub evict : ℕ → ℕ → List (K × Entry V) → ℕ → Result (List (K × Entry V) × ℕ)
  evict max_entries max_bytes [] total =
      if ltb max_entries 0 || ltb max_bytes total then raise key_error else ok ([], total)
  evict max_entries max_bytes ((k, e) ∷ entries) total =
      let rest = evict max_entries max_bytes entries (total - e.size_bytes) in
      if ltb max_entries (length ((k, e) ∷ entries)) || ltb max_bytes total
      then rest
      else ok ((k, e) ∷ entries, total)

  -- The accounting of `previous`.
  abbrev pub forget :
      Option (Entry V × List (K × Entry V)) → List (K × Entry V) → ℕ → List (K × Entry V) × ℕ
  forget none entries total = (entries, total)
  forget (some (e, rest)) entries total = (rest, total - e.size_bytes)

module _ {ℓ} {K V : Type ℓ} (dec : Discrete K) where
  -- `get`: the cache afterwards, and the value on a hit.
  unfoldable pub get : Cache K V → K → ℕ → Cache K V × Option V
  get c key now =
      if not (enabled c)
      then (c, none)
      else let c' = (prune c now).0 in
        elim (pop dec key c'.entries) [
          | none ↦ (c', none)
          | some (e, rest) ↦ (
            record c' {
              entries = assign dec key (record e { expires_at = expires_at c now }) rest;
            },
            some e.value,
          )
        ]

  -- `put`: the cache afterwards, and whether the value was stored.
  unfoldable pub put : Cache K V → K → V → ℤ → ℕ → Result (Cache K V × Bool)
  put c key value (negsuc n) now = raise value_error
  put c key value (pos size) now =
      if not (enabled c) || (ltb c.max_item_bytes size || ltb c.max_bytes size)
      then ok (c, false)
      else let c' = (prune c now).0 in
        let (rest, total) = forget (pop dec key c'.entries) c'.entries c'.total_bytes in
        let e : Entry V = record {
          value = value;
          size_bytes = size;
          expires_at = expires_at c now;
        } in
        do
          (entries, total') ← evict c.max_entries c.max_bytes (assign dec key e rest) (total + size)
          ok (record c' { entries = entries; total_bytes = total' }, true)
