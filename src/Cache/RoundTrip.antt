-- ===== src/Cache/RoundTrip.antt =====
-- A stored value is read back until its idle time is over, and a stored value displaces the others
-- only from the old end.
use wyoming_vietnamese.Common.{
  ◌==◌, Bool-cases, All, pos, ok, ℕ, ◌≤◌, ◌≡◌, subst, ◌∙◌, inl, inr, if_pos, if_neg, true, false,
  ◌||◌, Option, none, some, List, [], ◌∷◌, ◌++◌, arith,
}
use mathlib.Core.Option
use wyoming_vietnamese.Cache.Entries.{Entry, pop, lookup, pop-lookup, sizes}
use wyoming_vietnamese.Cache.{Cache, enabled, expires_at, is_live, is_empty, prune, get, put}
use wyoming_vietnamese.Cache.Eviction.{prune_loop_lem}
use wyoming_vietnamese.Cache.Accounting.{IsValid}
use wyoming_vietnamese.Cache.Lookup.{new_entry, put-Stores, Stores-IsValid, lookup-put_self}

module _ {ℓ} {K V : Type ℓ} (dec : Discrete K) where
  lookup_tail :
      (now : ℕ) (key : K) (e : Entry V) (dropped d : List (K × Entry V))
      → All (λ i. is_live now i.1.expires_at ≡ false) dropped
      → lookup dec key (dropped ++ d) ≡ some e
      → is_live now e.expires_at ≡ true
      → lookup dec key d ≡ some e
  unfolding lookup
  lookup_tail now key e [] d a h l = h
  lookup_tail now key e ((k, e') ∷ dropped) d a h l = elim (dec k key) [
    | yes p ↦ let same : some e' ≡ some e = rw (if_pos (dec k key) p) at h in absurd (ground arith)
    | no p ↦ lookup_tail now key e dropped d a.1 (rw (if_neg (dec k key) p) at h) l
  ]

  prune_keeps :
      (c : Cache K V) (key : K) (e : Entry V) (now : ℕ)
      → IsValid c
      → lookup dec key c.entries ≡ some e
      → is_live now e.expires_at ≡ true
      → lookup dec key (prune c now).0.entries ≡ some e
  unfolding prune
  prune_keeps c key e now v h l =
      elim (Bool-cases (is_empty c.entries || c.max_idle_seconds == 0)) [
        | inl s ↦ rw (s, prune) h
        | inr s ↦
            let (d, n, run, p, count) = prune_loop_lem now c.entries c.total_bytes 0 v.counted in
            rw (s, run, prune)
              (lookup_tail now key e p.dropped d p.stale
                (subst (λ d. lookup dec key d ≡ some e) p.split h) l)
      ]

  pop_of_lookup :
      (key : K) (d : List (K × Entry V)) (e : Entry V)
      → lookup dec key d ≡ some e
      → (rest : List (K × Entry V)) × (pop dec key d ≡ some (e, rest))
  pop_of_lookup key d e h = go (pop dec key d) (pop-lookup dec key d ∙ h)
    where
      go :
          (o : Option (Entry V × List (K × Entry V)))
          → Option.map (λ r. r.0) o ≡ some e
          → (rest : List (K × Entry V)) × (o ≡ some (e, rest))
      go none q = cc
      go (some (e', rest)) q = (rest, ground arith)

  -- A live entry is a hit.
  pub get_hit :
      (c : Cache K V) (key : K) (e : Entry V) (now : ℕ)
      → IsValid c
      → enabled c ≡ true
      → lookup dec key c.entries ≡ some e
      → is_live now e.expires_at ≡ true
      → (get dec c key now).1 ≡ some e.value
  unfolding get
  get_hit c key e now v on h l =
      let (rest, hit) =
        pop_of_lookup key (prune c now).0.entries e (prune_keeps c key e now v h l) in
      rw (on, hit, get)

  -- On a valid cache that is enabled, a value that fits is stored, and read back at any time until
  -- its deadline.
  pub get-put :
      (c : Cache K V) (key : K) (value : V) (size now later : ℕ)
      → IsValid c
      → enabled c ≡ true
      → size ≤ c.max_item_bytes
      → size ≤ c.max_bytes
      → is_live later (expires_at c now) ≡ true
      → (c' : Cache K V) × (put dec c key value (pos size) now ≡ ok (c', true))
        × ((get dec c' key later).1 ≡ some value)
  get-put c key value size now later v on item all live =
      let s = put-Stores dec c key value size now v on item all in
      let c' : Cache K V = record c { entries = s.after; total_bytes = sizes s.after } in
      (
        c',
        s.runs,
        get_hit c' key (new_entry dec c value size now) later
            (Stores-IsValid dec c key value size now s item) on
            (lookup-put_self dec c key value size now s on all) live,
      )
