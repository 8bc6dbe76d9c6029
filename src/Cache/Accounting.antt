-- ===== src/Cache/Accounting.antt =====
-- The invariant of `BoundedLruCache`: exact accounting within every limit, no key twice.
use wyoming_vietnamese.Common.{
  ◌==◌, Bool-cases, length, All, length-append, ℤ, ok, ℕ, ◌+◌, ◌≤◌, ◌≡◌, refl, ap, subst, inl, inr,
  ◌||◌, List, [], ◌++◌, arith,
}
use wyoming_vietnamese.Cache.Entries.{Entry, Distinct, sizes, sizes-append, Distinct-tail, All-tail}
use wyoming_vietnamese.Cache.{Cache, init, prune, clear, is_empty}
use wyoming_vietnamese.Cache.Eviction.{prune_loop_lem}

pub record IsValid {ℓ} {K V : Type ℓ} (c : Cache K V) : Type ℓ where
  pub counted : c.total_bytes ≡ sizes c.entries
  pub few : length c.entries ≤ c.max_entries
  pub small : c.total_bytes ≤ c.max_bytes
  pub fit : All (λ i. i.1.size_bytes ≤ c.max_item_bytes) c.entries
  pub distinct : Distinct c.entries

module _ {ℓ} {K V : Type ℓ} where
  -- The limits are fixed for the life of the cache.
  abbrev pub SameLimits : Cache K V → Cache K V → Type 0
  SameLimits c c' =
      (c.max_entries ≡ c'.max_entries)
      × (c.max_bytes ≡ c'.max_bytes)
      × (c.max_item_bytes ≡ c'.max_item_bytes)
      × (c.max_idle_seconds ≡ c'.max_idle_seconds)

  pub init-IsValid :
      (a b i t : ℤ) {c : Cache K V} → init a b i t ≡ ok c → IsValid c × (c.entries ≡ [])
  unfolding init
  init-IsValid a b i t h = ground arith

  -- An end of the entries, with its own total, is as valid.
  pub IsValid-tail :
      (c : Cache K V) (dropped d : List (K × Entry V))
      → c.entries ≡ dropped ++ d
      → IsValid c
      → IsValid (record c { entries = d; total_bytes = sizes d })
  IsValid-tail c dropped d h v = record {
    counted = refl;
    few = omega (arith, ap length h, length-append dropped d, v.few);
    small = omega (arith, ap sizes h, sizes-append dropped d, v.small, v.counted);
    fit =
        All-tail (λ i. i.1.size_bytes ≤ c.max_item_bytes) dropped d
          (subst (All (λ i. i.1.size_bytes ≤ c.max_item_bytes)) h v.fit);
    distinct = Distinct-tail dropped d (subst Distinct h v.distinct);
  }

  -- `prune` removes entries from the front up to the first live one, and reports how many.
  pub prune_lem :
      (c : Cache K V) (now : ℕ)
      → IsValid c
      → (d : List (K × Entry V)) × (n : ℕ) × (prune c now
          ≡ (record c { entries = d; total_bytes = sizes d }, n))
        × (dropped : List (K × Entry V)) × (c.entries ≡ dropped ++ d)
        × (length c.entries ≡ n + length d)
  unfolding prune
  prune_lem c now v = elim (Bool-cases (is_empty c.entries || c.max_idle_seconds == 0)) [
    | inl e ↦ (c.entries, 0, rw e (ground (arith, v.counted)), [], refl, omega arith)
    | inr e ↦
        let (d, n, run, p, count) = prune_loop_lem now c.entries c.total_bytes 0 v.counted in
        (d, n, rw (e, run), p.dropped, p.split, omega arith)
  ]

  pub prune-IsValid : (c : Cache K V) (now : ℕ) → IsValid c → IsValid (prune c now).0
  prune-IsValid c now v =
      let (d, n, run, dropped, split, count) = prune_lem c now v in
      rw run (IsValid-tail c dropped d split v)

  pub clear-IsValid : (c : Cache K V) → IsValid (clear c).0
  unfolding clear
  clear-IsValid c = ground arith
