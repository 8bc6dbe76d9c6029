-- ===== src/Cache/Lookup.antt =====
-- What `get` and `put` compute, and what a later `get` reads.
use wyoming_vietnamese.Common.{
  ltb, not_ltb_of_le, Bool-cases, Option-cases, length, All, length-append, All-append, pos, ok, ℕ,
  ◌+◌, ◌≤◌, ◌≡◌, refl, sym, ap, subst, ◌≢◌, inl, inr, Bool, true, false, not, ◌||◌, Option, some,
  List, [], ◌∷◌, ◌++◌, arith,
}
use wyoming_vietnamese.Cache.Entries.{
  Entry, pop, assign, lookup, Absent, Distinct, sizes, assign-Absent, pop-Absent, pop-All,
  pop-Distinct, pop-sizes, length-pop, Distinct-append, sizes-append, Distinct-tail, All-tail,
  lookup-append_self, lookup-pop_ne,
}
use wyoming_vietnamese.Cache.{Cache, enabled, expires_at, prune, get, put, forget}
use wyoming_vietnamese.Cache.Eviction.{evict_lem, LongestFit}
use wyoming_vietnamese.Cache.Accounting.{IsValid, prune_lem, IsValid-tail, prune-IsValid}

module _ {ℓ} {K V : Type ℓ} (dec : Discrete K) where
  abbrev pub new_entry : Cache K V → V → ℕ → ℕ → Entry V
  new_entry c value size now = record {
    value = value;
    size_bytes = size;
    expires_at = expires_at c now;
  }

  -- Moving an entry to the end, with a new deadline, keeps the cache valid.
  refresh-IsValid :
      (c : Cache K V) (key : K) (e : Entry V) (rest : List (K × Entry V)) (t : Option ℕ)
      → pop dec key c.entries ≡ some (e, rest)
      → IsValid c
      → IsValid (record c { entries = assign dec key (record e { expires_at = t }) rest })
  refresh-IsValid c key e rest t h v =
      let (distinct, absent) = pop-Distinct dec key c.entries rest e h v.distinct in
      let (fit, fit_e) =
        pop-All dec (λ i. i.1.size_bytes ≤ c.max_item_bytes) key c.entries rest e h v.fit in
      rw (assign-Absent dec key (record e { expires_at = t }) rest absent) (record {
        counted = omega (
          arith,
          v.counted,
          pop-sizes dec key c.entries rest e h,
          sizes-append rest ((key, record e { expires_at = t }) ∷ []),
        );
        few = omega (
          arith,
          v.few,
          length-pop dec key c.entries rest e h,
          length-append rest ((key, record e { expires_at = t }) ∷ []),
        );
        small = v.small;
        fit = All-append (λ i. i.1.size_bytes ≤ c.max_item_bytes) rest _ fit (fit_e, tt);
        distinct = Distinct-append rest key (record e { expires_at = t }) distinct absent;
      })

  pub get-IsValid : (c : Cache K V) (key : K) (now : ℕ) → IsValid c → IsValid (get dec c key now).0
  unfolding get
  get-IsValid c key now v = elim (Bool-cases (enabled c)) [
    | inr off ↦ rw (off, get) v
    | inl on ↦ elim (Option-cases (pop dec key (prune c now).0.entries)) [
      | inl miss ↦ rw (on, miss, get) (prune-IsValid c now v)
      | inr ((e, rest), hit) ↦
          rw (on, hit, get)
            (refresh-IsValid (prune c now).0 key e rest (expires_at c now) hit
              (prune-IsValid c now v))
    ]
  ]

  -- The entries without the key, and their total.
  forget_lem {κ} :
      (P : K × Entry V → Type κ) (key : K) (d : List (K × Entry V))
      → Distinct d
      → All P d
      → (rest : List (K × Entry V)) × (forget (pop dec key d) d (sizes d) ≡ (rest, sizes rest))
        × Absent key rest
        × Distinct rest
        × All P rest
        × ((j : K) → j ≢ key → lookup dec j rest ≡ lookup dec j d)
  forget_lem P key d h a = elim (Option-cases (pop dec key d)) [
    | inl miss ↦ (d, rw miss, pop-Absent dec key d miss, h, a, λ j n. refl)
    | inr ((e, rest), hit) ↦
        let (distinct, absent) = pop-Distinct dec key d rest e hit h in
        (
          rest,
          rw hit (ground (arith, pop-sizes dec key d rest e hit)),
          absent,
          distinct,
          (pop-All dec P key d rest e hit a).0,
          λ j n. lookup-pop_ne dec key j d rest e n hit,
        )
  ]

  -- The entries that stay when the key is popped.
  abbrev pub without : K → List (K × Entry V) → List (K × Entry V)
  without key d = (forget (pop dec key d) d (sizes d)).0

  -- What a `put` that stores has done: the key leaves the live entries and comes back at the end,
  -- and then entries go from the front until the limits hold.
  pub record Stores (c : Cache K V) (key : K) (value : V) (size now : ℕ) : Type ℓ where
    pub rest : List (K × Entry V)
    pub after : List (K × Entry V)
    pub absent : Absent key rest
    pub distinct : Distinct rest
    pub fit : All (λ i. i.1.size_bytes ≤ c.max_item_bytes) rest
    pub others : (j : K) → j ≢ key → lookup dec j rest ≡ lookup dec j (prune c now).0.entries
    pub is_rest : rest ≡ without key (prune c now).0.entries
    pub runs :
        put dec c key value (pos size) now
        ≡ ok (record c { entries = after; total_bytes = sizes after }, true)
    pub evicted :
        LongestFit c.max_entries c.max_bytes (rest ++ (key, new_entry c value size now) ∷ []) after

  pub put-Stores :
      (c : Cache K V) (key : K) (value : V) (size now : ℕ)
      → IsValid c
      → enabled c ≡ true
      → size ≤ c.max_item_bytes
      → size ≤ c.max_bytes
      → Stores c key value size now
  unfolding put
  put-Stores c key value size now v on item all =
      let (d, n, run, dropped, split, count) = prune_lem c now v in
      let v' = IsValid-tail c dropped d split v in
      let (rest, forgets, absent, distinct, fit, others) =
        forget_lem (λ i. i.1.size_bytes ≤ c.max_item_bytes) key d v'.distinct v'.fit in
      let e = new_entry c value size now in
      let (after, evicts, longest) =
        evict_lem c.max_entries c.max_bytes (rest ++ (key, e) ∷ []) (sizes rest + size)
          (omega (arith, sizes-append rest ((key, e) ∷ []))) in
      record {
        rest = rest;
        after = after;
        absent = absent;
        distinct = distinct;
        fit = fit;
        others = rw run others;
        is_rest = rw run (sym (ap (λ (r : List (K × Entry V) × ℕ). r.0) forgets));
        runs = rw (
          on,
          not_ltb_of_le size c.max_item_bytes item,
          not_ltb_of_le size c.max_bytes all,
          run,
          forgets,
          assign-Absent dec key e rest absent,
          evicts,
        );
        evicted = longest;
      }

  -- A `put` whose result is known keeps the invariant.
  pub Stores-IsValid :
      (c : Cache K V) (key : K) (value : V) (size now : ℕ) (s : Stores c key value size now)
      → size ≤ c.max_item_bytes
      → IsValid (record c { entries = s.after; total_bytes = sizes s.after })
  Stores-IsValid c key value size now s item =
      let e = new_entry c value size now in
      let l = s.evicted in
      record {
        counted = refl;
        few = l.fits.0;
        small = l.fits.1;
        fit =
            All-tail (λ i. i.1.size_bytes ≤ c.max_item_bytes) l.dropped s.after
              (subst (All (λ i. i.1.size_bytes ≤ c.max_item_bytes)) l.split (
                All-append (λ i. i.1.size_bytes ≤ c.max_item_bytes) s.rest ((key, e) ∷ []) s.fit
                  (item, tt)));
        distinct =
            Distinct-tail l.dropped s.after
              (subst Distinct l.split (Distinct-append s.rest key e s.distinct s.absent));
      }

  -- The branch that `put` takes before it stores.
  abbrev pub refuses : Cache K V → ℕ → Bool
  refuses c size = not (enabled c) || (ltb c.max_item_bytes size || ltb c.max_bytes size)

  -- On a valid cache and a size that is not negative, `put` returns and keeps the cache valid: the
  -- total stays the exact sum of the sizes and within the limit, as do the number of entries and
  -- each size.
  pub put-IsValid :
      (c : Cache K V) (key : K) (value : V) (size now : ℕ)
      → IsValid c
      → (c' : Cache K V) × (stored : Bool) × (put dec c key value (pos size) now ≡ ok (c', stored))
        × IsValid c'
  unfolding put
  put-IsValid c key value size now v = elim (Bool-cases (refuses c size)) [
    | inl no_room ↦ (c, false, refused no_room, v)
    | inr room ↦
        let s = put-Stores c key value size now v (ground arith) (ground arith) (ground arith) in
        (
          record c { entries = s.after; total_bytes = sizes s.after },
          true,
          s.runs,
          Stores-IsValid c key value size now s (ground arith),
        )
  ]
    where
      refused : refuses c size ≡ true → put dec c key value (pos size) now ≡ ok (c, false)
      refused e = rw (e, put)

  end_has_last :
      (rest dropped after : List (K × Entry V)) (key : K) (e : Entry V)
      → rest ++ (key, e) ∷ [] ≡ dropped ++ after
      → 1 ≤ length after
      → Absent key rest
      → lookup dec key after ≡ some e
  end_has_last rest [] after key e h n a =
      subst (λ d. lookup dec key d ≡ some e) h (lookup-append_self dec rest key e a)
  end_has_last [] (i ∷ dropped) after key e h n a =
      absurd (omega (arith, ap length h, length-append dropped after))
  end_has_last (j ∷ rest) (i ∷ dropped) after key e h n a =
      end_has_last rest dropped after key e (ground arith) n a.1

  -- A value that `put` stores is what the next `get` returns, as long as it has not expired: the new
  -- entry is never the one that is evicted.
  pub lookup-put_self :
      (c : Cache K V) (key : K) (value : V) (size now : ℕ) (s : Stores c key value size now)
      → enabled c ≡ true
      → size ≤ c.max_bytes
      → lookup dec key s.after ≡ some (new_entry c value size now)
  lookup-put_self c key value size now s on fits =
      let e = new_entry c value size now in
      let l = s.evicted in
      end_has_last s.rest l.dropped s.after key e l.split
        (l.longest s.rest ((key, e) ∷ []) refl (ground arith)) s.absent
