-- ===== src/Cache/Expiry.antt =====
-- The deadlines of `BoundedLruCache` rise from the oldest entry to the newest as long as the clock
-- does not go back, so that the loop of `prune` may stop at the first live entry.
use wyoming_vietnamese.Common.{
  ◌==◌, Bool-cases, Option-cases, All, All-append, All-mono, ℕ, ◌≤◌, ◌<◌, ◌≡◌, refl, subst, ◌⊎◌,
  inl, inr, true, false, Option, none, some, List, [], ◌∷◌, ◌++◌, arith,
}
use wyoming_vietnamese.Cache.Entries.{
  Entry, pop, pop-All, pop_cons, assign-Absent, pop-Distinct, All-tail, sizes,
}
use wyoming_vietnamese.Cache.{Cache, enabled, expires_at, is_live, is_empty, prune, get, forget}
use wyoming_vietnamese.Cache.Eviction.{Prunes, prune_loop_lem}
use wyoming_vietnamese.Cache.Accounting.{IsValid, IsValid-tail, prune_lem}
use wyoming_vietnamese.Cache.Lookup.{new_entry, without, Stores}

-- The order of deadlines; `none` is infinity.
abbrev pub Before : Option ℕ → Option ℕ → Type 0
Before t none = Unit
Before none (some u) = ⊥
Before (some t) (some u) = t ≤ u

Before-trans : (t u v : Option ℕ) → Before t u → Before u v → Before t v
Before-trans t u none h k = tt
Before-trans t none (some w) h k = absurd k
Before-trans none (some u) (some w) h k = absurd h
Before-trans (some t) (some u) (some w) h k = omega arith

is_live_mono : (now : ℕ) (t u : Option ℕ) → Before t u → is_live now t ≡ true → is_live now u ≡ true
is_live_mono now t none h k = refl
is_live_mono now none (some u) h k = absurd h
is_live_mono now (some t) (some u) h k = ground arith

module _ {ℓ} {K V : Type ℓ} where
  abbrev pub Sorted : List (K × Entry V) → Type 0
  Sorted [] = Unit
  Sorted (i ∷ d) = All (λ j. Before i.1.expires_at j.1.expires_at) d × Sorted d

  -- At `now`: deadlines rise along the entries, and none lies beyond what a new entry would get.
  pub record IsOrdered (c : Cache K V) (now : ℕ) : Type 0 where
    pub sorted : Sorted c.entries
    pub bounded : All (λ i. Before i.1.expires_at (expires_at c now)) c.entries

  Sorted-tail : (d d' : List (K × Entry V)) → Sorted (d ++ d') → Sorted d'
  Sorted-tail [] d' h = h
  Sorted-tail (i ∷ d) d' h = Sorted-tail d d' h.1

  Sorted-append :
      (d : List (K × Entry V)) (i : K × Entry V)
      → Sorted d
      → All (λ j. Before j.1.expires_at i.1.expires_at) d
      → Sorted (d ++ i ∷ [])
  Sorted-append [] i h b = (tt, tt)
  Sorted-append (j ∷ d) i h b = (
    All-append (λ k. Before j.1.expires_at k.1.expires_at) d (i ∷ []) h.0 (b.0, tt),
    Sorted-append d i h.1 b.1,
  )

  Prunes-live :
      (now : ℕ) (d d' : List (K × Entry V))
      → Sorted d
      → Prunes now d d'
      → All (λ i. is_live now i.1.expires_at ≡ true) d'
  Prunes-live now d d' h p = live_end d' (Sorted-tail p.dropped d' (subst Sorted p.split h)) p.stops
    where
      live_end :
          (d' : List (K × Entry V))
          → Sorted d'
          → ((d' ≡ [])
              ⊎ ((i : K × Entry V) × (r : List (K × Entry V)) × (d' ≡ i ∷ r)
                  × (is_live now i.1.expires_at ≡ true)))
          → All (λ i. is_live now i.1.expires_at ≡ true) d'
      live_end [] s e = tt
      live_end (j ∷ r) s (inl e) = cc
      live_end (j ∷ r) s (inr (i, r', e, live)) =
          let first : is_live now j.1.expires_at ≡ true = ground arith in
          (
            first,
            All-mono (λ k. Before j.1.expires_at k.1.expires_at) _ r
                (λ k b. is_live_mono now j.1.expires_at k.1.expires_at b first) s.0,
          )

  expires_at_mono :
      (c : Cache K V) (now later : ℕ) → now ≤ later → Before (expires_at c now) (expires_at c later)
  expires_at_mono c now later h = elim (Bool-cases (c.max_idle_seconds == 0)) [
    | inl e ↦ rw e tt
    | inr e ↦ rw e (omega arith)
  ]

  -- On a valid cache whose deadlines rise, with an idle limit, no entry that `prune` leaves has
  -- expired: stopping at the first live entry misses none.
  pub prune-live :
      (c : Cache K V) (now : ℕ)
      → IsValid c
      → Sorted c.entries
      → 0 < c.max_idle_seconds
      → All (λ i. is_live now i.1.expires_at ≡ true) (prune c now).0.entries
  unfolding prune
  prune-live c now v s idle = elim (Bool-cases (is_empty c.entries)) [
    | inl e ↦ rw (e, prune) (none_left c.entries e)
    | inr e ↦
        let (d, n, run, p, count) = prune_loop_lem now c.entries c.total_bytes 0 v.counted in
        rw (e, not_zero c.max_idle_seconds idle, prune, run) (Prunes-live now c.entries d s p)
  ]
    where
      none_left :
          (d : List (K × Entry V))
          → is_empty d ≡ true
          → All (λ i. is_live now i.1.expires_at ≡ true) d
      none_left [] e = tt
      none_left (i ∷ d) e = cc

      not_zero : (n : ℕ) → 0 < n → (n == 0) ≡ false
      not_zero n h = ground arith

  pub later-bounded :
      (c : Cache K V) (d : List (K × Entry V)) (before now : ℕ)
      → before ≤ now
      → All (λ i. Before i.1.expires_at (expires_at c before)) d
      → All (λ i. Before i.1.expires_at (expires_at c now)) d
  later-bounded c d before now h =
      All-mono (λ i. Before i.1.expires_at (expires_at c before)) _ d
        (λ i b.
          Before-trans i.1.expires_at (expires_at c before) (expires_at c now) b
            (expires_at_mono c before now h))

  -- At a later time an end of the entries is in order too.
  pub tail-IsOrdered :
      (c : Cache K V) (before now : ℕ) (dropped d : List (K × Entry V)) (total : ℕ)
      → before ≤ now
      → c.entries ≡ dropped ++ d
      → IsOrdered c before
      → IsOrdered (record c { entries = d; total_bytes = total }) now
  tail-IsOrdered c before now dropped d total h split o = record {
    sorted = Sorted-tail dropped d (subst Sorted split o.sorted);
    bounded = later-bounded c d before now h (
        All-tail (λ i. Before i.1.expires_at (expires_at c before)) dropped d
          (subst (All (λ i. Before i.1.expires_at (expires_at c before))) split o.bounded));
  }

  -- A new entry at the end keeps the order.
  append-IsOrdered :
      (c : Cache K V) (now : ℕ) (key : K) (e : Entry V) (d : List (K × Entry V)) (total : ℕ)
      → e.expires_at ≡ expires_at c now
      → Sorted d
      → All (λ i. Before i.1.expires_at (expires_at c now)) d
      → IsOrdered (record c { entries = d ++ (key, e) ∷ []; total_bytes = total }) now
  append-IsOrdered c now key e d total h s b = record {
    sorted = Sorted-append d (key, e) s (rw h b);
    bounded =
        All-append (λ i. Before i.1.expires_at (expires_at c now)) d ((key, e) ∷ []) b
          (rw h (Before-refl (expires_at c now)), tt);
  }
    where
      Before-refl : (t : Option ℕ) → Before t t
      Before-refl none = tt
      Before-refl (some t) = omega arith

module _ {ℓ} {K V : Type ℓ} (dec : Discrete K) where
  pop-Sorted :
      (key : K) (d rest : List (K × Entry V)) (e : Entry V)
      → pop dec key d ≡ some (e, rest)
      → Sorted d
      → Sorted rest
  unfolding pop
  pop-Sorted key [] rest e h s = cc
  pop-Sorted key ((k, e') ∷ d) rest e h s = elim (pop_cons dec key k e e' d rest h) [
    | inl (same, e=, d=) ↦ subst Sorted d= s.1
    | inr (r, k≢, q, r=) ↦ rw r= (
      (pop-All dec (λ j. Before e'.expires_at j.1.expires_at) key d r e q s.0).0,
      pop-Sorted key d r e q s.1,
    )
  ]

  -- A `get` at a time that is not before the last one keeps the deadlines in order.
  pub get-IsOrdered :
      (c : Cache K V) (key : K) (before now : ℕ)
      → before ≤ now
      → IsValid c
      → IsOrdered c before
      → IsOrdered (get dec c key now).0 now
  unfolding get
  get-IsOrdered c key before now h v o =
      let (d, n, run, dropped, split, count) = prune_lem c now v in
      let o' = tail-IsOrdered c before now dropped d (sizes d) h split o in
      let v' = IsValid-tail c dropped d split v in
      elim (Bool-cases (enabled c)) [
        | inr off ↦
            rw (off, get)
              (record {
                sorted = o.sorted;
                bounded = later-bounded c c.entries before now h o.bounded;
              })
        | inl on ↦ elim (Option-cases (pop dec key d)) [
          | inl miss ↦ rw (on, run, miss, run, get) o'
          | inr ((e, rest), hit) ↦
              let (distinct, absent) = pop-Distinct dec key d rest e hit v'.distinct in
              let e' : Entry V = record e { expires_at = expires_at c now } in
              rw (on, run, hit, run, assign-Absent dec key e' rest absent, get)
                (append-IsOrdered c now key e' rest (sizes d) refl
                  (pop-Sorted key d rest e hit o'.sorted)
                  (pop-All dec (λ i. Before i.1.expires_at (expires_at c now)) key d rest e hit
                    o'.bounded).0)
        ]
      ]

  forget_elim {κ} :
      (P : List (K × Entry V) → Type κ) (o : Option (Entry V × List (K × Entry V)))
      (d : List (K × Entry V)) (total : ℕ)
      → P d
      → ((e : Entry V) (rest : List (K × Entry V)) → o ≡ some (e, rest) → P rest)
      → P (forget o d total).0
  forget_elim P none d total p f = p
  forget_elim P (some (e, rest)) d total p f = f e rest refl

  without-Sorted : (key : K) (d : List (K × Entry V)) → Sorted d → Sorted (without dec key d)
  without-Sorted key d s =
      forget_elim Sorted (pop dec key d) d (sizes d) s (λ e rest hit. pop-Sorted key d rest e hit s)

  without-All {κ} :
      (P : K × Entry V → Type κ) (key : K) (d : List (K × Entry V))
      → All P d
      → All P (without dec key d)
  without-All P key d s =
      forget_elim (All P) (pop dec key d) d (sizes d) s
        (λ e rest hit. (pop-All dec P key d rest e hit s).0)

  -- So does a `put` that stores.
  pub put-IsOrdered :
      (c : Cache K V) (key : K) (value : V) (size before now : ℕ)
      → before ≤ now
      → IsValid c
      → IsOrdered c before
      → (s : Stores dec c key value size now)
      → IsOrdered (record c { entries = s.after; total_bytes = sizes s.after }) now
  put-IsOrdered c key value size before now h v o s =
      let (d, n, run, dropped, split, count) = prune_lem c now v in
      let o' = tail-IsOrdered c before now dropped d (sizes d) h split o in
      let is_rest : s.rest ≡ without dec key d = rw run at s.is_rest in
      let full =
        append-IsOrdered c now key (new_entry dec c value size now) s.rest 0 refl
          (rw is_rest (without-Sorted key d o'.sorted))
          (rw is_rest
            (without-All (λ i. Before i.1.expires_at (expires_at c now)) key d o'.bounded)) in
      tail-IsOrdered _ now now s.evicted.dropped s.after (sizes s.after) (omega arith)
        s.evicted.split full
