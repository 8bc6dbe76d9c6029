-- ===== src/Cache/Eviction.antt =====
-- The two loops that drop entries from the front: `evict` at the end of `put`, and `prune`.
use wyoming_vietnamese.Common.{
  ltb, Bool-cases, length, All, length-append, ok, ℕ, suc, ◌+◌, ◌-◌, ◌≤◌, ◌≡◌, refl, sym, ap, subst,
  ◌⊎◌, inl, inr, true, false, ◌||◌, List, [], ◌∷◌, ◌++◌, arith,
}
use wyoming_vietnamese.Cache.Entries.{Entry, sizes}
use wyoming_vietnamese.Cache.{evict, prune_loop, is_live}

module _ {ℓ} {K V : Type ℓ} where
  abbrev pub Fits : ℕ → ℕ → List (K × Entry V) → Type 0
  Fits max_entries max_bytes d = (length d ≤ max_entries) × (sizes d ≤ max_bytes)

  -- `d'` is the longest end of `d` that fits both limits.
  pub record LongestFit (max_entries max_bytes : ℕ) (d d' : List (K × Entry V)) : Type ℓ where
    pub dropped : List (K × Entry V)
    pub split : d ≡ dropped ++ d'
    pub fits : Fits max_entries max_bytes d'
    pub longest :
        (a b : List (K × Entry V))
        → d ≡ a ++ b
        → Fits max_entries max_bytes b
        → length b ≤ length d'

  longest_step :
      (i : K × Entry V) (d d' a b : List (K × Entry V)) (max_entries max_bytes : ℕ)
      → ¬ Fits max_entries max_bytes (i ∷ d)
      → LongestFit max_entries max_bytes d d'
      → i ∷ d ≡ a ++ b
      → Fits max_entries max_bytes b
      → length b ≤ length d'
  longest_step i d d' [] b max_entries max_bytes n l h f =
      absurd (n (subst (Fits max_entries max_bytes) (sym h) f))
  longest_step i d d' (x ∷ a) b max_entries max_bytes n l h f = l.longest a b (ground arith) f

  length_end : (d a b : List (K × Entry V)) → d ≡ a ++ b → length b ≤ length d
  length_end d a b h = rw h (omega (arith, length-append a b))

  -- On a list whose sizes add up to the total, the loop never pops from an empty dictionary, and
  -- leaves the longest end that fits.
  pub evict_lem :
      (max_entries max_bytes : ℕ) (d : List (K × Entry V)) (total : ℕ)
      → total ≡ sizes d
      → (d' : List (K × Entry V)) × (evict max_entries max_bytes d total ≡ ok (d', sizes d'))
        × LongestFit max_entries max_bytes d d'
  unfolding evict
  evict_lem max_entries max_bytes [] total h = (
    [],
    ground arith,
    record {
      dropped = [];
      split = refl;
      fits = omega arith;
      longest = λ a b e f. length_end [] a b e;
    },
  )
  evict_lem max_entries max_bytes ((k, e) ∷ d) total h =
      elim (Bool-cases (ltb max_entries (suc (length d)) || ltb max_bytes total)) [
        | inl over ↦
            let (d', run, l) =
              evict_lem max_entries max_bytes d (total - e.size_bytes) (omega arith) in
            (
              d',
              rw over run,
              record {
                dropped = (k, e) ∷ l.dropped;
                split = ap (◌∷◌ (k, e)) l.split;
                fits = l.fits;
                longest = λ a b q f.
                    longest_step (k, e) d d' a b max_entries max_bytes (λ g. absurd (ground arith))
                      l q f;
              },
            )
        | inr under ↦ (
          (k, e) ∷ d,
          rw under (ground arith),
          record {
            dropped = [];
            split = refl;
            fits = ground arith;
            longest = λ a b q f. length_end ((k, e) ∷ d) a b q;
          },
        )
      ]

  -- What `prune` leaves: the entries from the first live one on.
  pub record Prunes (now : ℕ) (d d' : List (K × Entry V)) : Type ℓ where
    pub dropped : List (K × Entry V)
    pub split : d ≡ dropped ++ d'
    pub stale : All (λ i. is_live now i.1.expires_at ≡ false) dropped
    pub stops :
        (d' ≡ [])
        ⊎ ((i : K × Entry V) × (r : List (K × Entry V)) × (d' ≡ i ∷ r)
            × (is_live now i.1.expires_at ≡ true))

  pub prune_loop_lem :
      (now : ℕ) (d : List (K × Entry V)) (total removed : ℕ)
      → total ≡ sizes d
      → (d' : List (K × Entry V)) × (removed' : ℕ) × (prune_loop now d total removed
          ≡ (d', sizes d', removed'))
        × Prunes now d d'
        × (removed + length d ≡ removed' + length d')
  unfolding prune_loop
  prune_loop_lem now [] total removed h = (
    [],
    removed,
    ground arith,
    record { dropped = []; split = refl; stale = tt; stops = inl refl },
    refl,
  )
  prune_loop_lem now ((k, e) ∷ d) total removed h = elim (Bool-cases (is_live now e.expires_at)) [
    | inl live ↦ (
      (k, e) ∷ d,
      removed,
      rw live (ground arith),
      record { dropped = []; split = refl; stale = tt; stops = inr ((k, e), d, refl, live) },
      refl,
    )
    | inr dead ↦
        let (d', removed', run, p, count) =
          prune_loop_lem now d (total - e.size_bytes) (removed + 1) (omega arith) in
        (
          d',
          removed',
          rw dead run,
          record {
            dropped = (k, e) ∷ p.dropped;
            split = ap (◌∷◌ (k, e)) p.split;
            stale = (dead, p.stale);
            stops = p.stops;
          },
          omega arith,
        )
  ]
