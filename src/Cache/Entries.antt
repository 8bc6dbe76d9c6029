-- ===== src/Cache/Entries.antt =====
-- The `OrderedDict` of the cache, as the list of its items, oldest first.
use wyoming_vietnamese.Common.{
  Option-cases, length, All, All-append, ℕ, suc, ◌+◌, ◌≡◌, refl, sym, subst, ◌≢◌, ◌⊎◌, inl, inr,
  ite, Option, none, some, List, [], ◌∷◌, ◌++◌, arith,
}
use mathlib.Core.Option

-- `_CacheEntry`
pub record Entry {ℓ} (V : Type ℓ) : Type ℓ where
  pub value : V
  pub size_bytes : ℕ
  pub expires_at : Option ℕ

module _ {ℓ} {K V : Type ℓ} (dec : Discrete K) where
  -- `d.pop(key, None)`: the entry, and the items without it.
  unfoldable pub pop : K → List (K × Entry V) → Option (Entry V × List (K × Entry V))
  pop key [] = none
  pop key ((k, e) ∷ d) =
      ite (dec k key) (some (e, d))
        (elim (pop key d) [ none ↦ none | some (e', rest) ↦ some (e', (k, e) ∷ rest) ])

  -- `d[key] = e`: an old key keeps its place, a new one goes to the end.
  unfoldable pub assign : K → Entry V → List (K × Entry V) → List (K × Entry V)
  assign key e [] = (key, e) ∷ []
  assign key e ((k, e') ∷ d) = ite (dec k key) ((k, e) ∷ d) ((k, e') ∷ assign key e d)

  -- `d[key]`, read only.
  unfoldable pub lookup : K → List (K × Entry V) → Option (Entry V)
  lookup key [] = none
  lookup key ((k, e) ∷ d) = ite (dec k key) (some e) (lookup key d)

-- The key is not among the items, and no key stands twice.
abbrev pub Absent {ℓ} : {K V : Type ℓ} → K → List (K × Entry V) → Type ℓ
Absent key = All (λ i. i.0 ≢ key)

abbrev pub Distinct {ℓ} : {K V : Type ℓ} → List (K × Entry V) → Type ℓ
Distinct [] = Unit
Distinct ((k, e) ∷ d) = Absent k d × Distinct d

abbrev pub sizes {ℓ} : {K V : Type ℓ} → List (K × Entry V) → ℕ
sizes [] = 0
sizes ((k, e) ∷ d) = e.size_bytes + sizes d

module _ {ℓ} {K V : Type ℓ} (dec : Discrete K) where
  -- A new key goes to the end.
  pub assign-Absent :
      (key : K) (e : Entry V) (d : List (K × Entry V))
      → Absent key d
      → assign dec key e d ≡ d ++ (key, e) ∷ []
  unfolding assign
  assign-Absent key e [] h = refl
  assign-Absent key e ((k, e') ∷ d) h = ground (arith, assign-Absent key e d h.1)

  pub pop-Absent : (key : K) (d : List (K × Entry V)) → pop dec key d ≡ none → Absent key d
  unfolding pop
  pop-Absent key [] h = tt
  pop-Absent key ((k, e) ∷ d) h = ground (arith, pop-Absent key d)

  -- `pop` splits the items at the key.
  pub pop_cons :
      (key k : K) (e e' : Entry V) (d rest : List (K × Entry V))
      → pop dec key ((k, e') ∷ d) ≡ some (e, rest)
      → ((k ≡ key) × (e' ≡ e) × (d ≡ rest))
        ⊎ ((r : List (K × Entry V)) × (k ≢ key)
            × (pop dec key d ≡ some (e, r))
            × (rest ≡ (k, e') ∷ r))
  unfolding pop
  pop_cons key k e e' d rest h = elim (dec k key) [
    | yes p ↦ inl (p, ground arith, ground arith)
    | no p ↦ elim (Option-cases (pop dec key d)) [
      | inl n ↦ absurd (ground arith)
      | inr ((e2, r), q) ↦ inr (r, p, ground arith, ground arith)
    ]
  ]

  pub pop-All {κ} :
      (P : K × Entry V → Type κ) (key : K) (d rest : List (K × Entry V)) (e : Entry V)
      → pop dec key d ≡ some (e, rest)
      → All P d
      → All P rest × P (key, e)
  unfolding pop
  pop-All P key [] rest e h a = cc
  pop-All P key ((k, e') ∷ d) rest e h a = elim (pop_cons key k e e' d rest h) [
    | inl (same, e=, d=) ↦ (subst (All P) d= a.1, rw (← same, ← e=) a.0)
    | inr (r, k≢, q, r=) ↦ let (x, y) = pop-All P key d r e q a.1 in (rw r= (a.0, x), y)
  ]

  pub pop-Distinct :
      (key : K) (d rest : List (K × Entry V)) (e : Entry V)
      → pop dec key d ≡ some (e, rest)
      → Distinct d
      → Distinct rest × Absent key rest
  unfolding pop
  pop-Distinct key [] rest e h a = cc
  pop-Distinct key ((k, e') ∷ d) rest e h a = elim (pop_cons key k e e' d rest h) [
    | inl (same, e=, d=) ↦ rw (← d=, ← same) (a.1, a.0)
    | inr (r, k≢, q, r=) ↦
        let (x, y) = pop-Distinct key d r e q a.1 in
        rw r= (((pop-All (λ i. i.0 ≢ k) key d r e q a.0).0, x), (k≢, y))
  ]

  pub pop-sizes :
      (key : K) (d rest : List (K × Entry V)) (e : Entry V)
      → pop dec key d ≡ some (e, rest)
      → sizes d ≡ e.size_bytes + sizes rest
  unfolding pop
  pop-sizes key [] rest e h = cc
  pop-sizes key ((k, e') ∷ d) rest e h = elim (pop_cons key k e e' d rest h) [
    | inl (same, e=, d=) ↦ rw (e=, d=)
    | inr (r, k≢, q, r=) ↦ rw r= (omega (arith, pop-sizes key d r e q))
  ]

  pub length-pop :
      (key : K) (d rest : List (K × Entry V)) (e : Entry V)
      → pop dec key d ≡ some (e, rest)
      → length d ≡ suc (length rest)
  unfolding pop
  length-pop key [] rest e h = cc
  length-pop key ((k, e') ∷ d) rest e h = elim (pop_cons key k e e' d rest h) [
    | inl (same, e=, d=) ↦ rw d=
    | inr (r, k≢, q, r=) ↦ rw r= (omega (arith, length-pop key d r e q))
  ]

  -- A pop hits exactly where a lookup does, and every other key keeps its entry.
  pub pop-lookup :
      (key : K) (d : List (K × Entry V)) → Option.map (λ r. r.0) (pop dec key d) ≡ lookup dec key d
  unfolding pop lookup
  pop-lookup key [] = refl
  pop-lookup key ((k, e) ∷ d) = ground (arith, pop-lookup key d)

  pub lookup-pop_ne :
      (key j : K) (d rest : List (K × Entry V)) (e : Entry V)
      → j ≢ key
      → pop dec key d ≡ some (e, rest)
      → lookup dec j rest ≡ lookup dec j d
  unfolding pop lookup
  lookup-pop_ne key j [] rest e n h = cc
  lookup-pop_ne key j ((k, e') ∷ d) rest e n h = elim (pop_cons key k e e' d rest h) [
    | inl (same, e=, d=) ↦ ground arith
    | inr (r, k≢, q, r=) ↦ rw r= (ground (arith, lookup-pop_ne key j d r e n q))
  ]

  pub lookup-append_self :
      (d : List (K × Entry V)) (key : K) (e : Entry V)
      → Absent key d
      → lookup dec key (d ++ (key, e) ∷ []) ≡ some e
  unfolding lookup
  lookup-append_self [] key e a = ground arith
  lookup-append_self ((k, e') ∷ d) key e a = ground (arith, lookup-append_self d key e a.1)

  pub lookup-append_ne :
      (d : List (K × Entry V)) (key j : K) (e : Entry V)
      → j ≢ key
      → lookup dec j (d ++ (key, e) ∷ []) ≡ lookup dec j d
  unfolding lookup
  lookup-append_ne [] key j e n = ground arith
  lookup-append_ne ((k, e') ∷ d) key j e n = ground (arith, lookup-append_ne d key j e n)

module _ {ℓ} {K V : Type ℓ} where
  -- The end of a list of items.
  pub Distinct-append :
      (d : List (K × Entry V)) (key : K) (e : Entry V)
      → Distinct d
      → Absent key d
      → Distinct (d ++ (key, e) ∷ [])
  Distinct-append [] key e h a = (tt, tt)
  Distinct-append ((k, e') ∷ d) key e h a = (
    All-append (λ i. i.0 ≢ k) d ((key, e) ∷ []) h.0 ((λ q. a.0 (sym q)), tt),
    Distinct-append d key e h.1 a.1,
  )

  pub sizes-append : (d d' : List (K × Entry V)) → sizes (d ++ d') ≡ sizes d + sizes d'
  sizes-append [] d' = omega arith
  sizes-append ((k, e) ∷ d) d' = omega (arith, sizes-append d d')

  pub Distinct-tail : (d d' : List (K × Entry V)) → Distinct (d ++ d') → Distinct d'
  Distinct-tail [] d' h = h
  Distinct-tail (i ∷ d) d' h = Distinct-tail d d' h.1

  pub All-tail {κ} :
      (P : K × Entry V → Type κ) (d d' : List (K × Entry V)) → All P (d ++ d') → All P d'
  All-tail P [] d' h = h
  All-tail P (i ∷ d) d' h = All-tail P d d' h.1
