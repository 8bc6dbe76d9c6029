-- ===== src/Clauses/Spaces.antt =====
-- Python's `lstrip`, `rstrip` and `strip`, and runs of characters of a class.
use wyoming_vietnamese.Common.{
  if◌then◌else◌, Bool-cases, length, take, drop, length-append, ℕ, suc, ◌-◌, ◌≤◌, ◌≡◌, refl, ap,
  ◌∙◌, inl, inr, Bool, false, List, [], ◌∷◌, ◌++◌, arith,
}

module _ (p : ℕ → Bool) where
  -- The longest front of characters of the class, and the rest.
  abbrev pub put_front : ℕ → List ℕ × List ℕ → List ℕ × List ℕ
  put_front c (run, rest) = (c ∷ run, rest)

  unfoldable pub span : List ℕ → List ℕ × List ℕ
  span [] = ([], [])
  span (c ∷ cs) = if p c then put_front c (span cs) else ([], c ∷ cs)

  unfoldable pub lstrip : List ℕ → List ℕ
  lstrip [] = []
  lstrip (c ∷ cs) = if p c then lstrip cs else c ∷ cs

  abbrev pub keep_unless : ℕ → List ℕ → List ℕ
  keep_unless c [] = if p c then [] else c ∷ []
  keep_unless c (d ∷ ds) = c ∷ d ∷ ds

  unfoldable pub rstrip : List ℕ → List ℕ
  rstrip [] = []
  rstrip (c ∷ cs) = keep_unless c (rstrip cs)

  abbrev pub strip : List ℕ → List ℕ
  strip cs = rstrip (lstrip cs)

  pub length-lstrip : (cs : List ℕ) → length (lstrip cs) ≤ length cs
  unfolding lstrip
  length-lstrip [] = omega arith
  length-lstrip (c ∷ cs) = ground (arith, length-lstrip cs)

  pub length-rstrip : (cs : List ℕ) → length (rstrip cs) ≤ length cs
  unfolding rstrip
  length-rstrip [] = omega arith
  length-rstrip (c ∷ cs) = kept c (rstrip cs) (length-rstrip cs)
    where
      kept :
          (c : ℕ) (r : List ℕ) → length r ≤ length cs → length (keep_unless c r) ≤ suc (length cs)
      kept c [] h = ground arith
      kept c (d ∷ ds) h = omega arith

  -- What `lstrip` and `rstrip` cut off.
  pub lstrip-suffix : (cs : List ℕ) → (front : List ℕ) × (front ++ lstrip cs ≡ cs)
  unfolding lstrip
  lstrip-suffix [] = ([], refl)
  lstrip-suffix (c ∷ cs) = elim (Bool-cases (p c)) [
    | inl e ↦ rw e (let (front, h) = lstrip-suffix cs in (c ∷ front, ap (◌∷◌ c) h))
    | inr e ↦ rw e ([], refl)
  ]

  keep_unless-append :
      (c : ℕ) (r cs : List ℕ)
      → r ++ drop (length r) cs ≡ cs
      → keep_unless c r ++ drop (length (keep_unless c r)) (c ∷ cs) ≡ c ∷ cs
  keep_unless-append c [] cs h = ground arith
  keep_unless-append c (d ∷ ds) cs h = ap (◌∷◌ c) h

  pub rstrip-append : (cs : List ℕ) → rstrip cs ++ drop (length (rstrip cs)) cs ≡ cs
  unfolding rstrip
  rstrip-append [] = refl
  rstrip-append (c ∷ cs) = keep_unless-append c (rstrip cs) cs (rstrip-append cs)

  -- A text that does not begin, or does not end, with a character of the class.
  abbrev pub Begins : List ℕ → Type 0
  Begins [] = Unit {0}
  Begins (c ∷ cs) = p c ≡ false

  pub lstrip-Begins : (cs : List ℕ) → Begins (lstrip cs)
  unfolding lstrip
  lstrip-Begins [] = tt
  lstrip-Begins (c ∷ cs) = elim (Bool-cases (p c)) [
    | inl e ↦ rw e (lstrip-Begins cs)
    | inr e ↦ rw e e
  ]

  pub lstrip-same : (cs : List ℕ) → Begins cs → lstrip cs ≡ cs
  unfolding lstrip
  lstrip-same [] h = refl
  lstrip-same (c ∷ cs) h = rw h refl

  -- The characters that are not of the class.
  unfoldable pub visible : List ℕ → List ℕ
  visible [] = []
  visible (c ∷ cs) = if p c then visible cs else c ∷ visible cs

  pub visible-append : (cs ds : List ℕ) → visible (cs ++ ds) ≡ visible cs ++ visible ds
  unfolding visible
  visible-append [] ds = refl
  visible-append (c ∷ cs) ds = elim (Bool-cases (p c)) [
    | inl e ↦ rw e (visible-append cs ds)
    | inr e ↦ rw e (ap (◌∷◌ c) (visible-append cs ds))
  ]

  pub visible-lstrip : (cs : List ℕ) → visible (lstrip cs) ≡ visible cs
  unfolding visible lstrip
  visible-lstrip [] = refl
  visible-lstrip (c ∷ cs) = elim (Bool-cases (p c)) [
    | inl e ↦ rw e (visible-lstrip cs)
    | inr e ↦ rw (e, visible, e) refl
  ]

  keep_unless-visible :
      (c : ℕ) (r cs : List ℕ)
      → visible r ≡ visible cs
      → visible (keep_unless c r) ≡ visible (c ∷ cs)
  unfolding visible
  keep_unless-visible c [] cs h = elim (Bool-cases (p c)) [
    | inl e ↦ rw e h
    | inr e ↦ rw (e, visible, e) (ap (◌∷◌ c) h)
  ]
  keep_unless-visible c (d ∷ ds) cs h = elim (Bool-cases (p c)) [
    | inl e ↦ rw (visible, e) h
    | inr e ↦ rw (visible, e) (ap (◌∷◌ c) h)
  ]

  pub visible-rstrip : (cs : List ℕ) → visible (rstrip cs) ≡ visible cs
  unfolding rstrip
  visible-rstrip [] = refl
  visible-rstrip (c ∷ cs) = keep_unless-visible c (rstrip cs) cs (visible-rstrip cs)

  pub visible-strip : (cs : List ℕ) → visible (strip cs) ≡ visible cs
  visible-strip cs = visible-rstrip (lstrip cs) ∙ visible-lstrip cs

  -- A text whose last character, if any, is not of the class.
  abbrev pub Ends : List ℕ → Type 0
  Ends cs = rstrip cs ≡ cs

take-length : (front rest : List ℕ) → take (length front) (front ++ rest) ≡ front
take-length [] rest = refl
take-length (c ∷ front) rest = ap (◌∷◌ c) (take-length front rest)

-- What stands before a suffix.
pub take-suffix :
    (front rest : List ℕ) → take (length (front ++ rest) - length rest) (front ++ rest) ≡ front
take-suffix front rest =
    let count : length (front ++ rest) - length rest ≡ length front =
      omega (arith, length-append front rest) in
    ap (λ n. take n (front ++ rest)) count ∙ take-length front rest
