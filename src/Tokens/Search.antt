-- ===== src/Tokens/Search.antt =====
-- The binary search of `_split_long_word`.
use wyoming_vietnamese.Common.{
  ltb, Bool-cases, length, take, ℕ, zero, suc, ◌+◌, ◌-◌, ◌/◌, ◌≤◌, ◌<◌, ◌≡◌, refl, ◌⊎◌, inl, inr,
  true, false, List, ◌∷◌, arith,
}
use wyoming_vietnamese.Tokens.{fits, search_prefix, prefix_length}

module _ (body : List ℕ → ℕ) (limit : ℕ) where
  -- A prefix that fits, or the first character.
  abbrev pub IsCut : List ℕ → ℕ → Type 0
  IsCut rest n = (1 ≤ n) × (n ≤ length rest) × ((n ≡ 1) ⊎ (fits body limit (take n rest) ≡ true))

  search_prefix-IsCut :
      (fuel low high best : ℕ) (rest : List ℕ)
      → 1 ≤ low
      → high ≤ length rest
      → IsCut rest best
      → IsCut rest (search_prefix body limit fuel low high best rest)
  unfolding search_prefix
  search_prefix-IsCut zero low high best rest l h b = b
  search_prefix-IsCut (suc fuel) low high best rest l h b = elim (Bool-cases (ltb high low)) [
    | inl over ↦ rw (search_prefix, over) b
    | inr open_range ↦
        let low_le : low ≤ high = ground arith in
        elim (Bool-cases (fits body limit (take ((low + high) / 2) rest))) [
          | inl fitting ↦
              rw (search_prefix, open_range, fitting)
                (search_prefix-IsCut fuel ((low + high) / 2 + 1) high ((low + high) / 2) rest
                  (omega arith) h (omega arith, omega arith, inr fitting))
          | inr failing ↦
              rw (search_prefix, open_range, failing)
                (search_prefix-IsCut fuel low ((low + high) / 2 - 1) best rest l (omega arith) b)
        ]
  ]

  pub prefix_length-IsCut :
      (c : ℕ) (rest : List ℕ) → IsCut (c ∷ rest) (prefix_length body limit (c ∷ rest))
  prefix_length-IsCut c rest =
      search_prefix-IsCut (length (c ∷ rest)) 1 (length (c ∷ rest)) 1 (c ∷ rest) (omega arith)
        (omega arith) (omega arith, omega arith, inl refl)

  -- No longer prefix than so many characters fits.
  abbrev pub NoneBeyond : List ℕ → ℕ → Type 0
  NoneBeyond rest n = (j : ℕ) → n < j → j ≤ length rest → fits body limit (take j rest) ≡ false

  -- Where a prefix does not fit, no longer one does.
  abbrev pub IsMonotone : List ℕ → Type 0
  IsMonotone rest =
      (i j : ℕ)
      → i ≤ j
      → j ≤ length rest
      → fits body limit (take i rest) ≡ false
      → fits body limit (take j rest) ≡ false

  search_prefix-NoneBeyond :
      (fuel low high best : ℕ) (rest : List ℕ)
      → IsMonotone rest
      → 1 ≤ low
      → low ≤ best + 1
      → high < low + fuel
      → NoneBeyond rest high
      → NoneBeyond rest (search_prefix body limit fuel low high best rest)
  unfolding search_prefix
  search_prefix-NoneBeyond zero low high best rest m l b f none_beyond =
      λ j best_lt le. none_beyond j (omega arith) le
  search_prefix-NoneBeyond (suc fuel) low high best rest m l b f none_beyond =
      elim (Bool-cases (ltb high low)) [
        | inl over ↦
            let high_lt : high < low = ground arith in
            rw (search_prefix, over) (λ j best_lt le. none_beyond j (omega arith) le)
        | inr open_range ↦
            let low_le : low ≤ high = ground arith in
            elim (Bool-cases (fits body limit (take ((low + high) / 2) rest))) [
              | inl fitting ↦
                  rw (search_prefix, open_range, fitting)
                    (search_prefix-NoneBeyond fuel ((low + high) / 2 + 1) high ((low + high) / 2)
                      rest m (omega arith) (omega arith) (omega arith) none_beyond)
              | inr failing ↦
                  rw (search_prefix, open_range, failing)
                    (search_prefix-NoneBeyond fuel low ((low + high) / 2 - 1) best rest m l b
                      (omega arith) (λ j above le. m ((low + high) / 2) j (omega arith) le failing))
            ]
      ]

  prefix_length-NoneBeyond :
      (rest : List ℕ) → IsMonotone rest → NoneBeyond rest (prefix_length body limit rest)
  prefix_length-NoneBeyond rest m =
      search_prefix-NoneBeyond (length rest) 1 (length rest) 1 rest m (omega arith) (omega arith)
        (omega arith) (λ j above le. absurd (omega arith))

  -- If no prefix of a text fits that is longer than one that does not, the binary search finds the
  -- longest prefix that fits, or else the first character: what it finds is within the text, and no
  -- longer prefix fits.
  pub prefix_length-IsLongest :
      (c : ℕ) (rest : List ℕ)
      → IsMonotone (c ∷ rest)
      → IsCut (c ∷ rest) (prefix_length body limit (c ∷ rest))
        × NoneBeyond (c ∷ rest) (prefix_length body limit (c ∷ rest))
  prefix_length-IsLongest c rest m =
      (prefix_length-IsCut c rest, prefix_length-NoneBeyond (c ∷ rest) m)
