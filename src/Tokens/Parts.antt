-- ===== src/Tokens/Parts.antt =====
-- The parts of a text are not empty and fit, but for single characters.
use wyoming_vietnamese.Common.{
  ltb, leb, Bool-cases, length, take, drop, All, length-take-le, All-append, All-mono, ok, ℕ, zero,
  suc, ◌+◌, ◌≤◌, ◌≡◌, refl, ◌⊎◌, inl, inr, Bool, true, false, ◌&&◌, List, [], ◌∷◌, arith,
}
use wyoming_vietnamese.Tokens.{
  kept, words_from, joined_word, all_but_last, last_one, text_token_count, fits, prefix_length,
  chunks_from, split_words_by_candidate_counts, start_word, split_words_by_token_counts, all_fit,
  split_words, split_text_by_tokens,
}
use wyoming_vietnamese.Tokens.Search.{IsCut, prefix_length-IsCut}

and_true : (a b : Bool) → (a && b) ≡ true → (a ≡ true) × (b ≡ true)
and_true true b h = (refl, h)
and_true false b h = cc

abbrev pub IsSome : List ℕ → Type 0
IsSome [] = ⊥
IsSome (c ∷ text) = Unit {0}

kept-IsSome : (text : List ℕ) → All IsSome (kept text)
kept-IsSome [] = tt
kept-IsSome (c ∷ text) = (tt, tt)

module _ (body : List ℕ → ℕ) (limit : ℕ) where
  -- Some text that fits, or a single character.
  abbrev pub IsPart : List ℕ → Type 0
  IsPart [] = ⊥
  IsPart (c ∷ text) = (fits body limit (c ∷ text) ≡ true) ⊎ (length text ≡ 0)

  -- The same, or no text.
  abbrev MaybePart : List ℕ → Type 0
  MaybePart [] = Unit {0}
  MaybePart (c ∷ text) = (fits body limit (c ∷ text) ≡ true) ⊎ (length text ≡ 0)

  kept-IsPart : (text : List ℕ) → MaybePart text → All IsPart (kept text)
  kept-IsPart [] h = tt
  kept-IsPart (c ∷ text) h = (h, tt)

  fits-MaybePart : (text : List ℕ) → fits body limit text ≡ true → MaybePart text
  fits-MaybePart [] h = tt
  fits-MaybePart (c ∷ text) h = inl h

  cut-IsPart :
      (c n : ℕ) (rest : List ℕ) → IsCut body limit (c ∷ rest) n → IsPart (take n (c ∷ rest))
  cut-IsPart c zero rest (h, le, which) = absurd (omega arith)
  cut-IsPart c (suc n) rest (h, le, inl one) =
      let short = length-take-le n rest in inr (omega arith)
  cut-IsPart c (suc n) rest (h, le, inr fitting) = inl fitting

  chunks_from-IsPart : (fuel : ℕ) (rest : List ℕ) → All IsPart (chunks_from body limit fuel rest)
  unfolding chunks_from
  chunks_from-IsPart zero rest = tt
  chunks_from-IsPart (suc fuel) [] = tt
  chunks_from-IsPart (suc fuel) (c ∷ rest) = (
    cut-IsPart c (prefix_length body limit (c ∷ rest)) rest (prefix_length-IsCut body limit c rest),
    chunks_from-IsPart fuel (drop (prefix_length body limit (c ∷ rest)) (c ∷ rest)),
  )

  all_but_last-IsPart : (parts : List (List ℕ)) → All IsPart parts → All IsPart (all_but_last parts)
  all_but_last-IsPart [] h = tt
  all_but_last-IsPart (x ∷ []) h = tt
  all_but_last-IsPart (x ∷ y ∷ parts) (h, hs) = (h, all_but_last-IsPart (y ∷ parts) hs)

  last_one-MaybePart : (parts : List (List ℕ)) → All IsPart parts → MaybePart (last_one parts)
  last_one-MaybePart [] h = tt
  last_one-MaybePart ([] ∷ []) (h, hs) = absurd h
  last_one-MaybePart ((c ∷ x) ∷ []) (h, hs) = h
  last_one-MaybePart (x ∷ y ∷ parts) (h, hs) = last_one-MaybePart (y ∷ parts) hs

  split_words_by_candidate_counts-IsPart :
      (words : List (List ℕ)) (current : List ℕ)
      → MaybePart current
      → All IsPart (split_words_by_candidate_counts body limit words current)
  unfolding split_words_by_candidate_counts
  split_words_by_candidate_counts-IsPart [] current h = kept-IsPart current h
  split_words_by_candidate_counts-IsPart (word ∷ words) current h =
      elim (Bool-cases (fits body limit (joined_word current word))) [
        | inl joins ↦
            rw (split_words_by_candidate_counts, joins)
              (split_words_by_candidate_counts-IsPart words (joined_word current word)
                (fits-MaybePart _ joins))
        | inr apart ↦
            rw (split_words_by_candidate_counts, apart)
              (All-append IsPart (kept current) _ (kept-IsPart current h)
                (elim (Bool-cases (fits body limit word)) [
                  | inl short ↦ rw short (
                      split_words_by_candidate_counts-IsPart words word (fits-MaybePart word short))
                  | inr long ↦ rw long (
                      let chunks = chunks_from-IsPart (length word) word in
                      All-append IsPart _ _ (all_but_last-IsPart _ chunks) (
                        split_words_by_candidate_counts-IsPart words _
                          (last_one-MaybePart _ chunks)))
                ]))
      ]

  IsPart-IsSome : (part : List ℕ) → IsPart part → IsSome part
  IsPart-IsSome [] h = h
  IsPart-IsSome (c ∷ part) h = tt

  start_word-IsSome :
      (short : Bool) (word : List ℕ) (next : List ℕ → ℕ → List (List ℕ))
      → ((current : List ℕ) (tokens : ℕ) → All IsSome (next current tokens))
      → All IsSome (start_word body limit short word next)
  start_word-IsSome true word next h = h word _
  start_word-IsSome false word next h =
      All-append IsSome _ _
        (All-mono IsPart IsSome _ IsPart-IsSome
          (all_but_last-IsPart _ (chunks_from-IsPart (length word) word)))
        (h _ _)

  split_words_by_token_counts-IsSome :
      (words : List (List ℕ)) (current : List ℕ) (tokens : ℕ)
      → All IsSome (split_words_by_token_counts body limit words current tokens)
  unfolding split_words_by_token_counts
  split_words_by_token_counts-IsSome [] current tokens = kept-IsSome current
  split_words_by_token_counts-IsSome (word ∷ words) [] tokens =
      start_word-IsSome (fits body limit word) word _
        (λ c n. split_words_by_token_counts-IsSome words c n)
  split_words_by_token_counts-IsSome (word ∷ words) (x ∷ current) tokens =
      elim (Bool-cases (leb (tokens + text_token_count body (32 ∷ word)) limit)) [
        | inl joins ↦
            rw (split_words_by_token_counts, joins) (split_words_by_token_counts-IsSome words _ _)
        | inr apart ↦
            rw (split_words_by_token_counts, apart)
              (
                tt,
                start_word-IsSome (fits body limit word) word _
                    (λ c n. split_words_by_token_counts-IsSome words c n),
              )
      ]

  all_fit-IsPart :
      (parts : List (List ℕ))
      → All IsSome parts
      → all_fit body limit parts ≡ true
      → All IsPart parts
  unfolding all_fit
  all_fit-IsPart [] h fitting = tt
  all_fit-IsPart ([] ∷ parts) (h, hs) fitting = absurd h
  all_fit-IsPart ((c ∷ part) ∷ parts) (h, hs) fitting =
      let (first, rest) =
        and_true (fits body limit (c ∷ part)) (all_fit body limit parts) fitting in
      (inl first, all_fit-IsPart parts hs rest)

  split_words-IsPart :
      (composes : Bool) (words : List (List ℕ)) → All IsPart (split_words body limit composes words)
  split_words-IsPart composes words =
      elim (Bool-cases
        (composes && all_fit body limit (split_words_by_token_counts body limit words [] 0))) [
          | inl fitting ↦ rw fitting (
              all_fit-IsPart _ (split_words_by_token_counts-IsSome words [] 0)
                (and_true composes _ fitting).1)
          | inr failing ↦ rw failing (split_words_by_candidate_counts-IsPart words [] tt)
        ]

-- Every part of a split text has a character, and fits the limit or is a single character.
pub split_text_by_tokens-IsPart :
    (is_space : ℕ → Bool) (body : List ℕ → ℕ) (composes : Bool) (text : List ℕ) (limit : ℕ)
    → 1 ≤ limit
    → (parts : List (List ℕ)) × (split_text_by_tokens is_space body composes text limit ≡ ok parts)
      × All (IsPart body limit) parts
unfolding split_text_by_tokens
split_text_by_tokens-IsPart is_space body composes text limit positive =
    let valid : ltb limit 1 ≡ false = ground arith in
    elim (Bool-cases (fits body limit text)) [
      | inl whole ↦ (
        kept text,
        rw (valid, whole) refl,
        kept-IsPart body limit text (fits-MaybePart body limit text whole),
      )
      | inr long ↦ (
        split_words body limit composes (words_from is_space [] text),
        rw (valid, long) refl,
        split_words-IsPart body limit composes (words_from is_space [] text),
      )
    ]
