-- ===== src/Tokens.antt =====
-- `split_text_by_tokens` of wyoming_vietnamese/zerotts_engine.py and what it calls. A text is the list
-- of its code points; `is_space` is Python's `isspace`, and `body` the number of tokens that the
-- tokenizer makes of a text that is not empty. The cache of the last count only saves a call.
pub mod Search
pub mod Parts
pub mod Whole
mod Examples
use wyoming_vietnamese.Common.{
  ltb, leb, if◌then◌else◌, length, take, drop, Result, value_error, ok, raise, ℕ, zero, suc, ◌+◌,
  ◌-◌, ◌/◌, Bool, true, false, ◌&&◌, List, [], ◌∷◌, ◌++◌,
}

-- `(text,) if text else ()`
abbrev pub kept : List ℕ → List (List ℕ)
kept [] = []
kept (c ∷ text) = (c ∷ text) ∷ []

-- `text.split()`, with the word that is being read.
unfoldable pub words_from : (ℕ → Bool) → List ℕ → List ℕ → List (List ℕ)
words_from is_space word [] = kept word
words_from is_space word (c ∷ cs) = elim (is_space c) [
  | true ↦ kept word ++ words_from is_space [] cs
  | false ↦ words_from is_space (word ++ (c ∷ [])) cs
]

-- `f"{current} {word}" if current else word`
abbrev pub joined_word : List ℕ → List ℕ → List ℕ
joined_word [] word = word
joined_word (c ∷ current) word = (c ∷ current) ++ (32 ∷ word)

-- `word_chunks[:-1]` and `word_chunks[-1]`. A word has a character, so that it has a chunk.
abbrev pub all_but_last : List (List ℕ) → List (List ℕ)
all_but_last [] = []
all_but_last (x ∷ []) = []
all_but_last (x ∷ y ∷ xs) = x ∷ all_but_last (y ∷ xs)

abbrev pub last_one : List (List ℕ) → List ℕ
last_one [] = []
last_one (x ∷ []) = x
last_one (x ∷ y ∷ xs) = last_one (y ∷ xs)

-- `text_token_count`
abbrev pub text_token_count : (List ℕ → ℕ) → List ℕ → ℕ
text_token_count body [] = 0
text_token_count body (c ∷ text) = body (c ∷ text)

module _ (body : List ℕ → ℕ) (limit : ℕ) where
  abbrev pub fits : List ℕ → Bool
  fits text = leb (text_token_count body text) limit

  -- The inner loop of `_split_long_word`, with the positions counted from `start`. The range shrinks
  -- in every round, so that its length is enough fuel.
  unfoldable pub search_prefix : ℕ → ℕ → ℕ → ℕ → List ℕ → ℕ
  search_prefix zero low high best rest = best
  search_prefix (suc fuel) low high best rest = elim (ltb high low) [
    | true ↦ best
    | false ↦ elim (fits (take ((low + high) / 2) rest)) [
      | true ↦ search_prefix fuel ((low + high) / 2 + 1) high ((low + high) / 2) rest
      | false ↦ search_prefix fuel low ((low + high) / 2 - 1) best rest
    ]
  ]

  abbrev pub prefix_length : List ℕ → ℕ
  prefix_length rest = search_prefix (length rest) 1 (length rest) 1 rest

  -- The outer loop. A chunk has a character at least, so that the length is enough fuel.
  unfoldable pub chunks_from : ℕ → List ℕ → List (List ℕ)
  chunks_from zero rest = []
  chunks_from (suc fuel) [] = []
  chunks_from (suc fuel) (c ∷ rest) =
      take (prefix_length (c ∷ rest)) (c ∷ rest)
      ∷ chunks_from fuel (drop (prefix_length (c ∷ rest)) (c ∷ rest))

  -- `_split_long_word`
  abbrev pub split_long_word : List ℕ → List (List ℕ)
  split_long_word word = chunks_from (length word) word

  -- `_split_words_by_candidate_counts`, with `current`.
  unfoldable pub split_words_by_candidate_counts : List (List ℕ) → List ℕ → List (List ℕ)
  split_words_by_candidate_counts [] current = kept current
  split_words_by_candidate_counts (word ∷ words) current = elim (fits (joined_word current word)) [
    | true ↦ split_words_by_candidate_counts words (joined_word current word)
    | false ↦ kept current ++ elim (fits word) [
      | true ↦ split_words_by_candidate_counts words word
      | false ↦
          all_but_last (split_long_word word)
          ++ split_words_by_candidate_counts words (last_one (split_long_word word))
    ]
  ]

  -- The word, which fits or not, with which `_split_words_by_token_counts` goes on when `current` is empty.
  abbrev pub start_word : Bool → List ℕ → (List ℕ → ℕ → List (List ℕ)) → List (List ℕ)
  start_word true word next = next word (text_token_count body word)
  start_word false word next =
      let chunks = split_long_word word in
      all_but_last chunks ++ next (last_one chunks) (text_token_count body (last_one chunks))

  -- `_split_words_by_token_counts`, with `current` and `current_tokens`.
  unfoldable pub split_words_by_token_counts : List (List ℕ) → List ℕ → ℕ → List (List ℕ)
  split_words_by_token_counts [] current tokens = kept current
  split_words_by_token_counts (word ∷ words) [] tokens =
      start_word (fits word) word (λ c n. split_words_by_token_counts words c n)
  split_words_by_token_counts (word ∷ words) (x ∷ current) tokens =
      elim (leb (tokens + text_token_count body (32 ∷ word)) limit) [
        | true ↦
            split_words_by_token_counts words ((x ∷ current) ++ (32 ∷ word))
              (tokens + text_token_count body (32 ∷ word))
        | false ↦
            (x ∷ current)
            ∷ start_word (fits word) word (λ c n. split_words_by_token_counts words c n)
      ]

  unfoldable pub all_fit : List (List ℕ) → Bool
  all_fit [] = true
  all_fit (part ∷ parts) = fits part && all_fit parts

  -- `split_text_by_tokens` after its tests; `composes` says whether the tokenizer has `encode_body`.
  abbrev pub split_words : Bool → List (List ℕ) → List (List ℕ)
  split_words composes words =
      if composes && all_fit (split_words_by_token_counts words [] 0)
      then split_words_by_token_counts words [] 0
      else split_words_by_candidate_counts words []

-- `split_text_by_tokens`
unfoldable pub split_text_by_tokens :
    (ℕ → Bool) → (List ℕ → ℕ) → Bool → List ℕ → ℕ → Result (List (List ℕ))
split_text_by_tokens is_space body composes text limit =
    if ltb limit 1
    then raise value_error
    else if fits body limit text
    then ok (kept text)
    else ok (split_words body limit composes (words_from is_space [] text))
