-- ===== src/Tokens/Whole.antt =====
-- Nothing of a text is lost where it is split.
use wyoming_vietnamese.Common.{
  ltb, leb, if◌then◌else◌, Bool-cases, length, take, drop, take-append-drop, length-drop, concat,
  concat-append, ok, ℕ, zero, suc, ◌+◌, ◌≤◌, ◌≡◌, refl, sym, ap, ◌∙◌, inl, inr, Bool, true, false,
  ◌&&◌, List, [], ◌∷◌, ◌++◌, arith,
}
use wyoming_vietnamese.Tokens.{
  kept, words_from, joined_word, all_but_last, last_one, text_token_count, fits, prefix_length,
  chunks_from, split_long_word, split_words_by_candidate_counts, start_word,
  split_words_by_token_counts, all_fit, split_words, split_text_by_tokens,
}
use wyoming_vietnamese.Tokens.Search.{prefix_length-IsCut}
use wyoming_vietnamese.Clauses.Spaces.{visible, visible-append}
use mathlib.Core.List.{append_assoc, append-nil}

concat-kept : (text : List ℕ) → concat (kept text) ≡ text
concat-kept [] = refl
concat-kept (c ∷ text) = append-nil (c ∷ text)

concat-all_but_last :
    (parts : List (List ℕ)) → concat (all_but_last parts) ++ last_one parts ≡ concat parts
concat-all_but_last [] = refl
concat-all_but_last (x ∷ []) = sym (append-nil x)
concat-all_but_last (x ∷ y ∷ parts) =
    append_assoc x (concat (all_but_last (y ∷ parts))) (last_one (y ∷ parts))
    ∙ ap (λ (u : List ℕ). x ++ u) (concat-all_but_last (y ∷ parts))

module _ (body : List ℕ → ℕ) (limit : ℕ) where
  concat-chunks_from :
      (fuel : ℕ) (rest : List ℕ)
      → length rest ≤ fuel
      → concat (chunks_from body limit fuel rest) ≡ rest
  unfolding chunks_from
  concat-chunks_from zero [] h = refl
  concat-chunks_from zero (c ∷ rest) h = absurd (omega arith)
  concat-chunks_from (suc fuel) [] h = refl
  concat-chunks_from (suc fuel) (c ∷ rest) h =
      let n = prefix_length body limit (c ∷ rest) in
      let (positive, within, which) = prefix_length-IsCut body limit c rest in
      let shorter = length-drop n (c ∷ rest) in
      ap (λ (u : List ℕ). take n (c ∷ rest) ++ u)
        (concat-chunks_from fuel (drop n (c ∷ rest)) (omega arith))
      ∙ take-append-drop n (c ∷ rest)

  -- The chunks of a word, one after the other, are the word: the loop takes all of it.
  pub concat-split_long_word : (word : List ℕ) → concat (split_long_word body limit word) ≡ word
  concat-split_long_word word = concat-chunks_from (length word) word (omega arith)

  module _ (is_space : ℕ → Bool) (blank : is_space 32 ≡ true) where
    abbrev seen : List (List ℕ) → List ℕ
    seen parts = visible is_space (concat parts)

    seen-append : (xs ys : List (List ℕ)) → seen (xs ++ ys) ≡ seen xs ++ seen ys
    seen-append xs ys =
        ap (visible is_space) (concat-append xs ys)
        ∙ visible-append is_space (concat xs) (concat ys)

    visible-space :
        (c : ℕ) (cs : List ℕ) → is_space c ≡ true → visible is_space (c ∷ cs) ≡ visible is_space cs
    unfolding visible
    visible-space c cs h = rw h refl

    visible-joined_word :
        (current word : List ℕ)
        → visible is_space (joined_word current word)
          ≡ visible is_space current ++ visible is_space word
    unfolding visible
    visible-joined_word [] word = refl
    visible-joined_word (c ∷ current) word =
        visible-append is_space (c ∷ current) (32 ∷ word)
        ∙ ap (λ (u : List ℕ). visible is_space (c ∷ current) ++ u) (visible-space 32 word blank)

    seen-words_from :
        (word cs : List ℕ) → seen (words_from is_space word cs) ≡ visible is_space (word ++ cs)
    unfolding words_from
    seen-words_from word [] = ap (visible is_space) (concat-kept word ∙ sym (append-nil word))
    seen-words_from word (c ∷ cs) = elim (Bool-cases (is_space c)) [
      | inl space ↦
          rw (words_from, space)
            (seen-append (kept word) (words_from is_space [] cs)
              ∙ ap (λ (u : List ℕ). u ++ seen (words_from is_space [] cs))
                  (ap (visible is_space) (concat-kept word))
              ∙ ap (λ (u : List ℕ). visible is_space word ++ u)
                  (seen-words_from [] cs ∙ sym (visible-space c cs space))
              ∙ sym (visible-append is_space word (c ∷ cs)))
      | inr other ↦
          rw (words_from, other)
            (seen-words_from (word ++ (c ∷ [])) cs
              ∙ ap (visible is_space) (append_assoc word (c ∷ []) cs))
    ]

    -- The chunks of a long word, but for the last one, and what is made of that one and the words
    -- after it.
    seen-long :
        (word : List ℕ) (words : List (List ℕ)) (rest : List (List ℕ))
        → seen rest ≡ visible is_space (last_one (split_long_word body limit word)) ++ seen words
        → seen (all_but_last (split_long_word body limit word) ++ rest)
          ≡ visible is_space word ++ seen words
    seen-long word words rest h =
        let chunks = split_long_word body limit word in
        seen-append (all_but_last chunks) rest
        ∙ ap (λ (u : List ℕ). seen (all_but_last chunks) ++ u) h
        ∙ sym (
            append_assoc (seen (all_but_last chunks)) (visible is_space (last_one chunks))
              (seen words))
        ∙ ap (λ (u : List ℕ). u ++ seen words)
            (sym (visible-append is_space (concat (all_but_last chunks)) (last_one chunks))
              ∙ ap (visible is_space) (concat-all_but_last chunks ∙ concat-split_long_word word))

    seen-kept :
        (current : List ℕ) (word : List ℕ) (words rest : List (List ℕ))
        → seen rest ≡ visible is_space word ++ seen words
        → seen (kept current ++ rest) ≡ visible is_space current ++ seen (word ∷ words)
    seen-kept current word words rest h =
        seen-append (kept current) rest
        ∙ ap (λ (u : List ℕ). u ++ seen rest) (ap (visible is_space) (concat-kept current))
        ∙ ap (λ (u : List ℕ). visible is_space current ++ u)
            (h ∙ sym (visible-append is_space word (concat words)))

    seen-joined :
        (current word : List ℕ) (words rest : List (List ℕ))
        → seen rest ≡ visible is_space (joined_word current word) ++ seen words
        → seen rest ≡ visible is_space current ++ seen (word ∷ words)
    seen-joined current word words rest h =
        h
        ∙ ap (λ (u : List ℕ). u ++ seen words) (visible-joined_word current word)
        ∙ append_assoc (visible is_space current) (visible is_space word) (seen words)
        ∙ ap (λ (u : List ℕ). visible is_space current ++ u)
            (sym (visible-append is_space word (concat words)))

    seen-candidate_counts :
        (words : List (List ℕ)) (current : List ℕ)
        → seen (split_words_by_candidate_counts body limit words current)
          ≡ visible is_space current ++ seen words
    unfolding split_words_by_candidate_counts visible
    seen-candidate_counts [] current =
        ap (visible is_space) (concat-kept current) ∙ sym (append-nil (visible is_space current))
    seen-candidate_counts (word ∷ words) current =
        elim (Bool-cases (fits body limit (joined_word current word))) [
          | inl joins ↦
              rw (split_words_by_candidate_counts, joins)
                (seen-joined current word words
                  (split_words_by_candidate_counts body limit words (joined_word current word))
                  (seen-candidate_counts words (joined_word current word)))
          | inr apart ↦
              rw (split_words_by_candidate_counts, apart)
                (seen-kept current word words _ (elim (Bool-cases (fits body limit word)) [
                  | inl short ↦ rw short (seen-candidate_counts words word)
                  | inr long ↦ rw long (
                      seen-long word words _
                        (seen-candidate_counts words (last_one (split_long_word body limit word))))
                ]))
        ]

    seen-start_word :
        (short : Bool) (word : List ℕ) (words : List (List ℕ)) (next : List ℕ → ℕ → List (List ℕ))
        → ((current : List ℕ) (tokens : ℕ)
            → seen (next current tokens) ≡ visible is_space current ++ seen words)
        → seen (start_word body limit short word next) ≡ visible is_space word ++ seen words
    seen-start_word true word words next h = h word _
    seen-start_word false word words next h = seen-long word words _ (h _ _)

    seen-started :
        (word : List ℕ) (words : List (List ℕ))
        → ((current : List ℕ) (tokens : ℕ)
            → seen (split_words_by_token_counts body limit words current tokens)
              ≡ visible is_space current ++ seen words)
        → seen (
            start_word body limit
              (fits body limit word)
              word
              (λ c n. split_words_by_token_counts body limit words c n))
          ≡ visible is_space word ++ seen words
    seen-started word words h =
        seen-start_word (fits body limit word) word words
          (λ c n. split_words_by_token_counts body limit words c n) h

    seen-token_counts :
        (words : List (List ℕ)) (current : List ℕ) (tokens : ℕ)
        → seen (split_words_by_token_counts body limit words current tokens)
          ≡ visible is_space current ++ seen words
    unfolding split_words_by_token_counts visible
    seen-token_counts [] current tokens =
        ap (visible is_space) (concat-kept current) ∙ sym (append-nil (visible is_space current))
    seen-token_counts (word ∷ words) [] tokens =
        seen-kept [] word words
          (start_word body limit (fits body limit word) word
            (λ c n. split_words_by_token_counts body limit words c n))
          (seen-started word words (λ c n. seen-token_counts words c n))
    seen-token_counts (word ∷ words) (x ∷ current) tokens =
        elim (Bool-cases (leb (tokens + text_token_count body (32 ∷ word)) limit)) [
          | inl joins ↦
              rw (split_words_by_token_counts, joins)
                (seen-joined (x ∷ current) word words
                  (split_words_by_token_counts body limit words ((x ∷ current) ++ (32 ∷ word))
                    (tokens + text_token_count body (32 ∷ word)))
                  (seen-token_counts words ((x ∷ current) ++ (32 ∷ word))
                    (tokens + text_token_count body (32 ∷ word))))
          | inr apart ↦
              rw (split_words_by_token_counts, apart)
                (seen-kept (x ∷ current) word words
                  (start_word body limit (fits body limit word) word
                    (λ c n. split_words_by_token_counts body limit words c n))
                  (seen-started word words (λ c n. seen-token_counts words c n)))
        ]

    seen-split_words :
        (composes : Bool) (words : List (List ℕ))
        → seen (split_words body limit composes words) ≡ seen words
    unfolding visible
    seen-split_words composes words =
        chosen (composes && all_fit body limit (split_words_by_token_counts body limit words [] 0))
      where
        chosen :
            (first : Bool)
            → seen (
                if first
                then split_words_by_token_counts body limit words [] 0
                else split_words_by_candidate_counts body limit words [])
              ≡ seen words
        chosen true = seen-token_counts words [] 0
        chosen false = seen-candidate_counts words []

-- The parts of a split text, one after the other and their spaces left out, are the text, its spaces
-- left out, whatever the tokenizer counts: no other character is lost, added or moved.
pub visible-split_text_by_tokens :
    (is_space : ℕ → Bool) (body : List ℕ → ℕ) (composes : Bool) (text : List ℕ) (limit : ℕ)
    → is_space 32 ≡ true
    → 1 ≤ limit
    → (parts : List (List ℕ)) × (split_text_by_tokens is_space body composes text limit ≡ ok parts)
      × (visible is_space (concat parts) ≡ visible is_space text)
unfolding split_text_by_tokens
visible-split_text_by_tokens is_space body composes text limit blank positive =
    let valid : ltb limit 1 ≡ false = ground arith in
    elim (Bool-cases (fits body limit text)) [
      | inl whole ↦ (kept text, rw (valid, whole) refl, ap (visible is_space) (concat-kept text))
      | inr long ↦ (
        split_words body limit composes (words_from is_space [] text),
        rw (valid, long) refl,
        seen-split_words body limit is_space blank composes (words_from is_space [] text)
            ∙ seen-words_from body limit is_space blank [] text,
      )
    ]
