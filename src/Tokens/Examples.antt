-- ===== src/Tokens/Examples.antt =====
-- A text that is split with a tokenizer that counts characters.
use wyoming_vietnamese.Common.{
  ◌==◌, length, take, All, concat, ok, ℕ, zero, suc, ◌≤◌, ◌≡◌, refl, Bool, true, false, List, [],
  ◌∷◌, arith,
}
use wyoming_vietnamese.Tokens.{
  fits, chunks_from, search_prefix, words_from, all_fit, split_words_by_token_counts, prefix_length,
  split_text_by_tokens,
}
use wyoming_vietnamese.Tokens.Search.{IsCut, NoneBeyond, prefix_length-IsLongest}
use wyoming_vietnamese.Tokens.Parts.{IsPart, split_text_by_tokens-IsPart}
use wyoming_vietnamese.Tokens.Whole.{visible-split_text_by_tokens}
use wyoming_vietnamese.Clauses.Spaces.{visible}

abbrev is_blank : ℕ → Bool
is_blank c = c == 32

-- `ab c defgh`
abbrev some_text : List ℕ
some_text = 97 ∷ 98 ∷ 32 ∷ 99 ∷ 32 ∷ 100 ∷ 101 ∷ 102 ∷ 103 ∷ 104 ∷ []

-- `ab c`, `defg` and `h` for four tokens.
run_split :
    split_text_by_tokens is_blank length true some_text 4
    ≡ ok ((97 ∷ 98 ∷ 32 ∷ 99 ∷ []) ∷ (100 ∷ 101 ∷ 102 ∷ 103 ∷ []) ∷ (104 ∷ []) ∷ [])
unfolding split_text_by_tokens words_from split_words_by_token_counts chunks_from search_prefix
    all_fit
run_split = refl

split_text_by_tokens-IsPart_example :
    (parts : List (List ℕ)) × (split_text_by_tokens is_blank length true some_text 4 ≡ ok parts)
    × All (IsPart length 4) parts
split_text_by_tokens-IsPart_example =
    split_text_by_tokens-IsPart is_blank length true some_text 4 (omega arith)

visible-split_text_by_tokens_example :
    (parts : List (List ℕ)) × (split_text_by_tokens is_blank length true some_text 4 ≡ ok parts)
    × (visible is_blank (concat parts) ≡ visible is_blank some_text)
visible-split_text_by_tokens_example =
    visible-split_text_by_tokens is_blank length true some_text 4 refl (omega arith)

-- Two characters of three fit.
longer_fails :
    (i j : ℕ)
    → i ≤ j
    → j ≤ 3
    → fits length 2 (take i (7 ∷ 8 ∷ 9 ∷ [])) ≡ false
    → fits length 2 (take j (7 ∷ 8 ∷ 9 ∷ [])) ≡ false
longer_fails zero j le short h = cc
longer_fails (suc zero) j le short h = cc
longer_fails (suc (suc zero)) j le short h = cc
longer_fails (suc (suc (suc i))) zero le short h = absurd (omega arith)
longer_fails (suc (suc (suc i))) (suc zero) le short h = absurd (omega arith)
longer_fails (suc (suc (suc i))) (suc (suc zero)) le short h = absurd (omega arith)
longer_fails (suc (suc (suc i))) (suc (suc (suc j))) le short h = ground arith

prefix_length-IsLongest_example :
    IsCut length 2 (7 ∷ 8 ∷ 9 ∷ []) (prefix_length length 2 (7 ∷ 8 ∷ 9 ∷ []))
    × NoneBeyond length 2 (7 ∷ 8 ∷ 9 ∷ []) (prefix_length length 2 (7 ∷ 8 ∷ 9 ∷ []))
prefix_length-IsLongest_example = prefix_length-IsLongest length 2 7 (8 ∷ 9 ∷ []) longer_fails
