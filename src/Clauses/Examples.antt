-- ===== src/Clauses/Examples.antt =====
-- Texts and chunks that are run through the detector.
use wyoming_vietnamese.Common.{
  leb, ◌==◌, ℕ, ◌≡◌, refl, Bool, true, false, ◌&&◌, ◌||◌, List, [], ◌∷◌, ◌++◌, arith,
}
use wyoming_vietnamese.Clauses.{Characters, is_member}
use wyoming_vietnamese.Clauses.Spaces.{span, lstrip, rstrip, strip, visible}
use wyoming_vietnamese.Clauses.Matches.{find_from, is_listed, same_text}
use wyoming_vietnamese.Clauses.Detector.{
  init, finish, drain_loop, find_natural_boundary, first_text_boundary, add_chunk_with_separators,
  split_clause_text_with_separators, select,
}
use wyoming_vietnamese.Clauses.Cuts.{joined}
use wyoming_vietnamese.Clauses.Lossless.{joined-split_clause_text_with_separators}
use wyoming_vietnamese.Clauses.Progress.{drain_loop-enough}
use wyoming_vietnamese.Clauses.Streaming.{pieces, whole_text, add_chunks, visible-add_chunks}

abbrev is_lower : ℕ → Bool
is_lower c = leb 97 c && leb c 122

abbrev is_digit : ℕ → Bool
is_digit c = leb 48 c && leb c 57

-- Python's `isupper` of a token.
abbrev is_upper : List ℕ → Bool
is_upper [] = false
is_upper (c ∷ []) = leb 65 c && leb c 90
is_upper (c ∷ d ∷ cs) = leb 65 c && leb c 90 && is_upper (d ∷ cs)

-- The characters of ASCII.
abbrev ascii : Characters
ascii = record {
  is_space = λ c. c == 32 || c == 10 || c == 13;
  is_digit = is_digit;
  is_alnum = λ c. is_digit c || is_lower c || leb 65 c && leb c 90;
  is_upper = is_upper;
}

-- ` a 3.5 b.  Hi!` and the chunks ` a 3.5 b.`, `  Hi!` and `x`.
abbrev some_text : List ℕ
some_text = 32 ∷ 97 ∷ 32 ∷ 51 ∷ 46 ∷ 53 ∷ 32 ∷ 98 ∷ 46 ∷ 32 ∷ 32 ∷ 72 ∷ 105 ∷ 33 ∷ []

abbrev some_chunks : List (List ℕ)
some_chunks =
    (32 ∷ 97 ∷ 32 ∷ 51 ∷ 46 ∷ 53 ∷ 32 ∷ 98 ∷ 46 ∷ [])
    ∷ (32 ∷ 32 ∷ 72 ∷ 105 ∷ 33 ∷ [])
    ∷ (120 ∷ [])
    ∷ []

-- `a 3.5 b.` with two spaces after it, then `Hi!`: the period of 3.5 is not a boundary.
run_split :
    split_clause_text_with_separators ascii some_text true
    ≡ ((97 ∷ 32 ∷ 51 ∷ 46 ∷ 53 ∷ 32 ∷ 98 ∷ 46 ∷ []), (32 ∷ 32 ∷ []))
      ∷ ((72 ∷ 105 ∷ 33 ∷ []), [])
      ∷ []
unfolding split_clause_text_with_separators add_chunk_with_separators drain_loop
    find_natural_boundary first_text_boundary finish rstrip lstrip find_from is_member span
    is_listed same_text select
run_split = refl

joined-split_clause_text_with_separators_example :
    joined (split_clause_text_with_separators ascii some_text true) ≡ strip ascii.is_space some_text
joined-split_clause_text_with_separators_example =
    joined-split_clause_text_with_separators ascii some_text true

visible-add_chunks_example :
    visible ascii.is_space (
      pieces (add_chunks ascii (init 15 true) some_chunks).0
      ++ (finish ascii (add_chunks ascii (init 15 true) some_chunks).1).0)
    ≡ visible ascii.is_space (whole_text some_chunks)
visible-add_chunks_example = visible-add_chunks ascii some_chunks 15 true

drain_loop-enough_example :
    drain_loop ascii 15 (record (init 15 true) { buffer = some_text })
    ≡ drain_loop ascii 40 (record (init 15 true) { buffer = some_text })
drain_loop-enough_example =
    drain_loop-enough ascii 15 40 (record (init 15 true) { buffer = some_text }) (omega arith)
      (omega arith)
