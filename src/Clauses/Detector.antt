-- ===== src/Clauses/Detector.antt =====
-- The methods of `StreamClauseDetector`.
use wyoming_vietnamese.Common.{
  ltb, leb, ◌==◌, if◌then◌else◌, length, get_elem?, take, drop, ℕ, zero, suc, ◌+◌, ◌-◌, min, Bool,
  true, false, ◌||◌, Option, none, some, List, [], ◌∷◌, ◌++◌, map,
}
use wyoming_vietnamese.Clauses.{
  Characters, is_member, sentence_end_chars, clause_end_chars, line_break_chars,
  all_delimiter_chars, default_min_clause_chars,
}
use wyoming_vietnamese.Clauses.Spaces.{lstrip, strip}
use wyoming_vietnamese.Clauses.Matches.{
  Match, end_of, test_at, is_empty, find_all, is_intra_token_separator, Boundary, paragraph,
  sentence, clause, no_boundary, boundary_kind,
}

pub record Detector : Type 0 where
  pub min_clause_chars : ℕ
  pub split_clauses : Bool
  pub buffer : List ℕ
  pub trailing_separator : List ℕ
  pub scan_offset : ℕ

-- `__init__`
abbrev pub init : ℕ → Bool → Detector
init min_clause_chars split_clauses = record {
  min_clause_chars = min_clause_chars;
  split_clauses = split_clauses;
  buffer = [];
  trailing_separator = [];
  scan_offset = 0;
}

-- `matches[-1].start()` of each list that is not empty, with the least of them and `default`.
abbrev pub last_start : List Match → ℕ → ℕ
last_start [] least = least
last_start (m ∷ []) least = min m.start least
last_start (m ∷ n ∷ ms) least = last_start (n ∷ ms) least

-- The loop of `_resume_offset`.
unfoldable pub widen : List ℕ → ℕ → ℕ
widen buffer zero = zero
widen buffer (suc offset) =
    if test_at (is_member all_delimiter_chars) (get_elem? buffer offset)
    then widen buffer offset
    else suc offset

-- `_resume_offset`. A match starts within the buffer, whose length is the default.
abbrev pub resume_offset : List ℕ → List Match → List Match → List Match → ℕ
resume_offset buffer paragraphs sentences clauses =
    widen buffer (last_start paragraphs (last_start sentences (last_start clauses (length buffer))))

unfoldable pub select : (Match → Bool) → List Match → List Match
select p [] = []
select p (m ∷ ms) = if p m then m ∷ select p ms else select p ms

-- `min` of the candidates by their start, the first one of equals.
abbrev pub earlier : Option Match → Option Match → Option Match
earlier none n = n
earlier (some m) none = some m
earlier (some m) (some n) = if ltb n.start m.start then some n else some m

module _ (chars : Characters) where
  -- `_first_text_boundary`
  unfoldable pub first_text_boundary : List ℕ → List Match → Option Match
  first_text_boundary buffer [] = none
  first_text_boundary buffer (m ∷ ms) =
      if is_intra_token_separator chars buffer m then first_text_boundary buffer ms else some m

  abbrev pub clause_matches : Detector → List Match
  clause_matches d =
      if d.split_clauses then find_all chars clause_end_chars d.buffer d.scan_offset else []

  -- `_find_natural_boundary`: the new offset, and the match.
  unfoldable pub find_natural_boundary : Detector → ℕ × Option Match
  find_natural_boundary d =
      let paragraphs = find_all chars line_break_chars d.buffer d.scan_offset in
      let sentences = find_all chars sentence_end_chars d.buffer d.scan_offset in
      let clauses = clause_matches d in
      let long = select (λ m. leb d.min_clause_chars (end_of m)) clauses in
      let resumable =
        select (λ m. leb d.min_clause_chars (end_of m) || end_of m == length d.buffer) clauses in
      (
        resume_offset d.buffer paragraphs sentences resumable,
        earlier (first_text_boundary d.buffer paragraphs)
            (earlier (first_text_boundary d.buffer sentences) (first_text_boundary d.buffer long)),
      )

  -- `if piece: yielded.append((piece, self.trailing_separator))`
  abbrev pub yielded : List ℕ → List ℕ → List (List ℕ × List ℕ)
  yielded [] separator = []
  yielded (c ∷ piece) separator = (c ∷ piece, separator) ∷ []

  -- One round of the loop of `_drain`, at the end of a match: what it yields, and the detector.
  abbrev pub cut : Detector → ℕ → List (List ℕ × List ℕ) × Detector
  cut d end_pos =
      let head = take end_pos d.buffer in
      let leading = length head - length (lstrip chars.is_space head) in
      let piece = strip chars.is_space head in
      let rest = lstrip chars.is_space (drop end_pos d.buffer) in
      let start = leading + length piece in
      let separator = drop start (take (length d.buffer - length rest) d.buffer) in
      (
        yielded piece separator,
        record d { buffer = rest; trailing_separator = separator; scan_offset = 0 },
      )

  abbrev pub prepend :
      List (List ℕ × List ℕ) → List (List ℕ × List ℕ) × Detector → List (List ℕ × List ℕ) × Detector
  prepend pairs (more, d) = (pairs ++ more, d)

  -- `_drain`. Every round takes a character at least, so that the length is enough fuel.
  unfoldable pub drain_loop : ℕ → Detector → List (List ℕ × List ℕ) × Detector
  drain_loop zero d = ([], d)
  drain_loop (suc fuel) d =
      let scanned = record d { scan_offset = (find_natural_boundary d).0 } in
      if is_empty d.buffer then ([], d) else elim (find_natural_boundary d).1 [
        | none ↦ ([], scanned)
        | some m ↦ prepend (cut scanned (end_of m)).0 (drain_loop fuel (cut scanned (end_of m)).1)
      ]

  -- `add_chunk_with_separators`
  unfoldable pub add_chunk_with_separators : Detector → List ℕ → List (List ℕ × List ℕ) × Detector
  add_chunk_with_separators d text =
      let d' = record d { buffer = d.buffer ++ text } in drain_loop (suc (length d'.buffer)) d'

  -- `finish`
  unfoldable pub finish : Detector → List ℕ × Detector
  finish d = (strip chars.is_space d.buffer, record d { buffer = []; scan_offset = 0 })

  abbrev pub ends_sentence : Boundary → Bool
  ends_sentence paragraph = true
  ends_sentence sentence = true
  ends_sentence clause = false
  ends_sentence no_boundary = false

  -- The end of `split_clause_text_with_separators`, with the last pair at hand.
  unfoldable pub attach : ℕ → List ℕ → List (List ℕ × List ℕ) → List (List ℕ × List ℕ)
  attach min_clause_chars remainder [] = (remainder, []) ∷ []
  attach min_clause_chars remainder ((piece, separator) ∷ []) =
      if leb min_clause_chars (length remainder)
        || ends_sentence (boundary_kind chars piece separator)
      then (piece, separator) ∷ (remainder, []) ∷ []
      else (piece ++ (separator ++ remainder), []) ∷ []
  attach min_clause_chars remainder (pair ∷ next ∷ pairs) =
      pair ∷ attach min_clause_chars remainder (next ∷ pairs)

  abbrev pub with_remainder : ℕ → List ℕ → List (List ℕ × List ℕ) → List (List ℕ × List ℕ)
  with_remainder min_clause_chars [] pairs = pairs
  with_remainder min_clause_chars (c ∷ remainder) pairs =
      attach min_clause_chars (c ∷ remainder) pairs

  abbrev pub split_trimmed : Bool → List ℕ → List (List ℕ × List ℕ)
  split_trimmed split_clauses [] = []
  split_trimmed split_clauses (c ∷ trimmed) =
      let d = init default_min_clause_chars split_clauses in
      let pairs = add_chunk_with_separators d (c ∷ trimmed) in
      with_remainder default_min_clause_chars (finish pairs.1).0 pairs.0

  -- `split_clause_text_with_separators`
  unfoldable pub split_clause_text_with_separators : List ℕ → Bool → List (List ℕ × List ℕ)
  split_clause_text_with_separators text split_clauses =
      split_trimmed split_clauses (strip chars.is_space text)

  -- `split_clause_text`
  unfoldable pub split_clause_text : List ℕ → Bool → List (List ℕ)
  split_clause_text text split_clauses =
      map (λ pair. pair.0) (split_clause_text_with_separators text split_clauses)
