-- ===== src/Clauses/Matches.antt =====
-- The delimiters of wyoming_vietnamese/tts.py: `finditer` of `([chars]+)(\s*)`, and the tests that
-- tell a delimiter inside a token from one that ends a clause. Python's `\s` is `isspace`.
use wyoming_vietnamese.Common.{
  ltb, leb, ◌==◌, if◌then◌else◌, length, get_elem?, take, drop, ℕ, zero, suc, ◌+◌, ◌-◌, Bool, true,
  false, not, ◌&&◌, ◌||◌, Option, none, some, List, [], ◌∷◌,
}
use mathlib.Core.List.{reverse}
use wyoming_vietnamese.Clauses.{
  Characters, is_member, sentence_end_chars, clause_end_chars, line_break_chars,
  numeric_separator_chars, token_joining_chars, prefix_abbr, trailing_wrapper_chars,
}
use wyoming_vietnamese.Clauses.Spaces.{span, rstrip, lstrip}

-- `start` is `match.start()`, the delimiter `match.group(1)` and the spaces `match.group(2)`.
pub record Match : Type 0 where
  pub start : ℕ
  pub delimiter : List ℕ
  pub spaces : List ℕ

abbrev pub delimiter_end : Match → ℕ
delimiter_end m = m.start + length m.delimiter

abbrev pub end_of : Match → ℕ
end_of m = m.start + length m.delimiter + length m.spaces

unfoldable pub same_text : List ℕ → List ℕ → Bool
same_text [] [] = true
same_text [] (d ∷ ds) = false
same_text (c ∷ cs) [] = false
same_text (c ∷ cs) (d ∷ ds) = c == d && same_text cs ds

unfoldable pub is_listed : List (List ℕ) → List ℕ → Bool
is_listed [] t = false
is_listed (x ∷ xs) t = same_text x t || is_listed xs t

-- Whether the character at a position, if there is one, is of a class.
abbrev pub test_at : (ℕ → Bool) → Option ℕ → Bool
test_at p none = false
test_at p (some c) = p c

abbrev pub is_empty : List ℕ → Bool
is_empty [] = true
is_empty (c ∷ cs) = false

module _ (chars : Characters) where
  -- `finditer` from a position, with the rest of the text there; every round takes a character.
  unfoldable pub find_from : List ℕ → ℕ → ℕ → List ℕ → List Match
  find_from wanted zero i cs = []
  find_from wanted (suc fuel) i [] = []
  find_from wanted (suc fuel) i (c ∷ cs) =
      let run = span (is_member wanted) cs in
      let gap = span chars.is_space run.1 in
      let found : Match = record { start = i; delimiter = c ∷ run.0; spaces = gap.0 } in
      let later = find_from wanted fuel (end_of found) gap.1 in
      let next = find_from wanted fuel (suc i) cs in
      if is_member wanted c then found ∷ later else next

  abbrev pub find_all : List ℕ → List ℕ → ℕ → List Match
  find_all wanted text offset = find_from wanted (length text) offset (drop offset text)

  -- `_is_numeric_separator`
  abbrev pub is_numeric_separator : List ℕ → ℕ → ℕ → Bool
  is_numeric_separator text start end =
      if start == 0 || not (test_at chars.is_digit (get_elem? text (start - 1)))
      then false
      else leb (length text) end || test_at chars.is_digit (get_elem? text end)

  -- `_is_token_joining_dash`
  abbrev pub is_token_joining_dash : List ℕ → ℕ → List ℕ → Bool
  is_token_joining_dash text start trailing_space =
      is_empty trailing_space
      && ltb 0 start
      && not (test_at chars.is_space (get_elem? text (start - 1)))

  -- `_is_abbreviation_token`
  abbrev pub is_abbreviation_token : List ℕ → Bool
  is_abbreviation_token token = not (is_empty token) && leb (length token) 4 && chars.is_upper token

  -- `text[idx + 1 : start]`, the letters and digits that end at a position.
  abbrev pub token_before : List ℕ → ℕ → List ℕ
  token_before text start = reverse (span chars.is_alnum (reverse (take start text))).0

  abbrev pub token_after : List ℕ → ℕ → List ℕ
  token_after text end = (span chars.is_alnum (drop end text)).0

  -- `start == 0 or not text[start - 1].isalnum()`
  abbrev pub follows_no_token : List ℕ → ℕ → Bool
  follows_no_token text start =
      start == 0 || not (test_at chars.is_alnum (get_elem? text (start - 1)))

  -- `_is_letter_joining_period`
  abbrev pub is_letter_joining_period : List ℕ → ℕ → ℕ → Bool
  is_letter_joining_period text start end =
      if follows_no_token text start
      then false
      else if leb (length text) end
      then is_abbreviation_token (token_before text start)
      else if not (test_at chars.is_alnum (get_elem? text end))
      then false
      else is_abbreviation_token (token_before text start)
        && is_abbreviation_token (token_after text end)

  -- `not rest or rest[0].isdigit() or rest[0].isupper()`
  abbrev pub begins_proper : List ℕ → Bool
  begins_proper [] = true
  begins_proper (c ∷ rest) = chars.is_digit c || chars.is_upper (c ∷ [])

  -- `idx >= 0 and text[idx] in (".", "_")`, where the token begins at `idx + 1`.
  abbrev pub follows_dot : List ℕ → ℕ → Bool
  follows_dot text zero = false
  follows_dot text (suc idx) = test_at (is_member (46 ∷ 95 ∷ [])) (get_elem? text idx)

  -- `_is_prefix_abbrev_period`
  abbrev pub is_prefix_abbrev_period : List ℕ → ℕ → ℕ → Bool
  is_prefix_abbrev_period text start end =
      let token = token_before text start in
      if follows_no_token text start
      then false
      else if follows_dot text (start - length token)
      then false
      else if not (is_listed prefix_abbr token)
      then false
      else begins_proper (lstrip chars.is_space (drop end text))

  abbrev pub separates_one : List ℕ → Match → ℕ → Bool
  separates_one text m c =
      if is_member numeric_separator_chars c && is_numeric_separator text m.start (delimiter_end m)
      then true
      else if c == 46
          && (is_letter_joining_period text m.start (delimiter_end m)
              || is_prefix_abbrev_period text m.start (delimiter_end m))
      then true
      else is_member token_joining_chars c && is_token_joining_dash text m.start m.spaces

  abbrev pub separates_inside : List ℕ → Match → List ℕ → Bool
  separates_inside text m [] = false
  separates_inside text m (c ∷ []) = separates_one text m c
  separates_inside text m (c ∷ d ∷ ds) = false

  -- `_is_intra_token_separator`
  abbrev pub is_intra_token_separator : List ℕ → Match → Bool
  is_intra_token_separator text m = separates_inside text m m.delimiter

pub data Boundary : Type 0 where
  paragraph sentence clause no_boundary : Boundary

abbrev kind_of_last : Option ℕ → Boundary
kind_of_last none = no_boundary
kind_of_last (some c) =
    if is_member sentence_end_chars c
    then sentence
    else if is_member clause_end_chars c
    then clause
    else no_boundary

unfoldable pub last_of : List ℕ → Option ℕ
last_of [] = none
last_of (c ∷ []) = some c
last_of (c ∷ d ∷ ds) = last_of (d ∷ ds)

unfoldable pub has_line_break : List ℕ → Bool
has_line_break [] = false
has_line_break (c ∷ cs) = is_member line_break_chars c || has_line_break cs

-- `_boundary_kind`
unfoldable pub boundary_kind : Characters → List ℕ → List ℕ → Boundary
boundary_kind chars text separator =
    if has_line_break separator
    then paragraph
    else kind_of_last (
        last_of (
          rstrip chars.is_space
            (rstrip (is_member trailing_wrapper_chars) (rstrip chars.is_space text))))
