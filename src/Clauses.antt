-- ===== src/Clauses.antt =====
-- `StreamClauseDetector` of wyoming_vietnamese/tts.py and the functions on boundaries before it. A
-- text is the list of its code points. What Python's `isspace`, `isdigit`, `isalnum` and `isupper`
-- say of a character or a token is a parameter.
pub mod Spaces
pub mod Matches
pub mod Detector
pub mod Cuts
pub mod Lossless
pub mod Streaming
pub mod Progress
mod Examples
use wyoming_vietnamese.Common.{◌==◌, if◌then◌else◌, ℕ, Bool, true, false, List, [], ◌∷◌, ◌++◌}

pub record Characters : Type 0 where
  pub is_space : ℕ → Bool
  pub is_digit : ℕ → Bool
  pub is_alnum : ℕ → Bool
  pub is_upper : List ℕ → Bool

unfoldable pub is_member : List ℕ → ℕ → Bool
is_member [] c = false
is_member (x ∷ xs) c = if x == c then true else is_member xs c

-- `.!?…`
abbrev pub sentence_end_chars : List ℕ
sentence_end_chars = 46 ∷ 33 ∷ 63 ∷ 8230 ∷ []

-- `,;:–—-`
abbrev pub clause_end_chars : List ℕ
clause_end_chars = 44 ∷ 59 ∷ 58 ∷ 8211 ∷ 8212 ∷ 45 ∷ []

abbrev pub line_break_chars : List ℕ
line_break_chars = 10 ∷ []

abbrev pub all_delimiter_chars : List ℕ
all_delimiter_chars = sentence_end_chars ++ (clause_end_chars ++ line_break_chars)

-- `,.:–—-`
abbrev pub numeric_separator_chars : List ℕ
numeric_separator_chars = 44 ∷ 46 ∷ 58 ∷ 8211 ∷ 8212 ∷ 45 ∷ []

-- `–—-`
abbrev pub token_joining_chars : List ℕ
token_joining_chars = 8211 ∷ 8212 ∷ 45 ∷ []

-- TP, Q, P, H, TX, TT and KP.
abbrev pub prefix_abbr : List (List ℕ)
prefix_abbr =
    (84 ∷ 80 ∷ [])
    ∷ (81 ∷ [])
    ∷ (80 ∷ [])
    ∷ (72 ∷ [])
    ∷ (84 ∷ 88 ∷ [])
    ∷ (84 ∷ 84 ∷ [])
    ∷ (75 ∷ 80 ∷ [])
    ∷ []

-- `"')]}»”’`
abbrev pub trailing_wrapper_chars : List ℕ
trailing_wrapper_chars = 34 ∷ 39 ∷ 41 ∷ 93 ∷ 125 ∷ 187 ∷ 8221 ∷ 8217 ∷ []

abbrev pub default_min_clause_chars : ℕ
default_min_clause_chars = 15
