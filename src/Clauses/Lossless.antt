-- ===== src/Clauses/Lossless.antt =====
-- No text is lost or changed where a text is cut into clauses.
use wyoming_vietnamese.Common.{
  leb, if◌then◌else◌, Bool-cases, length, ℕ, suc, ◌≡◌, refl, sym, ap, subst, ◌∙◌, ◌≢◌, inl, inr,
  Bool, true, false, ◌||◌, List, [], ◌∷◌, ◌++◌, arith,
}
use mathlib.Core.List.{append_assoc, append-nil}
use wyoming_vietnamese.Clauses.{Characters, default_min_clause_chars}
use wyoming_vietnamese.Clauses.Spaces.{
  lstrip, rstrip, strip, keep_unless, Begins, Ends, lstrip-Begins, lstrip-same,
}
use wyoming_vietnamese.Clauses.Matches.{boundary_kind}
use wyoming_vietnamese.Clauses.Detector.{
  init, add_chunk_with_separators, finish, attach, with_remainder, split_trimmed,
  split_clause_text_with_separators, ends_sentence,
}
use wyoming_vietnamese.Clauses.Cuts.{joined, rstrip_cons, drain_loop-Keeps}

module _ (chars : Characters) where
  -- The tail that is attached or appended is the rest of the text.
  attach_lem :
      (min_clause_chars : ℕ) (remainder : List ℕ) (pairs : List (List ℕ × List ℕ))
      → joined (attach chars min_clause_chars remainder pairs) ≡ joined pairs ++ remainder
  unfolding attach
  attach_lem n r [] = rw append-nil refl
  attach_lem n r ((piece, separator) ∷ []) =
      attached piece separator
        (leb n (length r) || ends_sentence chars (boundary_kind chars piece separator))
    where
      attached :
          (piece separator : List ℕ) (apart : Bool)
          → joined (
              if apart
              then (piece, separator) ∷ (r, []) ∷ []
              else (piece ++ (separator ++ r), []) ∷ [])
            ≡ (piece ++ (separator ++ [])) ++ r
      attached piece separator true = rw (append-nil, append_assoc, append-nil) refl
      attached piece separator false =
          rw (append-nil, append-nil) (sym (append_assoc piece separator r))
  attach_lem n r ((piece, separator) ∷ next ∷ pairs) =
      ap (λ (u : List ℕ). piece ++ (separator ++ u)) (attach_lem n r (next ∷ pairs))
      ∙ ap (λ (u : List ℕ). piece ++ u) (sym (append_assoc separator (joined (next ∷ pairs)) r))
      ∙ sym (append_assoc piece (separator ++ joined (next ∷ pairs)) r)

  -- A text ends the way its last part does.
  keep_unless-same :
      (c : ℕ) (r cs : List ℕ)
      → r ≡ rstrip chars.is_space cs
      → keep_unless chars.is_space c r ≡ c ∷ cs
      → r ≡ cs
  keep_unless-same c [] cs e h = elim (Bool-cases (chars.is_space c)) [
    | inl space ↦ grind arith
    | inr other ↦ cc
  ]
  keep_unless-same c (d ∷ ds) cs e h = cc

  Ends-append : (xs ys : List ℕ) → Ends chars.is_space (xs ++ ys) → Ends chars.is_space ys
  unfolding rstrip
  Ends-append [] ys h = h
  Ends-append (x ∷ xs) ys h =
      Ends-append xs ys (keep_unless-same x (rstrip chars.is_space (xs ++ ys)) (xs ++ ys) refl h)

  keep_unless-Ends :
      (c : ℕ) (r : List ℕ)
      → Ends chars.is_space r
      → Ends chars.is_space (keep_unless chars.is_space c r)
  unfolding rstrip
  keep_unless-Ends c [] h = elim (Bool-cases (chars.is_space c)) [
    | inl space ↦ rw space refl
    | inr other ↦ rw (other, other) refl
  ]
  keep_unless-Ends c (d ∷ ds) h = rw h refl

  rstrip-Ends : (cs : List ℕ) → Ends chars.is_space (rstrip chars.is_space cs)
  unfolding rstrip
  rstrip-Ends [] = refl
  rstrip-Ends (c ∷ cs) = keep_unless-Ends c (rstrip chars.is_space cs) (rstrip-Ends cs)

  pub rstrip-Begins :
      (cs : List ℕ) → Begins chars.is_space cs → Begins chars.is_space (rstrip chars.is_space cs)
  unfolding rstrip
  rstrip-Begins [] b = tt
  rstrip-Begins (c ∷ cs) b =
      let (t, e) = rstrip_cons chars c cs b in subst (Begins chars.is_space) (sym e) b

  with_remainder_lem :
      (n : ℕ) (remainder : List ℕ) (pairs : List (List ℕ × List ℕ))
      → joined (with_remainder chars n remainder pairs) ≡ joined pairs ++ remainder
  with_remainder_lem n [] pairs = sym (append-nil (joined pairs))
  with_remainder_lem n (c ∷ remainder) pairs = attach_lem n (c ∷ remainder) pairs

  split_trimmed_lem :
      (split_clauses : Bool) (trimmed : List ℕ)
      → Begins chars.is_space trimmed
      → Ends chars.is_space trimmed
      → joined (split_trimmed chars split_clauses trimmed) ≡ trimmed
  unfolding add_chunk_with_separators finish
  split_trimmed_lem split_clauses [] b e = refl
  split_trimmed_lem split_clauses (c ∷ trimmed) b e =
      let d = init default_min_clause_chars split_clauses in
      let run = add_chunk_with_separators chars d (c ∷ trimmed) in
      let (kept, begins) =
        drain_loop-Keeps chars (suc (length (c ∷ trimmed))) (record d { buffer = c ∷ trimmed }) b in
      let last : strip chars.is_space run.1.buffer ≡ run.1.buffer =
        ap (rstrip chars.is_space) (lstrip-same chars.is_space run.1.buffer begins)
        ∙ Ends-append (joined run.0) run.1.buffer (subst (Ends chars.is_space) (sym kept) e) in
      with_remainder_lem default_min_clause_chars (strip chars.is_space run.1.buffer) run.0
      ∙ ap (λ (u : List ℕ). joined run.0 ++ u) last
      ∙ kept

  -- Whatever the characters are, the clauses of a text and their separators, one after the other,
  -- are the text without the spaces around it: cutting it into clauses changes nothing of it.
  pub joined-split_clause_text_with_separators :
      (text : List ℕ) (split_clauses : Bool)
      → joined (split_clause_text_with_separators chars text split_clauses)
        ≡ strip chars.is_space text
  unfolding split_clause_text_with_separators
  joined-split_clause_text_with_separators text split_clauses =
      split_trimmed_lem split_clauses (strip chars.is_space text)
        (rstrip-Begins (lstrip chars.is_space text) (lstrip-Begins chars.is_space text))
        (rstrip-Ends (lstrip chars.is_space text))

  -- A text that begins with a visible character has a clause.
  pub split_clause_text_with_separators-nonempty :
      (c : ℕ) (text : List ℕ) (split_clauses : Bool)
      → chars.is_space c ≡ false
      → split_clause_text_with_separators chars (c ∷ text) split_clauses ≢ []
  split_clause_text_with_separators-nonempty c text split_clauses b none_left =
      let (t, cut_text) = rstrip_cons chars c text b in
      let empty : [] ≡ c ∷ t =
        ap joined (sym none_left)
        ∙ joined-split_clause_text_with_separators (c ∷ text) split_clauses
        ∙ ap (rstrip chars.is_space) (lstrip-same chars.is_space (c ∷ text) b)
        ∙ cut_text in
      cc
