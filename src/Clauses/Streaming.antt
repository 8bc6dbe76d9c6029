-- ===== src/Clauses/Streaming.antt =====
-- A text that arrives in chunks: what `add_chunk_with_separators` and `finish` yield of it.
use wyoming_vietnamese.Common.{
  Bool-cases, Option-cases, length, take, drop, take-append-drop, ℕ, zero, suc, ◌≡◌, refl, sym, ap,
  ◌∙◌, inl, inr, Bool, List, [], ◌∷◌, ◌++◌,
}
use wyoming_vietnamese.Clauses.{Characters}
use wyoming_vietnamese.Clauses.Spaces.{
  strip, visible, visible-append, visible-lstrip, visible-strip,
}
use wyoming_vietnamese.Clauses.Matches.{end_of, is_empty}
use wyoming_vietnamese.Clauses.Detector.{
  Detector, yielded, cut, prepend, find_natural_boundary, drain_loop, add_chunk_with_separators,
  finish, init,
}
use mathlib.Core.List.{append_assoc, append-nil}

-- The clauses alone.
abbrev pub pieces : List (List ℕ × List ℕ) → List ℕ
pieces [] = []
pieces ((piece, separator) ∷ pairs) = piece ++ pieces pairs

pieces-append : (xs ys : List (List ℕ × List ℕ)) → pieces (xs ++ ys) ≡ pieces xs ++ pieces ys
pieces-append [] ys = refl
pieces-append ((piece, separator) ∷ xs) ys = rw (pieces-append xs ys, append_assoc) refl

-- The text of the chunks.
abbrev pub whole_text : List (List ℕ) → List ℕ
whole_text [] = []
whole_text (text ∷ texts) = text ++ whole_text texts

module _ (chars : Characters) where
  -- What is seen of the text of a run: the clauses it yields, then the buffer it leaves.
  abbrev pub seen : List (List ℕ × List ℕ) × Detector → List ℕ
  seen r = visible chars.is_space (pieces r.0) ++ visible chars.is_space r.1.buffer

  pieces-yielded : (piece separator : List ℕ) → pieces (yielded chars piece separator) ≡ piece
  pieces-yielded [] separator = refl
  pieces-yielded (c ∷ piece) separator = append-nil (c ∷ piece)

  both : {xs xs' ys ys' : List ℕ} → xs ≡ xs' → ys ≡ ys' → xs ++ ys ≡ xs' ++ ys'
  both h h' = rw (h, h') refl

  seen-cut :
      (d : Detector) (end_pos : ℕ) → seen (cut chars d end_pos) ≡ visible chars.is_space d.buffer
  seen-cut d end_pos =
      both
        (ap (visible chars.is_space) (
            pieces-yielded (strip chars.is_space (take end_pos d.buffer))
              (cut chars d end_pos).1.trailing_separator)
          ∙ visible-strip chars.is_space (take end_pos d.buffer))
        (visible-lstrip chars.is_space (drop end_pos d.buffer))
      ∙ sym (visible-append chars.is_space (take end_pos d.buffer) (drop end_pos d.buffer))
      ∙ ap (visible chars.is_space) (take-append-drop end_pos d.buffer)

  seen-prepend :
      (pairs : List (List ℕ × List ℕ)) (r : List (List ℕ × List ℕ) × Detector)
      → seen (prepend chars pairs r) ≡ visible chars.is_space (pieces pairs) ++ seen r
  seen-prepend pairs (more, d) =
      ap (λ (u : List ℕ). u ++ visible chars.is_space d.buffer)
        (ap (visible chars.is_space) (pieces-append pairs more)
          ∙ visible-append chars.is_space (pieces pairs) (pieces more))
      ∙ append_assoc (visible chars.is_space (pieces pairs)) (visible chars.is_space (pieces more))
          (visible chars.is_space d.buffer)

  -- One round, with `run` for the rest of the loop.
  seen-round :
      (run : Detector → List (List ℕ × List ℕ) × Detector)
      → ((d : Detector) → seen (run d) ≡ visible chars.is_space d.buffer)
      → (end_pos : ℕ) (d : Detector)
      → seen (prepend chars (cut chars d end_pos).0 (run (cut chars d end_pos).1))
        ≡ visible chars.is_space d.buffer
  seen-round run h end_pos d =
      seen-prepend (cut chars d end_pos).0 (run (cut chars d end_pos).1)
      ∙ ap (λ (u : List ℕ). visible chars.is_space (pieces (cut chars d end_pos).0) ++ u)
          (h (cut chars d end_pos).1)
      ∙ seen-cut d end_pos

  seen-drain_loop :
      (fuel : ℕ) (d : Detector) → seen (drain_loop chars fuel d) ≡ visible chars.is_space d.buffer
  unfolding drain_loop visible
  seen-drain_loop zero d = refl
  seen-drain_loop (suc fuel) d = elim (Bool-cases (is_empty d.buffer)) [
    | inl no_text ↦ rw no_text refl
    | inr some_text ↦ rw some_text (elim (Option-cases (find_natural_boundary chars d).1) [
      | inl no_match ↦ rw no_match refl
      | inr (m, found) ↦ rw found (
          seen-round (drain_loop chars fuel) (λ d'. seen-drain_loop fuel d') (end_of m)
            (record d { scan_offset = (find_natural_boundary chars d).0 }))
    ])
  ]

  -- The clauses of the chunks, one chunk after the other.
  unfoldable pub add_chunks : Detector → List (List ℕ) → List (List ℕ × List ℕ) × Detector
  add_chunks d [] = ([], d)
  add_chunks d (text ∷ texts) =
      let first = add_chunk_with_separators chars d text in
      prepend chars first.0 (add_chunks first.1 texts)

  seen-add_chunks :
      (texts : List (List ℕ)) (d : Detector)
      → seen (add_chunks d texts) ≡ visible chars.is_space (d.buffer ++ whole_text texts)
  unfolding add_chunks add_chunk_with_separators visible
  seen-add_chunks [] d = ap (visible chars.is_space) (sym (append-nil d.buffer))
  seen-add_chunks (text ∷ texts) d =
      let first = add_chunk_with_separators chars d text in
      seen-prepend first.0 (add_chunks first.1 texts)
      ∙ ap (λ (u : List ℕ). visible chars.is_space (pieces first.0) ++ u)
          (seen-add_chunks texts first.1
            ∙ visible-append chars.is_space first.1.buffer (whole_text texts))
      ∙ sym (
          append_assoc (visible chars.is_space (pieces first.0))
            (visible chars.is_space first.1.buffer) (visible chars.is_space (whole_text texts)))
      ∙ ap (λ (u : List ℕ). u ++ visible chars.is_space (whole_text texts))
          (seen-drain_loop (suc (length (d.buffer ++ text)))
            (record d { buffer = d.buffer ++ text }))
      ∙ sym (visible-append chars.is_space (d.buffer ++ text) (whole_text texts))
      ∙ ap (visible chars.is_space) (append_assoc d.buffer text (whole_text texts))

  -- Whatever the characters are and however a text is cut into chunks, the clauses that a new
  -- detector yields for the chunks and the text that it finishes with are, their spaces left out,
  -- the text of the chunks, its spaces left out: nothing else is lost, added or moved.
  pub visible-add_chunks :
      (texts : List (List ℕ)) (min_clause_chars : ℕ) (split_clauses : Bool)
      → visible chars.is_space (
          pieces (add_chunks (init min_clause_chars split_clauses) texts).0
          ++ (finish chars (add_chunks (init min_clause_chars split_clauses) texts).1).0)
        ≡ visible chars.is_space (whole_text texts)
  unfolding finish visible
  visible-add_chunks texts min_clause_chars split_clauses =
      let r = add_chunks (init min_clause_chars split_clauses) texts in
      visible-append chars.is_space (pieces r.0) (strip chars.is_space r.1.buffer)
      ∙ ap (λ (u : List ℕ). visible chars.is_space (pieces r.0) ++ u)
          (visible-strip chars.is_space r.1.buffer)
      ∙ seen-add_chunks texts (init min_clause_chars split_clauses)
