-- ===== src/Clauses/Progress.antt =====
-- The loop of `_drain` ends: every match it cuts at takes a character at least.
use wyoming_vietnamese.Common.{
  ltb, Bool-cases, Option-cases, length, drop, length-drop, ℕ, zero, suc, ◌≤◌, ◌<◌, ◌≡◌, refl, ap,
  subst, inl, inr, Bool, false, Option, none, some, List, [], ◌∷◌, arith,
}
use wyoming_vietnamese.Clauses.{
  Characters, is_member, sentence_end_chars, clause_end_chars, line_break_chars,
}
use wyoming_vietnamese.Clauses.Spaces.{length-lstrip}
use wyoming_vietnamese.Clauses.Matches.{
  Match, end_of, is_empty, find_from, is_intra_token_separator,
}
use wyoming_vietnamese.Clauses.Detector.{
  Detector, cut, prepend, select, earlier, first_text_boundary, clause_matches,
  find_natural_boundary, drain_loop,
}

-- Every match of the list takes a character.
abbrev Taking : List Match → Type 0
Taking [] = Unit {0}
Taking (m ∷ ms) = (1 ≤ end_of m) × Taking ms

-- The match, if there is one, takes a character.
abbrev MaybeTaking : Option Match → Type 0
MaybeTaking none = Unit {0}
MaybeTaking (some m) = 1 ≤ end_of m

select-Taking : (p : Match → Bool) (ms : List Match) → Taking ms → Taking (select p ms)
unfolding select
select-Taking p [] h = tt
select-Taking p (m ∷ ms) (h, hs) = elim (Bool-cases (p m)) [
  | inl holds ↦ rw holds (h, select-Taking p ms hs)
  | inr fails ↦ rw fails (select-Taking p ms hs)
]

earlier-MaybeTaking :
    (m n : Option Match) → MaybeTaking m → MaybeTaking n → MaybeTaking (earlier m n)
earlier-MaybeTaking none n h h' = h'
earlier-MaybeTaking (some m) none h h' = h
earlier-MaybeTaking (some m) (some n) h h' = elim (Bool-cases (ltb n.start m.start)) [
  | inl holds ↦ rw holds h'
  | inr fails ↦ rw fails h
]

module _ (chars : Characters) where
  find_from-Taking :
      (wanted : List ℕ) (fuel i : ℕ) (cs : List ℕ) → Taking (find_from chars wanted fuel i cs)
  unfolding find_from
  find_from-Taking wanted zero i cs = tt
  find_from-Taking wanted (suc fuel) i [] = tt
  find_from-Taking wanted (suc fuel) i (c ∷ cs) = elim (Bool-cases (is_member wanted c)) [
    | inl holds ↦ rw holds (omega arith, find_from-Taking wanted fuel _ _)
    | inr fails ↦ rw fails (find_from-Taking wanted fuel (suc i) cs)
  ]

  first_text_boundary-MaybeTaking :
      (buffer : List ℕ) (ms : List Match)
      → Taking ms
      → MaybeTaking (first_text_boundary chars buffer ms)
  unfolding first_text_boundary
  first_text_boundary-MaybeTaking buffer [] h = tt
  first_text_boundary-MaybeTaking buffer (m ∷ ms) (h, hs) =
      elim (Bool-cases (is_intra_token_separator chars buffer m)) [
        | inl holds ↦ rw holds (first_text_boundary-MaybeTaking buffer ms hs)
        | inr fails ↦ rw fails h
      ]

  clause_matches-Taking : (d : Detector) → Taking (clause_matches chars d)
  clause_matches-Taking d = elim (Bool-cases d.split_clauses) [
    | inl holds ↦ rw holds (find_from-Taking clause_end_chars _ _ _)
    | inr fails ↦ rw fails tt
  ]

  find_natural_boundary-MaybeTaking : (d : Detector) → MaybeTaking (find_natural_boundary chars d).1
  unfolding find_natural_boundary
  find_natural_boundary-MaybeTaking d =
      earlier-MaybeTaking _ _
        (first_text_boundary-MaybeTaking d.buffer _ (find_from-Taking line_break_chars _ _ _))
        (earlier-MaybeTaking _ _
          (first_text_boundary-MaybeTaking d.buffer _ (find_from-Taking sentence_end_chars _ _ _))
          (first_text_boundary-MaybeTaking d.buffer _
            (select-Taking _ _ (clause_matches-Taking d))))

  length-nonempty : (cs : List ℕ) → is_empty cs ≡ false → 1 ≤ length cs
  length-nonempty [] h = cc
  length-nonempty (c ∷ cs) h = omega arith

  -- A cut at a match leaves less of the buffer.
  length-cut :
      (d : Detector) (end_pos : ℕ)
      → 1 ≤ end_pos
      → is_empty d.buffer ≡ false
      → length (cut chars d end_pos).1.buffer < length d.buffer
  length-cut d end_pos h e =
      let held = length-nonempty d.buffer e in
      let shorter = length-drop end_pos d.buffer in
      let trimmed = length-lstrip chars.is_space (drop end_pos d.buffer) in omega arith

  -- More fuel than the buffer has characters changes nothing of what the loop of `_drain` yields or
  -- of the detector it leaves: the model's bound cuts no run short.
  pub drain_loop-enough :
      (fuel fuel' : ℕ) (d : Detector)
      → length d.buffer < fuel
      → length d.buffer < fuel'
      → drain_loop chars fuel d ≡ drain_loop chars fuel' d
  unfolding drain_loop
  drain_loop-enough zero fuel' d h h' = absurd (omega arith)
  drain_loop-enough (suc fuel) zero d h h' = absurd (omega arith)
  drain_loop-enough (suc fuel) (suc fuel') d h h' = elim (Bool-cases (is_empty d.buffer)) [
    | inl no_text ↦ rw no_text refl
    | inr some_text ↦ rw some_text (elim (Option-cases (find_natural_boundary chars d).1) [
      | inl no_match ↦ rw no_match refl
      | inr (m, found) ↦
          let scanned = record d { scan_offset = (find_natural_boundary chars d).0 } in
          let takes : 1 ≤ end_of m =
            subst MaybeTaking found (find_natural_boundary-MaybeTaking d) in
          let shorter = length-cut scanned (end_of m) takes some_text in
          rw found (
            ap (prepend chars (cut chars scanned (end_of m)).0) (
              drain_loop-enough fuel fuel' (cut chars scanned (end_of m)).1 (omega arith)
                (omega arith)))
    ])
  ]
