-- ===== src/Clauses/Cuts.antt =====
-- What the loop of `_drain` cuts off and what it leaves.
use wyoming_vietnamese.Common.{
  Bool-cases, Option-cases, length, take, drop, length-append, take-append-drop, ℕ, zero, suc, ◌+◌,
  ◌-◌, ◌≤◌, ◌≡◌, refl, sym, ap, subst, ◌∙◌, inl, inr, Bool, false, List, [], ◌∷◌, ◌++◌, arith,
}
use mathlib.Core.List.{append_assoc, append-nil}
use wyoming_vietnamese.Clauses.{Characters}
use wyoming_vietnamese.Clauses.Spaces.{
  lstrip, rstrip, strip, keep_unless, Begins, lstrip-Begins, lstrip-same, lstrip-suffix,
  rstrip-append, take-suffix, length-rstrip,
}
use wyoming_vietnamese.Clauses.Matches.{end_of, is_empty}
use wyoming_vietnamese.Clauses.Detector.{
  Detector, yielded, cut, prepend, find_natural_boundary, drain_loop,
}

-- The clauses and their separators, one after the other.
abbrev pub joined : List (List ℕ × List ℕ) → List ℕ
joined [] = []
joined ((piece, separator) ∷ pairs) = piece ++ (separator ++ joined pairs)

joined-append : (xs ys : List (List ℕ × List ℕ)) → joined (xs ++ ys) ≡ joined xs ++ joined ys
joined-append [] ys = refl
joined-append ((piece, separator) ∷ xs) ys =
    rw (joined-append xs ys, append_assoc, append_assoc) refl

drop-append-le : (n : ℕ) (xs ys : List ℕ) → n ≤ length xs → drop n (xs ++ ys) ≡ drop n xs ++ ys
drop-append-le zero xs ys h = refl
drop-append-le (suc n) [] ys h = absurd (omega arith)
drop-append-le (suc n) (x ∷ xs) ys h = drop-append-le n xs ys (omega arith)

regroup :
    (xs ys front rest whole : List ℕ)
    → xs ++ ys ≡ whole
    → (xs ++ ((ys ++ front) ++ [])) ++ rest ≡ whole ++ (front ++ rest)
regroup xs ys front rest whole h =
    rw (append-nil, append_assoc xs (ys ++ front) rest, append_assoc ys front rest)
      (sym (append_assoc xs ys (front ++ rest)) ∙ ap (λ (u : List ℕ). u ++ (front ++ rest)) h)

Begins-take : (p : ℕ → Bool) (n : ℕ) (cs : List ℕ) → Begins p cs → Begins p (take n cs)
Begins-take p zero cs h = tt
Begins-take p (suc n) [] h = tt
Begins-take p (suc n) (c ∷ cs) h = h

length_none : (front tail : List ℕ) → front ++ tail ≡ tail → front ≡ []
length_none [] tail h = refl
length_none (c ∷ front) tail h = absurd (omega (arith, length-append (c ∷ front) tail, ap length h))

module _ (chars : Characters) where
  pub rstrip_cons :
      (c : ℕ) (cs : List ℕ)
      → chars.is_space c ≡ false
      → (t : List ℕ) × (rstrip chars.is_space (c ∷ cs) ≡ c ∷ t)
  unfolding rstrip
  rstrip_cons c cs h = kept (rstrip chars.is_space cs)
    where
      kept : (r : List ℕ) → (t : List ℕ) × (keep_unless chars.is_space c r ≡ c ∷ t)
      kept [] = ([], rw h refl)
      kept (d ∷ ds) = (d ∷ ds, refl)

  cut_none :
      (rest : List ℕ)
      → joined (
            yielded chars
              (strip chars.is_space [])
              (drop (0 - length (lstrip chars.is_space []) + length (strip chars.is_space [])) []))
          ++ rest
        ≡ rest
  unfolding lstrip rstrip
  cut_none rest = refl

  -- A head that begins with a visible character, cut off before some spaces and the rest.
  cut_head :
      (head front rest : List ℕ)
      → Begins chars.is_space head
      → (head ≡ [] → front ≡ [])
      → joined (
            yielded chars (strip chars.is_space head) (
              drop
                (length head
                  - length (lstrip chars.is_space head)
                  + length (strip chars.is_space head))
                (head ++ front)))
          ++ rest
        ≡ head ++ (front ++ rest)
  cut_head [] front rest b e = rw (e refl) (cut_none rest)
  cut_head (c ∷ cs) front rest b e =
      let (t, visible_piece) = rstrip_cons c cs b in
      let same = lstrip-same chars.is_space (c ∷ cs) b in
      let whole : (c ∷ t) ++ drop (suc (length t)) (c ∷ cs) ≡ c ∷ cs =
        subst (λ (r : List ℕ). r ++ drop (length r) (c ∷ cs) ≡ c ∷ cs) visible_piece
          (rstrip-append chars.is_space (c ∷ cs)) in
      let short : suc (length t) ≤ suc (length cs) =
        subst (λ (r : List ℕ). length r ≤ suc (length cs)) visible_piece
          (length-rstrip chars.is_space (c ∷ cs)) in
      let count : suc (length cs) - suc (length cs) + suc (length t) ≡ suc (length t) =
        omega arith in
      let split = drop-append-le (suc (length t)) (c ∷ cs) front short in
      rw (same, visible_piece, count)
        (ap (λ (u : List ℕ). ((c ∷ t) ++ (u ++ [])) ++ rest) split
          ∙ regroup (c ∷ t) (drop (suc (length t)) (c ∷ cs)) front rest (c ∷ cs) whole)

  front_none :
      (head tail front buffer : List ℕ)
      → head ++ tail ≡ buffer
      → Begins chars.is_space buffer
      → front ++ lstrip chars.is_space tail ≡ tail
      → head ≡ []
      → front ≡ []
  front_none head tail front buffer split b whole no_head =
      let same : tail ≡ buffer = ap (λ (u : List ℕ). u ++ tail) (sym no_head) ∙ split in
      let kept : lstrip chars.is_space tail ≡ tail =
        lstrip-same chars.is_space tail (subst (Begins chars.is_space) (sym same) b) in
      length_none front tail (ap (λ (u : List ℕ). front ++ u) (sym kept) ∙ whole)

  -- One round of the loop keeps the text, and what is left begins with a visible character.
  cut_lem :
      (d : Detector) (end_pos : ℕ)
      → Begins chars.is_space d.buffer
      → (joined (cut chars d end_pos).0 ++ (cut chars d end_pos).1.buffer ≡ d.buffer)
        × Begins chars.is_space (cut chars d end_pos).1.buffer
  cut_lem d end_pos b =
      let tail = drop end_pos d.buffer in
      let (front, whole) = lstrip-suffix chars.is_space tail in
      let rest = lstrip chars.is_space tail in
      let head = take end_pos d.buffer in
      let all : d.buffer ≡ (head ++ front) ++ rest =
        sym (take-append-drop end_pos d.buffer)
        ∙ ap (λ (u : List ℕ). head ++ u) (sym whole)
        ∙ sym (append_assoc head front rest) in
      let before : take (length d.buffer - length rest) d.buffer ≡ head ++ front =
        ap (λ (u : List ℕ). take (length u - length rest) u) all
        ∙ take-suffix (head ++ front) rest in
      (
        rw before (
            cut_head head front rest (Begins-take chars.is_space end_pos d.buffer b)
              (front_none head tail front d.buffer (take-append-drop end_pos d.buffer) b whole)
            ∙ sym (append_assoc head front rest)
            ∙ sym all),
        lstrip-Begins chars.is_space tail,
      )

  glue :
      (xs ys : List (List ℕ × List ℕ)) (last middle whole : List ℕ)
      → joined ys ++ last ≡ middle
      → joined xs ++ middle ≡ whole
      → joined (xs ++ ys) ++ last ≡ whole
  glue xs ys last middle whole h h' =
      rw (joined-append, append_assoc) (ap (λ (u : List ℕ). joined xs ++ u) h ∙ h')

  -- The pairs and the buffer of a run hold the text of the buffer before it.
  abbrev pub Keeps : Detector → List (List ℕ × List ℕ) × Detector → Type 0
  Keeps d r = (joined r.0 ++ r.1.buffer ≡ d.buffer) × Begins chars.is_space r.1.buffer

  round-Keeps :
      (run : Detector → List (List ℕ × List ℕ) × Detector)
      → ((d : Detector) → Begins chars.is_space d.buffer → Keeps d (run d))
      → (d : Detector) (end_pos : ℕ) → Begins chars.is_space d.buffer
      → Keeps d (prepend chars (cut chars d end_pos).0 (run (cut chars d end_pos).1))
  round-Keeps run h d end_pos b =
      let (kept, b') = cut_lem d end_pos b in
      let (kept', b'') = h (cut chars d end_pos).1 b' in
      let after = run (cut chars d end_pos).1 in
      (
        glue (cut chars d end_pos).0 after.0 after.1.buffer (cut chars d end_pos).1.buffer d.buffer
            kept' kept,
        b'',
      )

  pub drain_loop-Keeps :
      (fuel : ℕ) (d : Detector) → Begins chars.is_space d.buffer → Keeps d (drain_loop chars fuel d)
  unfolding drain_loop
  drain_loop-Keeps zero d b = (refl, b)
  drain_loop-Keeps (suc fuel) d b = elim (Bool-cases (is_empty d.buffer)) [
    | inl no_text ↦ rw no_text (refl, b)
    | inr some_text ↦ rw some_text (elim (Option-cases (find_natural_boundary chars d).1) [
      | inl no_match ↦ rw no_match (refl, b)
      | inr (m, found) ↦ rw found (
          round-Keeps (drain_loop chars fuel) (λ d' b'. drain_loop-Keeps fuel d' b')
            (record d { scan_offset = (find_natural_boundary chars d).0 }) (end_of m) b)
    ])
  ]
