-- ===== src/Protobuf/Model.antt =====
-- A SentencePiece model that `_encode_protobuf_text_field` writes, and the pieces that are read from
-- it: each entry is a text field 1 that holds the piece's text as its field 1, and a score.
use wyoming_vietnamese.Common.{
  length, take, drop, All, length-append, Result, ◌>>=◌, ok, ℕ, zero, suc, ◌+◌, ◌^◌, ◌≤◌, ◌<◌, ◌≡◌,
  refl, ap, ◌∙◌, Option, none, some, List, [], ◌∷◌, ◌++◌, arith,
}
use Prim.Native.String.{String}
use mathlib.Core.List.{map, append_assoc, append-nil}
use wyoming_vietnamese.Protobuf.Varint.{read_varint, encode_text_field}
use wyoming_vietnamese.Protobuf.RoundTrip.{
  read_last, encode_varint-length, encode_small, read_varint-encode_varint,
}
use wyoming_vietnamese.Protobuf.Pieces.{
  split_at, advance, skip_field, read_text, entry_step, entry_loop, read_entry, model_step,
  model_loop, parse_pieces,
}

take-length : (xs rest : List ℕ) → take (length xs) (xs ++ rest) ≡ xs
take-length [] rest = refl
take-length (x ∷ xs) rest = ap (◌∷◌ x) (take-length xs rest)

drop-length : (xs rest : List ℕ) → drop (length xs) (xs ++ rest) ≡ rest
drop-length [] rest = refl
drop-length (x ∷ xs) rest = drop-length xs rest

split_at-length : (xs rest : List ℕ) → split_at (length xs) (xs ++ rest) ≡ ok (xs, rest)
unfolding split_at
split_at-length xs rest =
    ground (arith, length-append xs rest, take-length xs rest, drop-length xs rest)

read_small :
    (value : ℕ) (rest : List ℕ) → value < 128 → read_varint (value ∷ rest) ≡ ok (value, rest)
unfolding read_varint
read_small value rest h =
    read_last value 0 0 rest h (omega arith) (omega arith)
    ∙ ap (λ (t : ℕ). ok (t, rest)) (omega arith)

-- A text field 1 is its tag, a length that reads back, and its bytes.
encode_text_field_one :
    (bytes : List ℕ)
    → length bytes < 2 ^ 70
    → (size : List ℕ) × (encode_text_field 1 bytes ≡ ok (10 ∷ (size ++ bytes)))
      × ((rest : List ℕ) → read_varint (size ++ rest) ≡ ok (length bytes, rest))
      × (length size ≤ 10)
unfolding encode_text_field
encode_text_field_one bytes h =
    let (size, writes, reads) = read_varint-encode_varint (length bytes) h in
    (
      size,
      rw (encode_small 10 (omega arith), writes) refl,
      reads,
      encode_varint-length (length bytes) size h writes,
    )

drop_all : (n : ℕ) (xs : List ℕ) → length xs ≡ n → drop n xs ≡ []
drop_all zero [] h = refl
drop_all zero (x ∷ xs) h = absurd (omega arith)
drop_all (suc n) [] h = refl
drop_all (suc n) (x ∷ xs) h = drop_all n xs (omega arith)

pub record Piece : Type 0 where
  pub text : List ℕ
  pub score : List ℕ

-- The score is a 32-bit float, in four bytes, and the lengths fit a varint.
abbrev pub IsPiece : Piece → Type 0
IsPiece p = (length p.score ≡ 4) × (length p.text < 2 ^ 60)

-- `21` is the tag of field 2 as 32 bits.
abbrev pub encode_piece : Piece → Result (List ℕ)
encode_piece p = do text ← encode_text_field 1 p.text; encode_text_field 1 (text ++ (21 ∷ p.score))

abbrev pub encode_model : List Piece → Result (List ℕ)
encode_model [] = ok []
encode_model (p ∷ ps) = do entry ← encode_piece p; rest ← encode_model ps; ok (entry ++ rest)

module _ (decode : List ℕ → Option String) where
  read_text_lem :
      (text size rest : List ℕ) (s : String)
      → ((r : List ℕ) → read_varint (size ++ r) ≡ ok (length text, r))
      → decode text ≡ some s
      → read_text decode (size ++ (text ++ rest)) ≡ ok (some s, rest)
  unfolding read_text
  read_text_lem text size rest s reads d = rw (reads (text ++ rest), split_at-length text rest, d)

  skip_score :
      (score : List ℕ) (piece : Option String)
      → length score ≡ 4
      → entry_step decode piece (21 ∷ score) ≡ ok (piece, [])
  unfolding entry_step skip_field advance
  skip_score score piece h =
      rw (read_small 21 score (omega arith)) (ground (arith, drop_all 4 score h))

  -- The message of an entry.
  entry_loop_lem :
      (p : Piece) (size : List ℕ) (s : String) (fuel : ℕ)
      → 2 ≤ fuel
      → length p.score ≡ 4
      → ((r : List ℕ) → read_varint (size ++ r) ≡ ok (length p.text, r))
      → decode p.text ≡ some s
      → entry_loop decode fuel none (10 ∷ (size ++ (p.text ++ (21 ∷ p.score)))) ≡ ok (some s)
  unfolding entry_loop entry_step
  entry_loop_lem p size s zero enough h reads d = absurd (omega arith)
  entry_loop_lem p size s (suc zero) enough h reads d = absurd (omega arith)
  entry_loop_lem p size s (suc (suc fuel)) enough h reads d =
      rw
        (
          read_small 10 (size ++ (p.text ++ (21 ∷ p.score))) (omega arith),
          read_text_lem p.text size (21 ∷ p.score) s reads d,
        )
        (rw (skip_score p.score (some s) h))

  read_message :
      (message size rest : List ℕ) (s : String)
      → ((r : List ℕ) → read_varint (size ++ r) ≡ ok (length message, r))
      → entry_loop decode (length message) none message ≡ ok (some s)
      → model_step decode (10 ∷ ((size ++ message) ++ rest)) ≡ ok (some s, rest)
  unfolding model_step read_entry
  read_message message size rest s reads found =
      rw
        (
          append_assoc size message rest,
          read_small 10 (size ++ (message ++ rest)) (omega arith),
          reads (message ++ rest),
          split_at-length message rest,
          found,
        )
        refl

  -- One entry is read as its piece, and what follows it is left.
  model_step_lem :
      (p : Piece) (s : String) (rest : List ℕ)
      → IsPiece p
      → decode p.text ≡ some s
      → (tail : List ℕ) × (encode_piece p ≡ ok (10 ∷ tail))
        × (model_step decode (10 ∷ (tail ++ rest)) ≡ ok (some s, rest))
  model_step_lem p s rest v d =
      let (size, writes, reads, short) = encode_text_field_one p.text (omega (arith, v.1)) in
      let message = 10 ∷ (size ++ (p.text ++ (21 ∷ p.score))) in
      let message_length : length message ≡ length size + length p.text + 6 =
        grind (arith, v, length-append) in
      let found =
        entry_loop_lem p size s (length message) (omega (arith, message_length)) v.0 reads d in
      let (size', writes', reads', _) =
        encode_text_field_one message (omega (arith, message_length, short, v.1)) in
      (
        size' ++ message,
        rw (writes, append_assoc size p.text (21 ∷ p.score)) writes',
        read_message message size' rest s reads' found,
      )

  -- A piece that can be written, and the text that its bytes decode to.
  abbrev IsDecoded : Piece × String → Type 0
  IsDecoded (p, s) = IsPiece p × (decode p.text ≡ some s)

  model_loop_lem :
      (ps : List (Piece × String)) (read : List String) (fuel : ℕ)
      → All IsDecoded ps
      → (bytes : List ℕ) × (encode_model (map (λ q. q.0) ps) ≡ ok bytes)
        × (length bytes ≤ fuel → model_loop decode fuel read bytes ≡ ok (read ++ map (λ q. q.1) ps))
  unfolding model_loop
  model_loop_lem [] read fuel v = ([], refl, λ h. rw append-nil refl)
  model_loop_lem ((p, s) ∷ ps) read zero ((v, d), vs) =
      let (bytes, writes, _) = model_loop_lem ps read zero vs in
      let (tail, writes', _) = model_step_lem p s bytes v d in
      (10 ∷ (tail ++ bytes), rw (writes', writes) refl, λ h. absurd (omega arith))
  model_loop_lem ((p, s) ∷ ps) read (suc fuel) ((v, d), vs) =
      let (bytes, writes, reads) = model_loop_lem ps (read ++ s ∷ []) fuel vs in
      let (tail, writes', step) = model_step_lem p s bytes v d in
      (
        10 ∷ (tail ++ bytes),
        rw (writes', writes) refl,
        λ h.
            let fits : length bytes ≤ fuel = grind (arith, h, length-append) in
            rw (step, reads fits, append_assoc read (s ∷ []) (map (λ q. q.1) ps)) refl,
      )

-- A model of at least one piece, each with a four-byte score and a text that decodes and has fewer
-- than 2^60 bytes, is written by the encoder, and the parser reads the texts of its pieces back in
-- order.
pub parse_pieces-encode_model :
    (decode : List ℕ → Option String) (p : Piece × String) (ps : List (Piece × String))
    → All (IsDecoded decode) (p ∷ ps)
    → (bytes : List ℕ) × (encode_model (map (λ q. q.0) (p ∷ ps)) ≡ ok bytes)
      × (parse_pieces decode bytes ≡ ok (map (λ q. q.1) (p ∷ ps)))
unfolding parse_pieces
parse_pieces-encode_model decode p ps v =
    let (bytes, writes, _) = model_loop_lem decode (p ∷ ps) [] 0 v in
    let (bytes', writes', reads) = model_loop_lem decode (p ∷ ps) [] (length bytes) v in
    let same : bytes' ≡ bytes = cc in
    let found : model_loop decode (length bytes') [] bytes' ≡ ok (map (λ q. q.1) (p ∷ ps)) =
      ap (λ b. model_loop decode (length b) [] bytes') same
      ∙ reads (omega (arith, ap length same)) in
    (bytes', writes', rw found refl)
