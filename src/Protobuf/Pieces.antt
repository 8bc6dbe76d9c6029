-- ===== src/Protobuf/Pieces.antt =====
-- `_skip_protobuf_field` and the parser of `_generate_tokens_from_bpe` of
-- wyoming_vietnamese/download.py. A pair of an offset and a limit is the list of the bytes between
-- them: `offset > limit` means that more bytes are wanted than the list has. `decode` is
-- `bytes.decode("utf-8")`, with `none` for its `UnicodeDecodeError`, which is a `ValueError`.
use wyoming_vietnamese.Common.{
  ltb, ◌==◌, if◌then◌else◌, length, take, drop, Result, ◌>>=◌, value_error, runtime_error, ok,
  raise, ℕ, zero, suc, ◌/◌, ◌%◌, ◌^◌, Bool, ◌&&◌, Option, none, some, List, [], ◌∷◌, ◌++◌,
}
use Prim.Native.String.{String}
use wyoming_vietnamese.Protobuf.Varint.{read_varint}

-- `offset += n; if offset > limit: raise`
unfoldable pub advance : ℕ → List ℕ → Result (List ℕ)
advance n bytes = if ltb (length bytes) n then raise value_error else ok (drop n bytes)

-- `_skip_protobuf_field`
unfoldable pub skip_field : ℕ → List ℕ → Result (List ℕ)
skip_field wire_type bytes =
    if wire_type == 0
    then (do (value, rest) ← read_varint bytes; advance 0 rest)
    else if wire_type == 1
    then advance 8 bytes
    else if wire_type == 2
    then (do (size, rest) ← read_varint bytes; advance size rest)
    else if wire_type == 5
    then advance 4 bytes
    else raise value_error

-- `message_end = offset + length; if message_end > size: raise`: the message and what follows.
unfoldable pub split_at : ℕ → List ℕ → Result (List ℕ × List ℕ)
split_at n bytes =
    if ltb (length bytes) n then raise value_error else ok (take n bytes, drop n bytes)

-- The test `field == 1 and wire == 2` on a tag.
abbrev pub is_text_one : ℕ → Bool
is_text_one tag = tag / 2 ^ 3 == 1 && tag % 2 ^ 3 == 2

module _ (decode : List ℕ → Option String) where
  abbrev pub decoded : Option String → Result String
  decoded none = raise value_error
  decoded (some s) = ok s

  -- The text of field 1.
  unfoldable pub read_text : List ℕ → Result (Option String × List ℕ)
  read_text bytes = do
    (size, rest) ← read_varint bytes
    (text, rest') ← split_at size rest
    s ← decoded (decode text)
    ok (some s, rest')

  -- One turn of the inner loop: the piece so far, and the bytes left of the entry.
  unfoldable pub entry_step : Option String → List ℕ → Result (Option String × List ℕ)
  entry_step piece bytes = do
    (sub_tag, rest) ← read_varint bytes
    if is_text_one sub_tag
        then read_text rest
        else skip_field (sub_tag % 2 ^ 3) rest >>= λ rest'. ok (piece, rest')

  -- The inner loop, `while offset < message_end`.
  unfoldable pub entry_loop : ℕ → Option String → List ℕ → Result (Option String)
  entry_loop fuel piece [] = ok piece
  entry_loop zero piece (b ∷ bytes) = raise runtime_error
  entry_loop (suc fuel) piece (b ∷ bytes) = do
    (piece', rest) ← entry_step piece (b ∷ bytes)
    entry_loop fuel piece' rest

  abbrev pub has_text : Option String → Result String
  has_text none = raise value_error
  has_text (some s) = ok s

  -- An entry of the model.
  unfoldable pub read_entry : List ℕ → Result (Option String × List ℕ)
  read_entry bytes = do
    (size, rest) ← read_varint bytes
    (message, rest') ← split_at size rest
    found ← entry_loop (length message) none message
    piece ← has_text found
    ok (some piece, rest')

  -- One turn of the outer loop: the piece of an entry, if it is one, and the bytes left.
  unfoldable pub model_step : List ℕ → Result (Option String × List ℕ)
  model_step bytes = do
    (tag, rest) ← read_varint bytes
    if is_text_one tag
        then read_entry rest
        else skip_field (tag % 2 ^ 3) rest >>= λ rest'. ok (none, rest')

  abbrev pub append_piece : List String → Option String → List String
  append_piece pieces none = pieces
  append_piece pieces (some p) = pieces ++ p ∷ []

  -- The outer loop, `while offset < size`.
  unfoldable pub model_loop : ℕ → List String → List ℕ → Result (List String)
  model_loop fuel pieces [] = ok pieces
  model_loop zero pieces (b ∷ bytes) = raise runtime_error
  model_loop (suc fuel) pieces (b ∷ bytes) = do
    (piece, rest) ← model_step (b ∷ bytes)
    model_loop fuel (append_piece pieces piece) rest

  abbrev pub not_empty : List String → Result (List String)
  not_empty [] = raise value_error
  not_empty (p ∷ pieces) = ok (p ∷ pieces)

  -- The pieces of a model. Every turn of a loop takes a byte at least, so this fuel is enough, and
  -- `runtime_error` is never raised.
  unfoldable pub parse_pieces : List ℕ → Result (List String)
  unfolding model_loop
  parse_pieces bytes = do pieces ← model_loop (length bytes) [] bytes; not_empty pieces
