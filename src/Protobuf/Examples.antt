-- ===== src/Protobuf/Examples.antt =====
-- Runs of the parser of a SentencePiece model, with a decoder that reads one byte as "a".
use wyoming_vietnamese.Common.{
  pos, ok, ℕ, ◌≡◌, refl, Option, none, some, List, [], ◌∷◌, ◌++◌, arith, dec_le,
}
use Prim.Native.String.{String}
use wyoming_vietnamese.Protobuf.Varint.{read_varint, encode_varint}
use wyoming_vietnamese.Protobuf.RoundTrip.{read_varint-encode_varint}
use wyoming_vietnamese.Protobuf.Pieces.{parse_pieces}
use wyoming_vietnamese.Protobuf.Model.{Piece, encode_model, parse_pieces-encode_model}
use wyoming_vietnamese.Protobuf.Progress.{Progresses, parse_pieces-Progresses}

abbrev decode_a : List ℕ → Option String
decode_a [] = none
decode_a (b ∷ bytes) = some "a"

abbrev letter : Piece
letter = record { text = 97 ∷ []; score = 0 ∷ 0 ∷ 0 ∷ 0 ∷ [] }

encode_300 : encode_varint (pos 300) ≡ ok (172 ∷ 2 ∷ [])
unfolding encode_varint dec_le
encode_300 = refl

read_varint-encode_varint_example :
    (bytes : List ℕ) × (encode_varint (pos 300) ≡ ok bytes)
    × ((rest : List ℕ) → read_varint (bytes ++ rest) ≡ ok (300, rest))
read_varint-encode_varint_example = read_varint-encode_varint 300 (omega arith)

parse_pieces-encode_model_example :
    (bytes : List ℕ) × (encode_model (letter ∷ letter ∷ []) ≡ ok bytes)
    × (parse_pieces decode_a bytes ≡ ok ("a" ∷ "a" ∷ []))
parse_pieces-encode_model_example =
    parse_pieces-encode_model decode_a (letter, "a") ((letter, "a") ∷ [])
      (((refl, omega arith), refl), (((refl, omega arith), refl), tt))

parse_pieces-Progresses_example : Progresses (parse_pieces decode_a (10 ∷ 3 ∷ 10 ∷ 1 ∷ []))
parse_pieces-Progresses_example = parse_pieces-Progresses decode_a (10 ∷ 3 ∷ 10 ∷ 1 ∷ [])
