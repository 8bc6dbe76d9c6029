-- ===== src/Protobuf/Varint.antt =====
-- `_read_varint` and `_encode_protobuf_varint` of wyoming_vietnamese/download.py. The bytes are those
-- from `offset` up to `limit`; reading returns the value and the bytes after it, so that the new
-- offset is the limit less their number. `x & 0x7F` is `bit_and x 0x7f`, `x << k` is `x * 2 ^ k`.
use wyoming_vietnamese.Common.{
  ltb, ◌==◌, if◌then◌else◌, length, ℤ, pos, negsuc, Result, ◌>>=◌, value_error, ok, raise, lt_wf, ℕ,
  ◌+◌, ◌*◌, ◌/◌, ◌^◌, ◌≤◌, ◌<◌, bit_and, bit_or, dite, List, [], ◌∷◌, ◌++◌, Acc, arith, dec_le,
}

-- The loop of `_read_varint`: `result | (value & 0x7F) << shift`.
unfoldable pub read_loop : List ℕ → ℕ → ℕ → Result (ℕ × List ℕ)
read_loop [] result shift = raise value_error
read_loop (value ∷ rest) result shift =
    let result' = bit_or result (bit_and value 0x7f * 2 ^ shift) in
    let more = read_loop rest result' (shift + 7) in
    if ltb shift 70
    then if bit_and value 0x80 == 0 then ok (result', rest) else more
    else raise value_error

unfoldable pub read_varint : List ℕ → Result (ℕ × List ℕ)
unfolding read_loop
read_varint bytes = read_loop bytes 0 0

pub shift_shrinks : (value : ℕ) → 0x80 ≤ value → value / 2 ^ 7 < value
shift_shrinks value h = omega arith

-- The loop of `_encode_protobuf_varint`.
unfoldable pub encode_acc : (value : ℕ) → Acc ◌<◌ value → List ℕ
encode_acc value (Acc.intro _ smaller) =
    dite (dec_le 0x80 value)
      (λ h.
        bit_or (bit_and value 0x7f) 0x80
        ∷ encode_acc (value / 2 ^ 7) (smaller _ (shift_shrinks value h)))
      (λ _. value ∷ [])

unfoldable pub encode_varint : ℤ → Result (List ℕ)
unfolding encode_acc lt_wf
encode_varint (negsuc n) = raise value_error
encode_varint (pos value) = ok (encode_acc value (lt_wf.apply value))

-- `_encode_protobuf_text_field`, from the UTF-8 bytes of its value: tag, length and bytes.
unfoldable pub encode_text_field : ℕ → List ℕ → Result (List ℕ)
encode_text_field field_number encoded_value = do
  tag ← encode_varint (pos (bit_or (field_number * 2 ^ 3) 2))
  size ← encode_varint (pos (length encoded_value))
  ok (tag ++ (size ++ encoded_value))
