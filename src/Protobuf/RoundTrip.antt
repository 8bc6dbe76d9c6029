-- ===== src/Protobuf/RoundTrip.antt =====
-- What `_encode_protobuf_varint` writes, `_read_varint` reads back, whatever bytes follow.
use wyoming_vietnamese.Common.{
  length, pos, ok, lt_wf, ℕ, zero, suc, ◌+◌, ◌*◌, ◌/◌, ◌%◌, ◌^◌, ◌≤◌, ◌<◌, bit_and, bit_or, ◌≡◌,
  refl, ap, ◌∙◌, dif_pos, dif_neg, List, [], ◌∷◌, ◌++◌, Acc, arith, dec_lt, dec_le,
}
use native.Mathlib.Bridge.{le_prop}
use native.Mathlib.Numerals.{towards_suc}
use wyoming_vietnamese.Common.Bits.{bit_and_low, bit_and_high, bit_or_disjoint}
use wyoming_vietnamese.Protobuf.Varint.{
  shift_shrinks, read_loop, read_varint, encode_acc, encode_varint,
}

-- The marks on a byte: seven bits, and one that says that more bytes follow.
mark_continues : (low : ℕ) → low < 128 → bit_or low 0x80 ≡ low + 128
mark_continues low h = omega (arith, bit_or_disjoint 7 low 1 h)

mul-le : (a b t : ℕ) → a ≤ b → a * t ≤ b * t
mul-le a b t h = grind arith

pow-add-seven : (s : ℕ) → 2 ^ (s + 7) ≡ 128 * 2 ^ s
pow-add-seven s = simp towards_suc (omega arith)

pow-seven-suc : (n : ℕ) → 2 ^ (7 * suc (suc n)) ≡ 128 * 2 ^ (7 * suc n)
pow-seven-suc n = ap (λ (t : ℕ). 2 ^ t) (omega arith) ∙ pow-add-seven (7 * suc n)

-- One byte of the loop: a last byte, and a byte with its high bit set.
pub read_last :
    (value result shift : ℕ) (rest : List ℕ)
    → value < 128
    → shift < 70
    → result < 2 ^ shift
    → read_loop (value ∷ rest) result shift ≡ ok (result + value * 2 ^ shift, rest)
unfolding read_loop
read_last value result shift rest v s r =
    let low : bit_and value 0x7f ≡ value = omega (arith, bit_and_low value) in
    let high : bit_and value 0x80 ≡ 0 = omega (arith, bit_and_high value) in
    ground (arith, low, high, bit_or_disjoint shift result value r)

read_more :
    (low result shift : ℕ) (rest : List ℕ)
    → low < 128
    → shift < 70
    → result < 2 ^ shift
    → read_loop ((low + 128) ∷ rest) result shift
      ≡ read_loop rest (result + low * 2 ^ shift) (shift + 7)
unfolding read_loop
read_more low result shift rest v s r =
    let is_low : bit_and (low + 128) 0x7f ≡ low = omega (arith, bit_and_low (low + 128)) in
    let high : bit_and (low + 128) 0x80 ≡ 128 = omega (arith, bit_and_high (low + 128)) in
    ground (arith, is_low, high, bit_or_disjoint shift result low r)

next_fits :
    (low result shift : ℕ)
    → low < 128
    → result < 2 ^ shift
    → result + low * 2 ^ shift < 2 ^ (shift + 7)
next_fits low result shift v r =
    omega (arith, pow-add-seven shift, mul-le low 127 (2 ^ shift) (omega arith))

-- The value of the bytes, in groups of seven bits.
regroup :
    (value result shift : ℕ)
    → result + value % 128 * 2 ^ shift + value / 128 * 2 ^ (shift + 7) ≡ result + value * 2 ^ shift
regroup value result shift =
    let split : value ≡ value % 128 + 128 * (value / 128) = omega arith in
    omega (
      arith,
      ap (λ (t : ℕ). value / 128 * t) (pow-add-seven shift),
      ap (λ (t : ℕ). t * 2 ^ shift) split,
    )

encode_last : (value : ℕ) (w : Acc ◌<◌ value) → value < 128 → encode_acc value w ≡ value ∷ []
unfolding encode_acc
encode_last value (Acc.intro _ smaller) h = dif_neg (dec_le 0x80 value) (omega arith) _ _

encode_more :
    (value : ℕ) (w : Acc ◌<◌ value)
    → 128 ≤ value
    → (w' : Acc ◌<◌ (value / 128)) × (encode_acc value w
        ≡ (value % 128 + 128) ∷ encode_acc (value / 128) w')
unfolding encode_acc
encode_more value (Acc.intro _ smaller) h =
    let byte : bit_or (bit_and value 0x7f) 0x80 ≡ value % 128 + 128 =
      rw bit_and_low (mark_continues (value % 128) (omega arith)) in
    (
      smaller (value / 128) (shift_shrinks value h),
      dif_pos (dec_le 0x80 value) le_prop h _ _
          ∙ ap
              (λ (b : ℕ).
                b ∷ encode_acc (value / 128) (smaller (value / 128) (shift_shrinks value h)))
              byte,
    )

read_loop-encode_acc :
    (n value result shift : ℕ) (w : Acc ◌<◌ value) (rest : List ℕ)
    → value < 2 ^ (7 * suc n)
    → shift + 7 * n < 70
    → result < 2 ^ shift
    → read_loop (encode_acc value w ++ rest) result shift ≡ ok (result + value * 2 ^ shift, rest)
read_loop-encode_acc zero value result shift w rest v s r =
    rw (encode_last value w (omega arith))
      (read_last value result shift rest (omega arith) (omega arith) r)
read_loop-encode_acc (suc n) value result shift w rest v s r = elim (dec_lt value 128) [
  | yes small ↦
      rw (encode_last value w small) (read_last value result shift rest small (omega arith) r)
  | no large ↦
      let (w', more) = encode_more value w (omega arith) in
      rw
        (
          more,
          read_more (value % 128) result shift (encode_acc (value / 128) w' ++ rest) (omega arith)
              (omega arith) r,
        )
        (read_loop-encode_acc n (value / 128) (result + value % 128 * 2 ^ shift) (shift + 7) w' rest
            (omega (arith, pow-seven-suc n)) (omega arith)
            (next_fits (value % 128) result shift (omega arith) r)
          ∙ ap (λ (t : ℕ). ok (t, rest)) (regroup value result shift))
]

encode_acc-length :
    (n value : ℕ) (w : Acc ◌<◌ value)
    → value < 2 ^ (7 * suc n)
    → length (encode_acc value w) ≤ suc n
encode_acc-length zero value w v = rw (encode_last value w (omega arith)) (omega arith)
encode_acc-length (suc n) value w v = elim (dec_lt value 128) [
  | yes small ↦ rw (encode_last value w small) (omega arith)
  | no large ↦
      let (w', more) = encode_more value w (omega arith) in
      rw more (omega (arith, encode_acc-length n (value / 128) w' (omega (arith, pow-seven-suc n))))
]

-- Ten bytes are enough for a value below 2^70.
pub encode_varint-length :
    (value : ℕ) (bytes : List ℕ)
    → value < 2 ^ 70
    → encode_varint (pos value) ≡ ok bytes
    → length bytes ≤ 10
unfolding encode_varint
encode_varint-length value bytes h e =
    let bound = encode_acc-length 9 value (lt_wf.apply value) h in grind (arith, bound, e)

pub encode_small : (value : ℕ) → value < 128 → encode_varint (pos value) ≡ ok (value ∷ [])
unfolding encode_varint
encode_small value h = ap ok (encode_last value (lt_wf.apply value) h)

-- What the encoder writes for a value below 2^70 is read back, whatever bytes follow.
pub read_varint-encode_varint :
    (value : ℕ)
    → value < 2 ^ 70
    → (bytes : List ℕ) × (encode_varint (pos value) ≡ ok bytes)
      × ((rest : List ℕ) → read_varint (bytes ++ rest) ≡ ok (value, rest))
unfolding encode_varint read_varint
read_varint-encode_varint value h = (
  encode_acc value (lt_wf.apply value),
  refl,
  λ rest.
      read_loop-encode_acc 9 value 0 0 (lt_wf.apply value) rest h (omega arith) (omega arith)
      ∙ ap (λ (t : ℕ). ok (t, rest)) (omega arith),
)
