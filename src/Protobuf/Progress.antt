-- ===== src/Protobuf/Progress.antt =====
-- Every turn of the loops of the parser takes a byte at least, so their fuel is enough.
use wyoming_vietnamese.Common.{
  ltb, ◌==◌, if◌then◌else◌, length, take, drop, length-drop, Result, ◌>>=◌, value_error, ok, raise,
  ℕ, zero, suc, ◌+◌, ◌-◌, ◌*◌, ◌%◌, ◌^◌, ◌≤◌, bit_and, bit_or, ◌≡◌, refl, Bool, true, false, Option,
  none, some, List, [], ◌∷◌, arith,
}
use Prim.Native.String.{String}
use wyoming_vietnamese.Protobuf.Varint.{read_loop, read_varint}
use wyoming_vietnamese.Protobuf.Pieces.{
  advance, skip_field, split_at, is_text_one, decoded, read_text, entry_step, entry_loop, has_text,
  read_entry, model_step, append_piece, model_loop, not_empty, parse_pieces,
}

-- A reader of `n` bytes raises a `ValueError`, or leaves at most `n` bytes.
abbrev Leaves {ℓ} : {A : Type ℓ} → ℕ → Result (A × List ℕ) → Type 0
Leaves n (ok (_, rest)) = length rest ≤ n
Leaves n (raise e) = e ≡ value_error

abbrev LeavesBytes : ℕ → Result (List ℕ) → Type 0
LeavesBytes n (ok rest) = length rest ≤ n
LeavesBytes n (raise e) = e ≡ value_error

if-Leaves {ℓ} :
    {A : Type ℓ} (test : Bool) (n : ℕ) (r r' : Result (A × List ℕ))
    → Leaves n r
    → Leaves n r'
    → Leaves n (if test then r else r')
if-Leaves true n r r' h h' = h
if-Leaves false n r r' h h' = h'

if-LeavesBytes :
    (test : Bool) (n : ℕ) (r r' : Result (List ℕ))
    → LeavesBytes n r
    → LeavesBytes n r'
    → LeavesBytes n (if test then r else r')
if-LeavesBytes true n r r' h h' = h
if-LeavesBytes false n r r' h h' = h'

bind-Leaves {ℓ ℓ'} :
    {A : Type ℓ} {B : Type ℓ'} (m n : ℕ) (r : Result (A × List ℕ))
    (f : A × List ℕ → Result (B × List ℕ))
    → Leaves m r
    → ((x : A) (rest : List ℕ) → length rest ≤ m → Leaves n (f (x, rest)))
    → Leaves n (r >>= f)
bind-Leaves m n (ok (x, rest)) f h next = next x rest h
bind-Leaves m n (raise e) f h next = h

bind-LeavesBytes {ℓ} :
    {A : Type ℓ} (m n : ℕ) (r : Result (A × List ℕ)) (f : A × List ℕ → Result (List ℕ))
    → Leaves m r
    → ((x : A) (rest : List ℕ) → length rest ≤ m → LeavesBytes n (f (x, rest)))
    → LeavesBytes n (r >>= f)
bind-LeavesBytes m n (ok (x, rest)) f h next = next x rest h
bind-LeavesBytes m n (raise e) f h next = h

map-Leaves {ℓ} :
    {A : Type ℓ} (n : ℕ) (r : Result (List ℕ)) (x : A)
    → LeavesBytes n r
    → Leaves n (r >>= λ rest. ok (x, rest))
map-Leaves n (ok rest) x h = h
map-Leaves n (raise e) x h = h

drop-length-le : (n : ℕ) (bytes : List ℕ) → length (drop n bytes) ≤ length bytes
drop-length-le n bytes = omega (arith, length-drop n bytes)

Leaves-mono {ℓ} : {A : Type ℓ} (m n : ℕ) (r : Result (A × List ℕ)) → m ≤ n → Leaves m r → Leaves n r
Leaves-mono m n (ok (x, rest)) h v = omega arith
Leaves-mono m n (raise e) h v = v

-- A value takes a byte at least.
read_loop-Leaves :
    (bytes : List ℕ) (result shift : ℕ) → Leaves (length bytes - 1) (read_loop bytes result shift)
unfolding read_loop
read_loop-Leaves [] result shift = refl
read_loop-Leaves (b ∷ bytes) result shift =
    let result' = bit_or result (bit_and b 0x7f * 2 ^ shift) in
    let more = read_loop bytes result' (shift + 7) in
    let one = if bit_and b 0x80 == 0 then ok (result', bytes) else more in
    let all =
      if-Leaves (ltb shift 70) (length bytes) one (raise value_error)
        (if-Leaves (bit_and b 0x80 == 0) (length bytes) (ok (result', bytes)) more (omega arith) (
          Leaves-mono (length bytes - 1) (length bytes) more (omega arith)
            (read_loop-Leaves bytes result' (shift + 7))))
        refl in
    Leaves-mono (length bytes) (suc (length bytes) - 1)
      (if ltb shift 70 then one else raise value_error) (omega arith) all

read_varint-Leaves : (bytes : List ℕ) → Leaves (length bytes - 1) (read_varint bytes)
unfolding read_varint
read_varint-Leaves bytes = read_loop-Leaves bytes 0 0

advance-LeavesBytes :
    (n k : ℕ) (bytes : List ℕ) → length bytes ≤ k → LeavesBytes k (advance n bytes)
unfolding advance
advance-LeavesBytes n k bytes h =
    if-LeavesBytes (ltb (length bytes) n) k (raise value_error) (ok (drop n bytes)) refl
      (omega (arith, drop-length-le n bytes))

skip_field-LeavesBytes : (t : ℕ) (bytes : List ℕ) → LeavesBytes (length bytes) (skip_field t bytes)
unfolding skip_field
skip_field-LeavesBytes t bytes =
    let k = length bytes in
    let short : (n : ℕ) → LeavesBytes k (advance n bytes) =
      λ n. advance-LeavesBytes n k bytes (omega arith) in
    if-LeavesBytes (t == 0) k _ _
      (bind-LeavesBytes (k - 1) k (read_varint bytes) _ (read_varint-Leaves bytes)
        (λ x rest h. advance-LeavesBytes 0 k rest (omega arith)))
      (if-LeavesBytes (t == 1) k _ _ (short 8) (
        if-LeavesBytes (t == 2) k _ _
          (bind-LeavesBytes (k - 1) k (read_varint bytes) _ (read_varint-Leaves bytes)
            (λ x rest h. advance-LeavesBytes x k rest (omega arith)))
          (if-LeavesBytes (t == 5) k _ _ (short 4) refl)))

split_at-Leaves : (n : ℕ) (bytes : List ℕ) → Leaves (length bytes) (split_at n bytes)
unfolding split_at
split_at-Leaves n bytes =
    if-Leaves (ltb (length bytes) n) (length bytes) (raise value_error)
      (ok (take n bytes, drop n bytes)) refl (drop-length-le n bytes)

-- A loop that raises a `ValueError`, if anything.
abbrev pub Progresses {ℓ} : {A : Type ℓ} → Result A → Type 0
Progresses (ok _) = Unit {0}
Progresses (raise e) = e ≡ value_error

bind-Progresses {ℓ ℓ'} :
    {A : Type ℓ} {B : Type ℓ'} (r : Result A) (f : A → Result B)
    → Progresses r
    → ((x : A) → Progresses (f x))
    → Progresses (r >>= f)
bind-Progresses (ok x) f h next = next x
bind-Progresses (raise e) f h next = h

bind-Leaves-Progresses {ℓ ℓ'} :
    {A : Type ℓ} {B : Type ℓ'} (m : ℕ) (r : Result (A × List ℕ)) (f : A × List ℕ → Result B)
    → Leaves m r
    → ((x : A) (rest : List ℕ) → length rest ≤ m → Progresses (f (x, rest)))
    → Progresses (r >>= f)
bind-Leaves-Progresses m (ok (x, rest)) f h next = next x rest h
bind-Leaves-Progresses m (raise e) f h next = h

bind-Progresses-Leaves {ℓ ℓ'} :
    {A : Type ℓ} {B : Type ℓ'} (m : ℕ) (r : Result A) (f : A → Result (B × List ℕ))
    → Progresses r
    → ((x : A) → Leaves m (f x))
    → Leaves m (r >>= f)
bind-Progresses-Leaves m (ok x) f h next = next x
bind-Progresses-Leaves m (raise e) f h next = h

module _ (decode : List ℕ → Option String) where
  decoded-Progresses : (o : Option String) → Progresses (decoded decode o)
  decoded-Progresses none = refl
  decoded-Progresses (some s) = tt

  has_text-Progresses : (o : Option String) → Progresses (has_text decode o)
  has_text-Progresses none = refl
  has_text-Progresses (some s) = tt

  not_empty-Progresses : (texts : List String) → Progresses (not_empty decode texts)
  not_empty-Progresses [] = refl
  not_empty-Progresses (s ∷ texts) = tt

  read_text-Leaves : (bytes : List ℕ) → Leaves (length bytes) (read_text decode bytes)
  unfolding read_text
  read_text-Leaves bytes =
      bind-Leaves (length bytes - 1) (length bytes) (read_varint bytes) _ (read_varint-Leaves bytes)
        (λ size rest h.
          bind-Leaves (length rest) (length bytes) (split_at size rest) _
            (split_at-Leaves size rest)
            (λ text rest' h'.
              bind-Progresses-Leaves (length bytes) (decoded decode (decode text)) _
                (decoded-Progresses (decode text)) (λ s. omega arith)))

  entry_step-Leaves :
      (piece : Option String) (bytes : List ℕ)
      → Leaves (length bytes - 1) (entry_step decode piece bytes)
  unfolding entry_step
  entry_step-Leaves piece bytes =
      bind-Leaves (length bytes - 1) (length bytes - 1) (read_varint bytes) _
        (read_varint-Leaves bytes)
        (λ tag rest h. Leaves-mono (length rest) (length bytes - 1) _ h (
          if-Leaves (is_text_one tag) (length rest) _ _ (read_text-Leaves rest) (
            map-Leaves (length rest) (skip_field (tag % 2 ^ 3) rest) piece
              (skip_field-LeavesBytes (tag % 2 ^ 3) rest))))

  entry_loop-Progresses :
      (fuel : ℕ) (piece : Option String) (bytes : List ℕ)
      → length bytes ≤ fuel
      → Progresses (entry_loop decode fuel piece bytes)
  unfolding entry_loop
  entry_loop-Progresses fuel piece [] h = tt
  entry_loop-Progresses zero piece (b ∷ bytes) h = absurd (omega arith)
  entry_loop-Progresses (suc fuel) piece (b ∷ bytes) h =
      bind-Leaves-Progresses (suc (length bytes) - 1) (entry_step decode piece (b ∷ bytes)) _
        (entry_step-Leaves piece (b ∷ bytes))
        (λ piece' rest h'. entry_loop-Progresses fuel piece' rest (omega arith))

  read_entry-Leaves : (bytes : List ℕ) → Leaves (length bytes) (read_entry decode bytes)
  unfolding read_entry
  read_entry-Leaves bytes =
      bind-Leaves (length bytes - 1) (length bytes) (read_varint bytes) _ (read_varint-Leaves bytes)
        (λ size rest h.
          bind-Leaves (length rest) (length bytes) (split_at size rest) _
            (split_at-Leaves size rest)
            (λ message rest' h'.
              bind-Progresses-Leaves (length bytes)
                (entry_loop decode (length message) none message) _
                (entry_loop-Progresses (length message) none message (omega arith))
                (λ found.
                  bind-Progresses-Leaves (length bytes) (has_text decode found) _
                    (has_text-Progresses found) (λ s. omega arith))))

  model_step-Leaves : (bytes : List ℕ) → Leaves (length bytes - 1) (model_step decode bytes)
  unfolding model_step
  model_step-Leaves bytes =
      bind-Leaves (length bytes - 1) (length bytes - 1) (read_varint bytes) _
        (read_varint-Leaves bytes)
        (λ tag rest h. Leaves-mono (length rest) (length bytes - 1) _ h (
          if-Leaves (is_text_one tag) (length rest) _ _ (read_entry-Leaves rest) (
            map-Leaves (length rest) (skip_field (tag % 2 ^ 3) rest) none
              (skip_field-LeavesBytes (tag % 2 ^ 3) rest))))

  model_loop-Progresses :
      (fuel : ℕ) (pieces : List String) (bytes : List ℕ)
      → length bytes ≤ fuel
      → Progresses (model_loop decode fuel pieces bytes)
  unfolding model_loop
  model_loop-Progresses fuel pieces [] h = tt
  model_loop-Progresses zero pieces (b ∷ bytes) h = absurd (omega arith)
  model_loop-Progresses (suc fuel) pieces (b ∷ bytes) h =
      bind-Leaves-Progresses (suc (length bytes) - 1) (model_step decode (b ∷ bytes)) _
        (model_step-Leaves (b ∷ bytes))
        (λ piece rest h'.
          model_loop-Progresses fuel (append_piece decode pieces piece) rest (omega arith))

-- On any bytes, and whatever the text decoder does, the parser of a SentencePiece model ends with
-- the pieces or with a `ValueError`: the fuel of its loops, the number of bytes, never runs out.
pub parse_pieces-Progresses :
    (decode : List ℕ → Option String) (bytes : List ℕ) → Progresses (parse_pieces decode bytes)
unfolding parse_pieces
parse_pieces-Progresses decode bytes =
    bind-Progresses (model_loop decode (length bytes) [] bytes) _
      (model_loop-Progresses decode (length bytes) [] bytes (omega arith))
      (not_empty-Progresses decode)
