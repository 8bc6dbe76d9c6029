-- ===== src/Protocol/Frame/Complete.antt =====
-- Every frame of the grammar is read as its event, whatever follows it in the stream.
use wyoming_vietnamese.Common.{
  length, ◌>>=◌, ok, ℕ, ◌≤◌, ◌≡◌, refl, inl, inr, true, Option, some, List, [], ◌∷◌, ◌++◌, arith,
}
use wyoming_vietnamese.Protocol.Json.{Json, Fields, get}
use wyoming_vietnamese.Protocol.Frame.{
  Event, max_data_bytes, read_length, values_of, read_data, read_payload, read_frame, frame_or_eof,
  read_event, ends_with_newline,
}
use wyoming_vietnamese.Protocol.Frame.Grammar.{Declares, HasValues, Merges, payload_of, IsFrame}
use wyoming_vietnamese.Protocol.Frame.Stream.{
  ends_with_newline-append, readline_lem, readexactly_lem,
}
use Prim.Native.String.{String}
use text.Mathlib.TextEquality.{eq_iff}

read_length_lem :
    (header : Fields) (name : String) (n maximum : ℕ)
    → Declares header name n
    → n ≤ maximum
    → read_length header name maximum ≡ ok n
unfolding read_length
read_length_lem header name n maximum (inl e) h = rw e (ground arith)
read_length_lem header name n maximum (inr e) h = rw e.0 (ground arith)

values_of_lem :
    (header base : Fields) → HasValues header base → values_of (get header "data") ≡ ok base
values_of_lem header base (inl e) = rw e
values_of_lem header base (inr e) = rw e.0 (ground arith)

read_payload_lem :
    (payload rest : List ℕ)
    → read_payload (length payload) (payload ++ rest) ≡ ok (payload_of payload, rest)
unfolding read_payload
read_payload_lem [] rest = refl
read_payload_lem (b ∷ bs) rest = rw (readexactly_lem (b ∷ bs) rest)

module _ (loads : List ℕ → Option Json) where
  read_data_lem :
      (base values : Fields) (xs rest : List ℕ)
      → Merges loads base xs values
      → read_data loads base (length xs) (xs ++ rest) ≡ ok (values, rest)
  unfolding read_data
  read_data_lem base values [] rest h = rw h
  read_data_lem base values (b ∷ bs) rest h = rw (readexactly_lem (b ∷ bs) rest, h.1, h.2)

  frame_or_eof_lem :
      (line s : List ℕ) (max_payload : ℕ)
      → ends_with_newline line ≡ true
      → frame_or_eof loads max_payload line s
        ≡ (read_frame loads max_payload line s >>= λ frame. ok (some frame))
  unfolding ends_with_newline
  frame_or_eof_lem [] s max_payload h = cc
  frame_or_eof_lem (b ∷ bs) s max_payload h = refl

  module _ (limit max_payload : ℕ) (line data_bytes payload : List ℕ) (e : Event)
      (f : IsFrame loads limit max_payload line data_bytes payload e) where
    line_ends : ends_with_newline line ≡ true
    line_ends = rw f.is_line.ended (ends_with_newline-append f.is_line.body)

    read_frame_lem :
        (rest : List ℕ)
        → read_frame loads max_payload line (data_bytes ++ (payload ++ rest)) ≡ ok (e, rest)
    unfolding read_frame
    read_frame_lem rest = ground (
      arith,
      line_ends,
      f.typed,
      eq_iff e.type "",
      values_of_lem f.header f.base f.has_values,
      read_length_lem f.header "data_length" (length data_bytes) max_data_bytes f.data_declared,
      read_data_lem f.base e.values data_bytes (payload ++ rest) f.merges,
      read_length_lem f.header "payload_length" (length payload) max_payload f.payload_declared,
      read_payload_lem payload rest,
    )

    -- A well-formed frame within the limits, whatever bytes follow it, is read as its event, and the
    -- stream is left where the frame ends.
    pub read_event-IsFrame :
        (rest : List ℕ)
        → read_event loads limit max_payload (line ++ (data_bytes ++ (payload ++ rest)))
          ≡ ok (some (e, rest))
    unfolding read_event
    read_event-IsFrame rest = rw (
      readline_lem limit line (data_bytes ++ (payload ++ rest)) f.is_line,
      frame_or_eof_lem line (data_bytes ++ (payload ++ rest)) max_payload line_ends,
      read_frame_lem rest,
    )
