-- ===== src/Protocol/Frame.antt =====
-- `async_read_event_limited` of wyoming_vietnamese/protocol.py. The stream is the list of the bytes
-- that will arrive before the end of file; reading returns what is left of it. `loads` is
-- `json.loads`, with `none` for the decoding errors that the code handles.
pub mod Grammar
mod Stream
pub mod Complete
pub mod Sound
use wyoming_vietnamese.Common.{
  ltb, ◌==◌, if◌then◌else◌, length, take, drop, pos, Result, ◌>>=◌, ◌>>◌, raise_if, protocol_error,
  incomplete_read_error, ok, raise, ℕ, zero, suc, ◌*◌, Bool, false, not, Option, none, some, List,
  [], ◌∷◌,
}
use Prim.Native.String.{String}
use text.Mathlib.Text.{◌==◌ as str_eq}
use wyoming_vietnamese.Protocol.Json.{Json, integer, str, object, Fields, get, update}
use wyoming_vietnamese.Protocol.Json

-- const.py, EventLimit
abbrev pub max_data_bytes : ℕ
max_data_bytes = 64 * 1024

abbrev pub max_header_bytes : ℕ
max_header_bytes = 64 * 1024

abbrev pub max_payload_bytes : ℕ
max_payload_bytes = 4 * 1024 * 1024

-- `wyoming.event.Event`, as the code builds it.
pub record Event : Type 0 where
  pub type : String
  pub values : Fields
  pub payload : Option (List ℕ)

-- The bytes up to and including the first newline, or all of them, and the rest.
unfoldable pub split_line : List ℕ → List ℕ × List ℕ
split_line [] = ([], [])
split_line (b ∷ bs) =
    let (line, rest) = split_line bs in if b == b'\n' then (b ∷ [], bs) else (b ∷ line, rest)

-- The bytes of a line that stand before its newline.
unfoldable pub body_length : List ℕ → ℕ
body_length [] = 0
body_length (b ∷ bs) = if b == b'\n' then 0 else suc (body_length bs)

-- `line.endswith(b"\n")`, for a line of `readline`, whose only newline is its last byte.
unfoldable pub ends_with_newline : List ℕ → Bool
ends_with_newline [] = false
ends_with_newline (b ∷ []) = b == b'\n'
ends_with_newline (b ∷ c ∷ bs) = ends_with_newline (c ∷ bs)

-- `reader.readexactly(n)`
unfoldable pub readexactly : ℕ → List ℕ → Result (List ℕ × List ℕ)
readexactly n s = if ltb (length s) n then raise incomplete_read_error else ok (take n s, drop n s)

-- `reader.readline()` on a stream with a limit, and the conversion of its `ValueError`.
unfoldable pub readline : ℕ → List ℕ → Result (List ℕ × List ℕ)
readline stream_limit s =
    if ltb stream_limit (body_length s) then raise protocol_error else ok (split_line s)

-- `_read_length`, after the lookup. A Boolean is no `int` here.
abbrev pub check_length : Json → ℕ → Result ℕ
check_length (integer (pos n)) maximum = if ltb maximum n then raise protocol_error else ok n
check_length other maximum = raise protocol_error

abbrev pub or_zero : Option Json → Json
or_zero none = integer (pos 0)
or_zero (some value) = value

-- `_read_length`
unfoldable pub read_length : Fields → String → ℕ → Result ℕ
read_length header name maximum = check_length (or_zero (get header name)) maximum

-- The value decoded from bytes has to be a JSON object.
abbrev pub as_object : Option Json → Result Fields
as_object (some (object fs)) = ok fs
as_object other = raise protocol_error

abbrev pub type_of : Option Json → Result String
type_of (some (str t)) = if str_eq t "" then raise protocol_error else ok t
type_of other = raise protocol_error

-- `event_dict.get("data", {})`, which has to be an object.
abbrev pub values_of : Option Json → Result Fields
values_of none = ok Fields.end
values_of (some (object fs)) = ok fs
values_of (some other) = raise protocol_error

-- The payload bytes; a length of zero means no payload.
unfoldable pub read_payload : ℕ → List ℕ → Result (Option (List ℕ) × List ℕ)
read_payload zero s = ok (none, s)
read_payload (suc n) s = do (payload, rest) ← readexactly (suc n) s; ok (some payload, rest)

module _ (loads : List ℕ → Option Json) where
  -- The separate data bytes, merged into the data of the header.
  unfoldable pub read_data : Fields → ℕ → List ℕ → Result (Fields × List ℕ)
  read_data values zero s = ok (values, s)
  read_data values (suc n) s = do
    (data_bytes, rest) ← readexactly (suc n) s
    extra ← as_object (loads data_bytes)
    ok (update values extra, rest)

  -- What follows a non-empty header line.
  unfoldable pub read_frame : ℕ → List ℕ → List ℕ → Result (Event × List ℕ)
  read_frame max_payload line s = do
    raise_if (ltb max_header_bytes (length line)) protocol_error
    raise_if (not (ends_with_newline line)) protocol_error
    header ← as_object (loads line)
    event_type ← type_of (get header "type")
    base ← values_of (get header "data")
    data_length ← read_length header "data_length" max_data_bytes
    (values, s') ← read_data base data_length s
    payload_length ← read_length header "payload_length" max_payload
    (payload, rest) ← read_payload payload_length s'
    ok (record { type = event_type; values = values; payload = payload }, rest)

  abbrev pub frame_or_eof : ℕ → List ℕ → List ℕ → Result (Option (Event × List ℕ))
  frame_or_eof max_payload [] s = ok none
  frame_or_eof max_payload (b ∷ line) s = do
    frame ← read_frame max_payload (b ∷ line) s
    ok (some frame)

  -- `async_read_event_limited`: `none` at the end of the stream.
  unfoldable pub read_event : ℕ → ℕ → List ℕ → Result (Option (Event × List ℕ))
  read_event stream_limit max_payload s = do
    (line, rest) ← readline stream_limit s
    frame_or_eof max_payload line rest
