-- ===== src/Protocol/Frame/Grammar.antt =====
-- The Wyoming frames, described without reading: a header line, data bytes and payload bytes.
use wyoming_vietnamese.Common.{
  length, All, pos, ℕ, ◌≤◌, ◌≡◌, ◌≢◌, ◌⊎◌, Option, none, some, List, [], ◌∷◌, ◌++◌,
}
use Prim.Native.String.{String}
use wyoming_vietnamese.Protocol.Json.{Json, integer, str, object, Fields, end, get, update}
use wyoming_vietnamese.Protocol.Frame.{Event, max_data_bytes, max_header_bytes}

-- One line: a body without a newline, which fits the stream's limit, and its newline.
pub record IsLine (stream_limit : ℕ) (line : List ℕ) : Type 0 where
  pub body : List ℕ
  pub plain : All (λ b. b ≢ b'\n') body
  pub ended : line ≡ body ++ b'\n' ∷ []
  pub fits : length body ≤ stream_limit

-- The header states the length of a part; a length of zero need not be stated.
abbrev pub Declares : Fields → String → ℕ → Type 0
Declares header name n =
    (get header name ≡ some (integer (pos n))) ⊎ ((get header name ≡ none) × (n ≡ 0))

-- The values of the header, which are empty if it states none.
abbrev pub HasValues : Fields → Fields → Type 0
HasValues header base =
    (get header "data" ≡ some (object base)) ⊎ ((get header "data" ≡ none) × (base ≡ end))

-- No payload bytes mean no payload.
abbrev pub payload_of : List ℕ → Option (List ℕ)
payload_of [] = none
payload_of (b ∷ bs) = some (b ∷ bs)

module _ (loads : List ℕ → Option Json) where
  -- The data bytes hold an object, which is merged into the header's values.
  abbrev pub Merges : Fields → List ℕ → Fields → Type 0
  Merges base [] values = values ≡ base
  Merges base (b ∷ bs) values =
      (extra : Fields) × (loads (b ∷ bs) ≡ some (object extra)) × (values ≡ update base extra)

  pub record IsFrame (stream_limit max_payload : ℕ) (line data_bytes payload : List ℕ) (e : Event)
      : Type 0 where
    pub is_line : IsLine stream_limit line
    pub header_fits : length line ≤ max_header_bytes
    pub header : Fields
    pub base : Fields
    pub parses : loads line ≡ some (object header)
    pub typed : get header "type" ≡ some (str e.type)
    pub named : e.type ≢ ""
    pub has_values : HasValues header base
    pub data_declared : Declares header "data_length" (length data_bytes)
    pub data_fits : length data_bytes ≤ max_data_bytes
    pub merges : Merges base data_bytes e.values
    pub payload_declared : Declares header "payload_length" (length payload)
    pub payload_fits : length payload ≤ max_payload
    pub carries : e.payload ≡ payload_of payload
