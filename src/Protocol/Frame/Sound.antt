-- ===== src/Protocol/Frame/Sound.antt =====
-- What the reader returns is a frame of the grammar at the front of the stream.
use wyoming_vietnamese.Common.{
  ltb, length, pos, Error, Result, ◌>>=◌, raise_if, protocol_error, ok, raise, ℕ, zero, suc, ◌≤◌,
  ◌≡◌, refl, subst, ◌≢◌, ◌⊎◌, inl, inr, Bool, true, false, not, Option, none, some, List, [], ◌∷◌,
  ◌++◌, arith,
}
use Prim.Native.String.{String}
use text.Mathlib.TextEquality.{eq_iff}
use wyoming_vietnamese.Protocol.Json.{
  Json, integer, boolean, null, float, str, array, object, Fields, get, update,
}
use wyoming_vietnamese.Protocol.Json
use wyoming_vietnamese.Protocol.Frame.{
  Event, max_data_bytes, max_header_bytes, read_length, check_length, or_zero, as_object, type_of,
  values_of, read_data, read_payload, read_frame, frame_or_eof, read_event, ends_with_newline,
  body_length, split_line, readline, readexactly,
}
use wyoming_vietnamese.Protocol.Frame.Grammar.{IsLine, Merges, payload_of, IsFrame}
use wyoming_vietnamese.Protocol.Frame.Stream.{split_line-append, split_line-IsLine, readexactly_inv}

-- Inversion of a successful bind, with the value as a variable of what follows.
inspect {ℓ κ μ} :
    {A : Type ℓ} {B : Type κ} {P : Type μ} (m : Result A) (f : A → Result B) {b : B}
    → (m >>= f) ≡ ok b
    → ((a : A) → m ≡ ok a → f a ≡ ok b → P)
    → P
inspect (ok a) f h k = k a refl h
inspect (raise e) f h k = cc

check_length_inv :
    (o : Option Json) (n maximum : ℕ)
    → check_length (or_zero o) maximum ≡ ok n
    → ((o ≡ some (integer (pos n))) ⊎ ((o ≡ none) × (n ≡ 0))) × (n ≤ maximum)
check_length_inv none n maximum h = ground arith
check_length_inv (some (integer (pos m))) n maximum h = ground arith
check_length_inv (some other) n maximum h = cc

as_object_inv : (o : Option Json) (fs : Fields) → as_object o ≡ ok fs → o ≡ some (object fs)
as_object_inv (some (object gs)) fs h = cc
as_object_inv (some other) fs h = cc
as_object_inv none fs h = cc

type_of_inv : (o : Option Json) (t : String) → type_of o ≡ ok t → (o ≡ some (str t)) × (t ≢ "")
type_of_inv (some (str u)) t h = ground (arith, eq_iff u "")
type_of_inv (some other) t h = cc
type_of_inv none t h = cc

values_of_inv :
    (o : Option Json) (base : Fields)
    → values_of o ≡ ok base
    → (o ≡ some (object base)) ⊎ ((o ≡ none) × (base ≡ Json.end))
values_of_inv none base h = inr (refl, ground arith)
values_of_inv (some (object gs)) base h = inl (ground arith)
values_of_inv (some other) base h = cc

payload_of_pos : (xs : List ℕ) (n : ℕ) → length xs ≡ suc n → payload_of xs ≡ some xs
payload_of_pos [] n h = absurd (omega arith)
payload_of_pos (x ∷ xs) n h = refl

read_payload_inv :
    (n : ℕ) (s rest : List ℕ) (p : Option (List ℕ))
    → read_payload n s ≡ ok (p, rest)
    → (payload : List ℕ) × (s ≡ payload ++ rest) × (length payload ≡ n) × (p ≡ payload_of payload)
unfolding read_payload
read_payload_inv zero s rest p h = ([], ground arith, refl, ground arith)
read_payload_inv (suc n) s rest p h = inspect (readexactly (suc n) s) _ h λ r e k.
    let (split, long) = readexactly_inv (suc n) s r.0 r.1 e in
    (r.0, ground arith, long, ground (arith, payload_of_pos r.0 n long))

raise_if_inv : (b : Bool) (e : Error) {u : Unit {0}} → raise_if b e ≡ ok u → b ≡ false
raise_if_inv true e h = cc
raise_if_inv false e h = refl

readline_inv :
    (limit : ℕ) (s : List ℕ) (r : List ℕ × List ℕ)
    → readline limit s ≡ ok r
    → (body_length s ≤ limit) × (split_line s ≡ r)
unfolding readline
readline_inv limit s r h = ground arith

module _ (loads : List ℕ → Option Json) where
  Merges-cons :
      (base extra values : Fields) (xs : List ℕ) (n : ℕ)
      → length xs ≡ suc n
      → loads xs ≡ some (object extra)
      → values ≡ update base extra
      → Merges loads base xs values
  Merges-cons base extra values [] n h l m = absurd (omega arith)
  Merges-cons base extra values (x ∷ xs) n h l m = (extra, l, m)

  read_data_inv :
      (base values : Fields) (n : ℕ) (s rest : List ℕ)
      → read_data loads base n s ≡ ok (values, rest)
      → (xs : List ℕ) × (s ≡ xs ++ rest) × (length xs ≡ n) × Merges loads base xs values
  unfolding read_data
  read_data_inv base values zero s rest h = ([], ground arith, refl, ground arith)
  read_data_inv base values (suc n) s rest h = inspect (readexactly (suc n) s) _ h λ r e k.
      inspect (as_object (loads r.0)) _ k λ extra e' k'.
        let (split, long) = readexactly_inv (suc n) s r.0 r.1 e in
        (
          r.0,
          ground arith,
          long,
          Merges-cons base extra values r.0 n long (as_object_inv (loads r.0) extra e')
              (ground arith),
        )

  -- What `read_frame` has checked of a line and of the bytes after it.
  record Parsed (max_payload : ℕ) (line s rest : List ℕ) (e : Event) : Type 0 where
    data_bytes : List ℕ
    payload : List ℕ
    splits : s ≡ data_bytes ++ (payload ++ rest)
    ends : ends_with_newline line ≡ true
    frame :
        (stream_limit : ℕ)
        → IsLine stream_limit line
        → IsFrame loads stream_limit max_payload line data_bytes payload e

  read_frame_inv :
      (max_payload : ℕ) (line s rest : List ℕ) (e : Event)
      → read_frame loads max_payload line s ≡ ok (e, rest)
      → Parsed max_payload line s rest e
  unfolding read_frame read_length
  read_frame_inv max_payload line s rest e h =
      inspect (raise_if (ltb max_header_bytes (length line)) protocol_error) _ h λ _ short h.
        inspect (raise_if (not (ends_with_newline line)) protocol_error) _ h λ _ ends h.
          inspect (as_object (loads line)) _ h λ header parses h.
            inspect (type_of (get header "type")) _ h λ event_type typed h.
              inspect (values_of (get header "data")) _ h λ base has_values h.
                inspect (check_length (or_zero (get header "data_length")) max_data_bytes) _ h
                  λ n declared h. inspect (read_data loads base n s) _ h λ vs merged h.
                    inspect (check_length (or_zero (get header "payload_length")) max_payload) _ h
                      λ m declared' h. inspect (read_payload m vs.1) _ h λ ps carried h.
                        let (data_bytes, split, long, merges) =
                          read_data_inv base vs.0 n s vs.1 merged in
                        let (payload, split', long', carries) =
                          read_payload_inv m vs.1 ps.1 ps.0 carried in
                        let (data_declared, data_fits) =
                          check_length_inv (get header "data_length") n _ declared in
                        let (payload_declared, payload_fits) =
                          check_length_inv (get header "payload_length") m _ declared' in
                        let same : e ≡ record { type = event_type; values = vs.0; payload = ps.0 } =
                          ground arith in
                        let (is_str, named) = type_of_inv (get header "type") event_type typed in
                        record {
                          data_bytes = data_bytes;
                          payload = payload;
                          splits = ground arith;
                          ends = ground arith;
                          frame = λ limit is_line. record {
                            is_line = is_line;
                            header_fits = ground arith;
                            header = header;
                            base = base;
                            parses = as_object_inv (loads line) header parses;
                            typed = rw same is_str;
                            named = rw same named;
                            has_values = values_of_inv (get header "data") base has_values;
                            data_declared = rw long data_declared;
                            data_fits = rw long data_fits;
                            merges = rw same merges;
                            payload_declared = rw long' payload_declared;
                            payload_fits = rw long' payload_fits;
                            carries = rw same carries;
                          };
                        }

  frame_or_eof_inv :
      (max_payload : ℕ) (line s rest : List ℕ) (e : Event)
      → frame_or_eof loads max_payload line s ≡ ok (some (e, rest))
      → read_frame loads max_payload line s ≡ ok (e, rest)
  frame_or_eof_inv max_payload [] s rest e h = ground arith
  frame_or_eof_inv max_payload (b ∷ line) s rest e h =
      inspect (read_frame loads max_payload (b ∷ line) s) _ h λ r k h'. ground arith

  -- An event that the reader returns stands at the front of the stream as a frame within the limits,
  -- and the rest is what follows that frame.
  pub read_event_sound :
      (stream_limit max_payload : ℕ) (s rest : List ℕ) (e : Event)
      → read_event loads stream_limit max_payload s ≡ ok (some (e, rest))
      → (line data_bytes payload : List ℕ) × (s ≡ line ++ (data_bytes ++ (payload ++ rest)))
        × IsFrame loads stream_limit max_payload line data_bytes payload e
  unfolding read_event
  read_event_sound stream_limit max_payload s rest e h =
      inspect (readline stream_limit s) _ h λ r fits h.
        let p : Parsed max_payload r.0 r.1 rest e =
          read_frame_inv max_payload r.0 r.1 rest e
            (frame_or_eof_inv max_payload r.0 r.1 rest e h) in
        let (short, split) = readline_inv stream_limit s r fits in
        let is_line : IsLine stream_limit r.0 =
          subst (λ (l : List ℕ × List ℕ). IsLine stream_limit l.0) split
            (split_line-IsLine stream_limit s (rw split p.ends) short) in
        (
          r.0,
          p.data_bytes,
          p.payload,
          ground (arith, split_line-append s, p.splits),
          p.frame stream_limit is_line,
        )
