-- ===== src/Protocol/Examples.antt =====
-- Runs of the frame reader and of the connection loop, and the theorems about them at these inputs.
use wyoming_vietnamese.Common.{
  pos, ok, ℕ, ◌+◌, ◌≡◌, refl, ◌≢◌, inl, inr, true, false, Option, none, some, List, [], ◌∷◌, ◌++◌,
  arith,
}
use wyoming_vietnamese.Protocol.Json.{Json, str, object, Fields, field, end, get, integer}
use wyoming_vietnamese.Protocol.Frame.{Event, max_payload_bytes, read_event}
use wyoming_vietnamese.Protocol.Frame.Grammar.{IsFrame}
use wyoming_vietnamese.Protocol.Frame.Complete.{read_event-IsFrame}
use wyoming_vietnamese.Protocol.Frame.Sound.{read_event_sound}
use wyoming_vietnamese.Protocol.Connection.{Reply, keep_open, loop, run, stuck}
use wyoming_vietnamese.Protocol.Connection.Total.{loop-ne-stuck}
use wyoming_vietnamese.Protocol.Connection.Delivery.{Frames, done, more, run-Frames}

-- A decoder that knows one header, which announces two bytes of payload.
abbrev header : Fields
header = field "type" (str "audio-chunk") (field "payload_length" (integer (pos 2)) end)

abbrev decode : List ℕ → Option Json
decode bytes = some (object header)

abbrev line : List ℕ
line = b'{' ∷ b'}' ∷ b'\n' ∷ []

abbrev payload : List ℕ
payload = 7 ∷ 9 ∷ []

abbrev chunk : Event
chunk = record { type = "audio-chunk"; values = end; payload = some payload }

chunk-IsFrame : IsFrame decode 65536 max_payload_bytes line [] payload chunk
unfolding get
chunk-IsFrame = record {
  is_line = record {
    body = b'{' ∷ b'}' ∷ [];
    plain = omega arith;
    ended = refl;
    fits = omega arith;
  };
  header_fits = omega arith;
  header = header;
  base = end;
  parses = refl;
  typed = refl;
  named = λ h. cc;
  has_values = inr (refl, refl);
  data_declared = inr (refl, refl);
  data_fits = omega arith;
  merges = refl;
  payload_declared = inl refl;
  payload_fits = omega arith;
  carries = refl;
}

read_event-IsFrame_example :
    read_event decode 65536 max_payload_bytes (line ++ ([] ++ (payload ++ 1 ∷ [])))
    ≡ ok (some (chunk, 1 ∷ []))
read_event-IsFrame_example =
    read_event-IsFrame decode 65536 max_payload_bytes line [] payload chunk chunk-IsFrame (1 ∷ [])

read_event_sound_example :
    (l d p : List ℕ) × (line ++ ([] ++ (payload ++ 1 ∷ [])) ≡ l ++ (d ++ (p ++ 1 ∷ [])))
    × IsFrame decode 65536 max_payload_bytes l d p chunk
read_event_sound_example =
    read_event_sound decode 65536 max_payload_bytes (line ++ ([] ++ (payload ++ 1 ∷ []))) (1 ∷ [])
      chunk read_event-IsFrame_example

-- A handler that counts the events.
abbrev count : ℕ → Event → ℕ × Reply
count n e = (n + 1, keep_open)

abbrev two_chunks : List ℕ
two_chunks = line ++ ([] ++ (payload ++ (line ++ ([] ++ (payload ++ [])))))

two_chunks-Frames : Frames decode 65536 (chunk ∷ chunk ∷ []) two_chunks
two_chunks-Frames = more chunk-IsFrame (more chunk-IsFrame done)

loop-ne-stuck_example : (loop decode 65536 (λ i. true) count 11 0 0 two_chunks).ending ≢ stuck
loop-ne-stuck_example = loop-ne-stuck decode 65536 (λ i. true) count 11 0 0 two_chunks (omega arith)

run-Frames_example :
    ((loop decode 65536 (λ i. true) count 11 0 0 two_chunks).handled ≡ chunk ∷ chunk ∷ [])
    × (run decode 65536 (λ i. true) count (λ n. n) 0 two_chunks
        ≡ record { written = none; state = 2; reraises = false })
run-Frames_example =
    run-Frames decode 65536 (λ i. true) count (λ i. refl) (λ n. n) (chunk ∷ chunk ∷ []) two_chunks 0
      two_chunks-Frames (refl, (refl, tt))
