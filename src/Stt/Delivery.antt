-- ===== src/Stt/Delivery.antt =====
-- A stream in the recogniser's own format: `handle_event` on its start, its chunks and its end, with
-- the writer open and the lock free.
use wyoming_vietnamese.Common.{
  ltb, ◌==◌, if◌then◌else◌, length, All, length-append, Result, ◌>>=◌, ok, raise, ℕ, suc, ◌+◌, ◌-◌,
  ◌*◌, ◌/◌, ◌%◌, ◌≤◌, ◌≡◌, refl, sym, ap, ◌∙◌, true, false, Option, none, some, List, [], ◌∷◌, ◌++◌,
  arith,
}
use Prim.Native.String.{String}
use mathlib.Core.List.{append_assoc, append-nil}
use wyoming_vietnamese.Protocol.Budget.{try_reserve, release}
use wyoming_vietnamese.Stt.{
  target_sample_rate, sample_width, sample_channels, max_audio_bytes, Format, Config, Session,
  Event, audio_start, audio_chunk, audio_stop, Reply, transcript, Answer, keep,
}
use wyoming_vietnamese.Stt.Buffer.{init, append_audio, clear_audio_buffer}
use wyoming_vietnamese.Stt.Requests.{handle_audio_start}
use wyoming_vietnamese.Stt.Chunks.{handle_audio_chunk, converted_parts, append_all}
use wyoming_vietnamese.Stt.Handler.{Outside, handle_event, handle_audio_stop}

abbrev pub target : Format
target = record { rate = target_sample_rate; width = sample_width; channels = sample_channels }

-- A handler that has received these bytes.
abbrev receiving : {K : Type 0} → ℕ → ℕ → K → ℕ → ℕ → ℕ → List ℕ → Session K
receiving maximum others fresh started deadline chunks received = record {
  audio_bytes = received;
  buffer_budget = some (record { maximum = maximum; used = others + length received });
  reserved_audio_bytes = length received;
  audio_started = true;
  audio_started_at = some started;
  audio_deadline = some deadline;
  audio_chunk_count = chunks;
  empty_chunk_count = 0;
  input_audio_bytes = length received;
  input_audio_frames = length received / 2;
  source_format = some target;
  converter = some fresh;
}

-- The chunks and the end of a stream, each with what the handler observes then.
abbrev pub stream_events : List (Outside × List ℕ) → Outside → List (Outside × Event)
stream_events [] o = (o, audio_stop) ∷ []
stream_events ((o', audio) ∷ parts) o =
    (o', audio_chunk (some (record { format = some target; audio = audio })))
    ∷ stream_events parts o

abbrev pub joined : List (Outside × List ℕ) → List ℕ
joined [] = []
joined ((o, audio) ∷ parts) = audio ++ joined parts

-- A chunk of whole samples that arrives in time.
abbrev pub IsPart : ℕ → Outside × List ℕ → Type 0
IsPart deadline (o, audio) =
    (o.now ≤ deadline) × (o.later ≤ deadline) × (1 ≤ length audio) × (length audio % 2 ≡ 0)

-- The end arrives in time, the lock is free, and the writer stays open.
abbrev pub IsEnd : ℕ → Outside → Type 0
IsEnd deadline o =
    (o.now ≤ deadline)
    × (o.later ≤ deadline)
    × (o.acquired ≡ true)
    × (o.closing ≡ false)
    × (o.closing_after ≡ false)

module _ {K : Type 0} (normalize : String → String) (fresh : K)
    (tomono : ℕ → List ℕ → Option (List ℕ)) (convert : K → Format → List ℕ → Option (K × List ℕ))
    (recognize : List ℕ → Option String) (c : Config) (maximum others : ℕ) where
  chunk_lem :
      (o : Outside) (started deadline chunks : ℕ) (received : List ℕ) (b : ℕ) (audio : List ℕ)
      → o.now ≤ deadline
      → o.later ≤ deadline
      → length (b ∷ audio) % 2 ≡ 0
      → length received % 2 ≡ 0
      → length received + length (b ∷ audio) ≤ max_audio_bytes c
      → others + length received + length (b ∷ audio) ≤ maximum
      → handle_event normalize fresh tomono convert recognize c o
          (receiving maximum others fresh started deadline chunks received)
          (audio_chunk (some (record { format = some target; audio = b ∷ audio })))
        ≡ ok (
            keep (
              receiving maximum others fresh started deadline (chunks + 1) (received ++ b ∷ audio)))
  unfolding handle_event handle_audio_chunk converted_parts append_all append_audio try_reserve
  chunk_lem o started deadline chunks received b audio now later even even' fits room =
      let total : length (received ++ b ∷ audio) ≡ length received + length (b ∷ audio) =
        length-append received (b ∷ audio) in
      let frames : length received / 2 + length (b ∷ audio) / 2 ≤ c.max_audio_ms * 16000 / 1000 =
        omega arith in
      let on_time : ltb deadline o.now ≡ false = ground arith in
      let still_on_time : ltb deadline o.later ≡ false = ground arith in
      let whole : (suc (length audio) % 2 == 0) ≡ true = ground arith in
      let short : ltb (c.max_audio_ms * 16000 / 1000) (length received / 2 + suc (length audio) / 2)
          ≡ false =
        ground arith in
      let small : ltb (c.max_audio_ms * 16000 * 2 * 1 / 1000) (length received + suc (length audio))
          ≡ false =
        ground arith in
      let granted : ltb maximum (others + length received + suc (length audio)) ≡ false =
        ground arith in
      let halves : (length received + suc (length audio)) / 2
          ≡ length received / 2 + suc (length audio) / 2 =
        omega arith in
      let used : others + (length received + suc (length audio))
          ≡ others + length received + suc (length audio) =
        omega arith in
      rw (on_time, still_on_time, whole, short, small, granted, total, halves, used) refl

  start_lem :
      (o : Outside)
      → handle_event normalize fresh tomono convert recognize c o
          (init (some (record { maximum = maximum; used = others })))
          (audio_start (some target))
        ≡ ok (
            keep (
              receiving maximum others fresh o.later
                (o.later + c.max_audio_ms + c.event_timeout_ms)
                0
                []))
  unfolding handle_event handle_audio_start clear_audio_buffer
  start_lem o = let none_yet : others + 0 ≡ others = omega arith in rw none_yet refl

  stop_lem :
      (o : Outside) (started deadline chunks b : ℕ) (received : List ℕ) (t : String)
      → o.now ≤ deadline
      → o.later ≤ deadline
      → o.acquired ≡ true
      → o.closing ≡ false
      → o.closing_after ≡ false
      → length (b ∷ received) % 2 ≡ 0
      → recognize (b ∷ received) ≡ some t
      → (s' : Session K) × (handle_event normalize fresh tomono convert recognize c o
            (receiving maximum others fresh started deadline chunks (b ∷ received))
            audio_stop
          ≡ ok (record { session = s'; keep_open = false; sent = transcript t ∷ [] }))
  unfolding handle_event handle_audio_stop clear_audio_buffer release
  stop_lem o started deadline chunks b received t now later free writes still_writes even found =
      let on_time : ltb deadline o.now ≡ false = ground arith in
      let still_on_time : ltb deadline o.later ≡ false = ground arith in
      let whole : (suc (length received) % 2 == 0) ≡ true = ground arith in
      let held : (suc (length received) == 0) ≡ false = ground arith in
      let counted : ltb (others + suc (length received)) (suc (length received)) ≡ false =
        ground arith in
      let released : others + suc (length received) - suc (length received) ≡ others =
        omega arith in
      (
        record (receiving maximum others fresh started deadline chunks (b ∷ received)) {
          audio_bytes = [];
          buffer_budget = some (record { maximum = maximum; used = others });
          reserved_audio_bytes = 0;
          audio_started = false;
          source_format = none;
          converter = none;
          audio_started_at = none;
          audio_deadline = none;
        },
        rw
            (
              on_time, still_on_time, free, writes, whole, held, counted, found, still_writes,
              released,
            )
            refl,
      )

  abbrev after_reply : List Reply → Result (Answer K) → Result (Answer K)
  after_reply sent (raise e) = raise e
  after_reply sent (ok a) = ok (record a { sent = sent ++ a.sent })

  -- The handler over the events of a connection, until it closes it, and all that is written.
  unfoldable pub handle_events : Session K → List (Outside × Event) → Result (Answer K)
  handle_events s [] = ok (keep s)
  handle_events s ((o, event) ∷ events) =
      handle_event normalize fresh tomono convert recognize c o s event >>= λ a.
      if a.keep_open then after_reply a.sent (handle_events a.session events) else ok a

  parts_lem :
      (parts : List (Outside × List ℕ)) (o : Outside) (started deadline chunks : ℕ)
      (received : List ℕ) (t : String)
      → All (IsPart deadline) parts
      → IsEnd deadline o
      → length received % 2 ≡ 0
      → 1 ≤ length received + length (joined parts)
      → length received + length (joined parts) ≤ max_audio_bytes c
      → others + length received + length (joined parts) ≤ maximum
      → recognize (received ++ joined parts) ≡ some t
      → (s' : Session K) × (handle_events
            (receiving maximum others fresh started deadline chunks received)
            (stream_events parts o)
          ≡ ok (record { session = s'; keep_open = false; sent = transcript t ∷ [] }))
  unfolding handle_events
  parts_lem [] o started deadline chunks [] t p end even some_bytes fits room found =
      absurd (omega arith)
  parts_lem [] o started deadline chunks (b ∷ received) t p end even some_bytes fits room found =
      let (s', ends) =
        stop_lem o started deadline chunks b received t end.0 end.1 end.2 end.3 end.4 even
          (ap recognize (sym (append-nil (b ∷ received))) ∙ found) in
      (s', rw ends refl)
  parts_lem ((o', []) ∷ parts) o started deadline chunks received t (p, ps) end even some_bytes fits
        room found =
      absurd (omega (arith, p.2))
  parts_lem ((o', b ∷ audio) ∷ parts) o started deadline chunks received t (p, ps) end even
        some_bytes fits room found =
      let total = length-append (b ∷ audio) (joined parts) in
      let more = length-append received (b ∷ audio) in
      let (s', ends) =
        parts_lem parts o started deadline (chunks + 1) (received ++ b ∷ audio) t ps end
          (omega (arith, more, p.3)) (omega (arith, more)) (omega (arith, total, more))
          (omega (arith, total, more))
          (ap recognize (append_assoc received (b ∷ audio) (joined parts)) ∙ found) in
      (
        s',
        rw
            (
              chunk_lem o' started deadline chunks received b audio p.0 p.1 p.3 even
                  (omega (arith, total)) (omega (arith, total)),
              ends,
            )
            refl,
      )

  -- A stream in the format of the recogniser that starts on a new handler, of chunks of whole samples,
  -- at least one, that all arrive in time, as does its end, and that fit the limit and the shared
  -- budget: if the inference lock is acquired in time, the writer is not closing before or after that,
  -- and the recogniser returns a text for the bytes of all chunks in order, then that text is the only
  -- thing written, and the request ends.
  pub handle_events-transcribes :
      (start end : Outside) (parts : List (Outside × List ℕ)) (t : String)
      → All (IsPart (start.later + c.max_audio_ms + c.event_timeout_ms)) parts
      → IsEnd (start.later + c.max_audio_ms + c.event_timeout_ms) end
      → 1 ≤ length (joined parts)
      → length (joined parts) ≤ max_audio_bytes c
      → others + length (joined parts) ≤ maximum
      → recognize (joined parts) ≡ some t
      → (s : Session K) × (handle_events
            (init (some (record { maximum = maximum; used = others })))
            ((start, audio_start (some target)) ∷ stream_events parts end)
          ≡ ok (record { session = s; keep_open = false; sent = transcript t ∷ [] }))
  unfolding handle_events
  handle_events-transcribes start end parts t p e some_bytes fits room found =
      let (s, ends) =
        parts_lem parts end start.later (start.later + c.max_audio_ms + c.event_timeout_ms) 0 [] t p
          e refl (omega arith) (omega arith) (omega arith) found in
      (s, rw (start_lem start, ends) refl)
