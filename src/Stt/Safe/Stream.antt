-- ===== src/Stt/Safe/Stream.antt =====
-- The chunks and the end of an audio stream, and `handle_event` as a whole.
use wyoming_vietnamese.Common.{
  ltb, ◌==◌, if◌then◌else◌, length, ◌>>=◌, ok, ℕ, ◌+◌, ◌*◌, ◌/◌, ◌%◌, ◌≡◌, refl, ap, Bool, true,
  false, not, ◌&&◌, Option, none, some, List, [], ◌∷◌, arith,
}
use Prim.Native.String.{String}
use wyoming_vietnamese.Stt.{
  max_empty_events, max_audio_bytes, Format, Config, Session, Chunk, Event, describe, transcribe,
  audio_start, audio_chunk, audio_stop, other_event, transcript, keep,
}
use wyoming_vietnamese.Stt.Buffer.{append_audio, audio_deadline_exceeded, clear_audio_buffer}
use wyoming_vietnamese.Stt.Requests.{fail}
use wyoming_vietnamese.Stt.Chunks.{
  is_empty, append_all, append_converted, converted_parts, empty_chunk, data_chunk, counted_chunk,
  parsed_chunk, stream_of, chunk_of_stream, same_format, handle_audio_chunk,
}
use wyoming_vietnamese.Stt.Handler.{
  Outside, ended, respond, run_recognition, finish, handle_audio_stop, on_event, handle_event,
  disconnect,
}
use wyoming_vietnamese.Stt.Safe.{
  Holds, IsValid, IsSafe, if-IsSafe, clear_audio_buffer-Holds, clear-IsSafe, fail-IsSafe,
  handle_transcribe-IsSafe, handle_audio_start-IsSafe,
}
use wyoming_vietnamese.Stt.Safe.Append.{append_audio-IsAppended, then-IsSafe}

module _ {K : Type 0} (tomono : ℕ → List ℕ → Option (List ℕ))
    (convert : K → Format → List ℕ → Option (K × List ℕ)) (others : ℕ) where
  append_all-IsSafe :
      (max_bytes : ℕ) (s : Session K) (parts : List (List ℕ))
      → IsValid max_bytes others s
      → IsSafe max_bytes others (append_all tomono convert max_bytes s parts)
  unfolding append_all
  append_all-IsSafe max_bytes s [] v = (v, tt)
  append_all-IsSafe max_bytes s (part ∷ parts) v =
      then-IsSafe max_bytes others s (append_audio max_bytes s part) _
        (append_audio-IsAppended max_bytes others s part v)
        (λ s' v'. append_all-IsSafe max_bytes s' parts v')
        (λ detail code. fail-IsSafe max_bytes others s detail code v.2)

  append_converted-IsSafe :
      (c : Config) (s : Session K) (converted : Option (K × List (List ℕ)))
      → IsValid (max_audio_bytes c) others s
      → IsSafe (max_audio_bytes c) others (append_converted tomono convert c s converted)
  append_converted-IsSafe c s none v = fail-IsSafe (max_audio_bytes c) others s _ _ v.2
  append_converted-IsSafe c s (some (k, parts)) v =
      append_all-IsSafe (max_audio_bytes c) (record s { converter = some k }) parts v

  empty_chunk-IsSafe :
      (max_bytes : ℕ) (s : Session K)
      → IsValid max_bytes others s
      → IsSafe max_bytes others (empty_chunk tomono convert s)
  empty_chunk-IsSafe max_bytes s v =
      if-IsSafe max_bytes others (ltb max_empty_events s.empty_chunk_count) (fail s _ _)
        (ok (keep s)) (fail-IsSafe max_bytes others s _ _ v.2) (v, tt)

  data_chunk-IsSafe :
      (c : Config) (s : Session K) (f : Format) (k : K) (audio : List ℕ)
      → IsValid (max_audio_bytes c) others s
      → IsSafe (max_audio_bytes c) others (data_chunk tomono convert c s f k audio)
  data_chunk-IsSafe c s f k audio v =
      let max_bytes = max_audio_bytes c in
      let frames = s.input_audio_frames + length audio / (f.width * f.channels) in
      let counted = record s {
        input_audio_frames = frames;
        input_audio_bytes = s.input_audio_bytes + length audio;
      } in
      let converted =
        append_converted tomono convert c counted (converted_parts tomono convert k f audio) in
      let too_long = ltb (c.max_audio_ms * f.rate / 1000) frames in
      let long = fail s "Audio exceeds the configured duration limit" "audio-too-long" in
      if-IsSafe max_bytes others (not (length audio % (f.width * f.channels) == 0)) (fail s _ _)
        (if too_long then long else converted) (fail-IsSafe max_bytes others s _ _ v.2)
        (if-IsSafe max_bytes others too_long long converted (fail-IsSafe max_bytes others s _ _ v.2)
          (append_converted-IsSafe c counted (converted_parts tomono convert k f audio) v))

  counted_chunk-IsSafe :
      (c : Config) (s : Session K) (f : Format) (k : K) (audio : List ℕ)
      → IsValid (max_audio_bytes c) others s
      → IsSafe (max_audio_bytes c) others (counted_chunk tomono convert c s f k audio)
  counted_chunk-IsSafe c s f k audio v =
      let max_bytes = max_audio_bytes c in
      let one_more = record s { empty_chunk_count = s.empty_chunk_count + 1 } in
      let none_empty = record s { empty_chunk_count = 0 } in
      if-IsSafe max_bytes others (is_empty audio) (empty_chunk tomono convert one_more)
        (data_chunk tomono convert c none_empty f k audio) (empty_chunk-IsSafe max_bytes one_more v)
        (data_chunk-IsSafe c none_empty f k audio v)

  parsed_chunk-IsSafe :
      (c : Config) (now : ℕ) (s : Session K) (f : Format) (k : K) (chunk : Option Chunk)
      → IsValid (max_audio_bytes c) others s
      → IsSafe (max_audio_bytes c) others (parsed_chunk tomono convert c now s f k chunk)
  parsed_chunk-IsSafe c now s f k none v = fail-IsSafe (max_audio_bytes c) others s _ _ v.2
  parsed_chunk-IsSafe c now s f k (some chunk) v =
      let max_bytes = max_audio_bytes c in
      let counted = record s { audio_chunk_count = s.audio_chunk_count + 1 } in
      let late = fail s "Audio stream exceeded the configured request deadline" "request-timeout" in
      let next = counted_chunk tomono convert c counted f k chunk.audio in
      if-IsSafe max_bytes others (not (same_format chunk.format f)) (fail s _ _)
        (if audio_deadline_exceeded s now then late else next)
        (fail-IsSafe max_bytes others s _ _ v.2)
        (if-IsSafe max_bytes others (audio_deadline_exceeded s now) late next
          (fail-IsSafe max_bytes others s _ _ v.2)
          (counted_chunk-IsSafe c counted f k chunk.audio v))

  chunk_of_stream-IsSafe :
      (c : Config) (now : ℕ) (s : Session K) (chunk : Option Chunk) (stream : Option (Format × K))
      → IsValid (max_audio_bytes c) others s
      → IsSafe (max_audio_bytes c) others (chunk_of_stream tomono convert c now s chunk stream)
  chunk_of_stream-IsSafe c now s chunk none v = fail-IsSafe (max_audio_bytes c) others s _ _ v.2
  chunk_of_stream-IsSafe c now s chunk (some (f, k)) v = parsed_chunk-IsSafe c now s f k chunk v

is_empty-nil : (bytes : List ℕ) → is_empty bytes ≡ true → bytes ≡ []
is_empty-nil [] h = refl
is_empty-nil (b ∷ bytes) h = cc

module _ {K : Type 0} (recognize : List ℕ → Option String) (max_bytes others : ℕ) where
  -- Once the buffer is empty and nothing is reserved, both outcomes of the recogniser are safe.
  respond-IsSafe :
      (o : Outside) (s : Session K) (found : Option String)
      → Holds others s.buffer_budget 0
      → s.audio_bytes ≡ []
      → s.reserved_audio_bytes ≡ 0
      → s.audio_started ≡ false
      → IsSafe max_bytes others (respond recognize o s found)
  respond-IsSafe o s none h empty none_held stopped =
      fail-IsSafe max_bytes others s _ _ (rw none_held h)
  respond-IsSafe o s (some t) h empty none_held stopped = (
    (rw (none_held, empty) refl, rw empty (omega arith), rw none_held h),
    (empty, none_held, stopped),
  )

  run_recognition-IsSafe :
      (o : Outside) (s : Session K)
      → IsValid max_bytes others s
      → s.audio_started ≡ false
      → IsSafe max_bytes others (run_recognition recognize o s)
  run_recognition-IsSafe o s v stopped =
      let odd = fail s "Speech recognition failed" "inference-failed" in
      let recognized =
        clear_audio_buffer s >>= λ s'. respond recognize o s' (recognize s.audio_bytes) in
      if-IsSafe max_bytes others o.closing (clear_audio_buffer s >>= _)
        (if not (length s.audio_bytes % 2 == 0) then odd else recognized)
        (clear-IsSafe max_bytes others s _ v.2
          (λ budget h. ((refl, omega arith, h), (refl, refl, stopped))))
        (if-IsSafe max_bytes others (not (length s.audio_bytes % 2 == 0)) odd recognized
          (fail-IsSafe max_bytes others s _ _ v.2)
          (clear-IsSafe max_bytes others s _ v.2
            (λ budget h. respond-IsSafe o _ (recognize s.audio_bytes) h refl refl stopped)))

  -- A stream that ends without audio holds nothing.
  ended-IsSafe :
      (s : Session K)
      → IsValid max_bytes others s
      → s.audio_started ≡ false
      → is_empty s.audio_bytes ≡ true
      → IsSafe max_bytes others (ok (ended recognize s (transcript "" ∷ [])))
  ended-IsSafe s v stopped h =
      let empty = is_empty-nil s.audio_bytes h in
      (v, (empty, omega (arith, v.0, ap length empty), stopped))

  finish-IsSafe :
      (o : Outside) (s : Session K) (empty : Bool)
      → is_empty s.audio_bytes ≡ empty
      → IsValid max_bytes others s
      → s.audio_started ≡ false
      → IsSafe max_bytes others (finish recognize o s)
  finish-IsSafe o s true e v stopped = rw e (ended-IsSafe s v stopped e)
  finish-IsSafe o s false e v stopped = rw e (
      if-IsSafe max_bytes others (not o.acquired) (fail s _ _) (run_recognition recognize o s)
        (fail-IsSafe max_bytes others s _ _ v.2) (run_recognition-IsSafe o s v stopped))

  handle_audio_stop-IsSafe :
      (o : Outside) (s : Session K)
      → IsValid max_bytes others s
      → IsSafe max_bytes others (handle_audio_stop recognize o s)
  unfolding handle_audio_stop
  handle_audio_stop-IsSafe o s v =
      let stopped = record s { audio_started = false; source_format = none; converter = none } in
      let late = fail s "Audio stream exceeded the configured request deadline" "request-timeout" in
      let next = finish recognize o stopped in
      if-IsSafe max_bytes others (not s.audio_started) (fail s _ _)
        (if audio_deadline_exceeded s o.later then late else next)
        (fail-IsSafe max_bytes others s _ _ v.2)
        (if-IsSafe max_bytes others (audio_deadline_exceeded s o.later) late next
          (fail-IsSafe max_bytes others s _ _ v.2)
          (finish-IsSafe o stopped (is_empty s.audio_bytes) refl v refl))

module _ {K : Type 0} (normalize : String → String) (fresh : K)
    (tomono : ℕ → List ℕ → Option (List ℕ)) (convert : K → Format → List ℕ → Option (K × List ℕ))
    (recognize : List ℕ → Option String) (others : ℕ) where
  on_event-IsSafe :
      (c : Config) (o : Outside) (s : Session K) (event : Event)
      → IsValid (max_audio_bytes c) others s
      → IsSafe
          (max_audio_bytes c)
          others
          (on_event normalize fresh tomono convert recognize c o s event)
  unfolding handle_audio_chunk
  on_event-IsSafe c o s describe v = (v, tt)
  on_event-IsSafe c o s (transcribe request) v =
      handle_transcribe-IsSafe (max_audio_bytes c) others normalize c s request v
  on_event-IsSafe c o s (audio_start format) v =
      handle_audio_start-IsSafe (max_audio_bytes c) others c fresh o.later s format v
  on_event-IsSafe c o s (audio_chunk chunk) v =
      chunk_of_stream-IsSafe tomono convert others c o.later s chunk
        (stream_of tomono convert s.audio_started s.source_format s.converter) v
  on_event-IsSafe c o s audio_stop v =
      handle_audio_stop-IsSafe recognize (max_audio_bytes c) others o s v
  on_event-IsSafe c o s other_event v = (v, tt)

  -- On any event, at any time and whatever the converter and the recogniser return, the handler
  -- returns; it buffers at most `max_audio_bytes`, has reserved just what it buffers, and leaves the
  -- reservations of the other handlers alone; and when it ends the request, nothing is held.
  pub handle_event-IsSafe :
      (c : Config) (o : Outside) (s : Session K) (event : Event)
      → IsValid (max_audio_bytes c) others s
      → IsSafe
          (max_audio_bytes c)
          others
          (handle_event normalize fresh tomono convert recognize c o s event)
  unfolding handle_event
  handle_event-IsSafe c o s event v =
      if-IsSafe (max_audio_bytes c) others (s.audio_started && audio_deadline_exceeded s o.now)
        (fail s _ _) (on_event normalize fresh tomono convert recognize c o s event)
        (fail-IsSafe (max_audio_bytes c) others s _ _ v.2) (on_event-IsSafe c o s event v)

-- A disconnect in any valid state gives back all that the handler has reserved.
pub disconnect-gives_back :
    {K : Type 0} (max_bytes others : ℕ) (s : Session K)
    → IsValid max_bytes others s
    → (s' : Session K) × (disconnect s ≡ ok s')
      × (s'.audio_bytes ≡ [])
      × (s'.reserved_audio_bytes ≡ 0)
      × IsValid max_bytes others s'
unfolding disconnect
disconnect-gives_back max_bytes others s v =
    let (budget, clears, holds) = clear_audio_buffer-Holds max_bytes others s v.2 in
    (
      record s {
        buffer_budget = budget;
        reserved_audio_bytes = 0;
        audio_bytes = [];
        audio_started_at = none;
        audio_deadline = none;
        converter = none;
      },
      rw clears refl,
      refl,
      refl,
      (refl, omega arith, holds),
    )
