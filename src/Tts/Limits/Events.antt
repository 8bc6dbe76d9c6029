-- ===== src/Tts/Limits/Events.antt =====
-- The limits on the text of a connection's streams, from the first event to the last.
use wyoming_vietnamese.Common.{
  ltb, if◌then◌else◌, length, ℕ, ◌+◌, refl, Bool, true, false, not, ◌||◌, Option, none, some, List,
  [], ◌∷◌, arith,
}
use wyoming_vietnamese.Tts.{
  TtsEngine, Config, Session, StreamRequest, Event, describe, synthesize_start, synthesize_chunk,
  synthesize_stop, synthesize, other_event, World, Wire, Ending, Written, done, failed, keep_open,
  close, raised, Answer,
}
use wyoming_vietnamese.Tts.Requests.{is_supported_text_format, resolve_voice_name, answer}
use wyoming_vietnamese.Tts.State.{reset_stream, stream_deadline_exceeded}
use wyoming_vietnamese.Tts.Stream.{
  fail_stream, buffer_text, take_text, start_with_voice, handle_stream_start, handle_stream_chunk,
  speak_rest, handle_stream_stop,
}
use wyoming_vietnamese.Tts.Limits.Requests.{handle_synthesize-IsLimited}
use wyoming_vietnamese.Tts.Handler.{handle_event}
use wyoming_vietnamese.Clauses.{Characters}
use wyoming_vietnamese.Clauses.Spaces.{strip}
use wyoming_vietnamese.Clauses.Matches.{is_empty}
use wyoming_vietnamese.Clauses.Detector as Detector
use wyoming_vietnamese.Clauses.Detector.{add_chunk_with_separators}
use wyoming_vietnamese.Stt.{max_empty_events}
use Prim.Native.String.{String}
use wyoming_vietnamese.Tts.Limits.{
  IsWithin, Limits, IsLimited, text_after, blanks_after, text_chars, blank_chunks,
  if_known-IsLimited, reset_after-IsLimited, fail_stream-IsLimited, speak_within_limit-IsLimited,
  speak_ready-IsLimited,
}
use wyoming_vietnamese.Tts.Handler.{handle_events, after_event}

-- The handlers of events, from some counts to others.
module _ (lower : String → String) (chars : Characters) (engine : TtsEngine) (c : Config)
    (world : World) (now n b : ℕ) where
  buffer_text-IsLimited :
      (text : List ℕ) (s : Session) (w : Wire)
      → IsWithin c n b s
      → IsLimited c (n + length text) b (buffer_text lower chars engine c world now text s w)
  buffer_text-IsLimited text s w (so_long, so_many, within, few) =
      if_known-IsLimited c _ _ (ltb c.max_text_chars (s.stream_text_chars + length text)) _ _
        (λ long. fail_stream-IsLimited lower chars engine c world now _ _ _ _ _ w)
        (λ short.
          speak_ready-IsLimited lower chars engine c world now _ _
            (add_chunk_with_separators chars s.sentence_boundary text).0 _ w
            (rw so_long refl, so_many, ground arith, few))

module _ (lower : String → String) (chars : Characters) (engine : TtsEngine) (c : Config)
    (world : World) (now n b : ℕ) where
  take_text-IsLimited :
      (text : List ℕ) (s : Session) (w : Wire)
      → IsWithin c n b s
      → IsLimited c
          (n + length text)
          (if is_empty (strip chars.is_space text) then b + 1 else 0)
          (take_text lower chars engine c world now text s w)
  take_text-IsLimited text s w (so_long, so_many, within, few) =
      chosen (is_empty (strip chars.is_space text))
    where
      chosen :
          (blank : Bool)
          → IsLimited c (n + length text) (if blank then b + 1 else 0) (
              if blank
              then (if ltb max_empty_events (s.stream_empty_events + 1)
                  then fail_stream lower chars engine c world now
                      "Synthesis stream made no progress" "too-many-empty-events"
                      (record s { stream_empty_events = s.stream_empty_events + 1 })
                      w
                  else buffer_text lower chars engine c world now text
                      (record s { stream_empty_events = s.stream_empty_events + 1 })
                      w)
              else buffer_text lower chars engine c world now text
                  (record s { stream_empty_events = 0 })
                  w)
      chosen true =
          if_known-IsLimited c _ _ (ltb max_empty_events (s.stream_empty_events + 1)) _ _
            (λ many. fail_stream-IsLimited lower chars engine c world now _ _ _ _ _ w)
            (λ not_many.
              buffer_text-IsLimited lower chars engine c world now n (b + 1) text _ w
                (so_long, rw so_many refl, within, ground arith))
      chosen false =
          buffer_text-IsLimited lower chars engine c world now n 0 text _ w
            (so_long, refl, within, omega arith)

  handle_stream_chunk-IsLimited :
      (chunk : Option (List ℕ)) (s : Session) (w : Wire)
      → IsWithin c n b s
      → IsLimited c
          (text_after (synthesize_chunk chunk) n)
          (blanks_after chars (synthesize_chunk chunk) b)
          (handle_stream_chunk lower chars engine c world now chunk s w)
  unfolding handle_stream_chunk
  handle_stream_chunk-IsLimited none s w h =
      if_known-IsLimited c _ _ (not s.is_streaming) _ _
        (λ e. fail_stream-IsLimited lower chars engine c world now _ _ _ _ s w)
        (λ e. fail_stream-IsLimited lower chars engine c world now _ _ _ _ s w)
  handle_stream_chunk-IsLimited (some text) s w h =
      if_known-IsLimited c _ _ (not s.is_streaming) _ _
        (λ e. fail_stream-IsLimited lower chars engine c world now _ _ _ _ s w)
        (λ e.
          if_known-IsLimited c _ _ (stream_deadline_exceeded s now) _ _
            (λ late. fail_stream-IsLimited lower chars engine c world now _ _ _ _ s w)
            (λ in_time. take_text-IsLimited text s w h))

  speak_rest-IsLimited :
      (final_text : List ℕ) (s : Session) (w : Wire)
      → IsWithin c n b s
      → IsLimited c 0 0 (speak_rest lower chars engine c world now final_text s w)
  speak_rest-IsLimited [] s w h =
      if_known-IsLimited c _ _ s.stream_audio_started _ _ (λ e. reset_after-IsLimited c engine s _)
        (λ e. fail_stream-IsLimited lower chars engine c world now _ _ _ _ s w)
  speak_rest-IsLimited (x ∷ final_text) s w h =
      speak_within_limit-IsLimited lower chars engine c world now 0 0 n b true _ _ s w h
        (λ s' w' h'. reset_after-IsLimited c engine s' _)

  handle_stream_stop-IsLimited :
      (s : Session) (w : Wire)
      → IsWithin c n b s
      → IsLimited c 0 0 (handle_stream_stop lower chars engine c world now s w)
  unfolding handle_stream_stop
  handle_stream_stop-IsLimited s w h =
      if_known-IsLimited c _ _ (not s.is_streaming) _ _
        (λ e. fail_stream-IsLimited lower chars engine c world now _ _ _ _ s w)
        (λ e.
          if_known-IsLimited c _ _ (stream_deadline_exceeded s now) _ _
            (λ late. fail_stream-IsLimited lower chars engine c world now _ _ _ _ s w)
            (λ in_time. speak_rest-IsLimited (Detector.finish chars s.sentence_boundary).0 _ w h))

  handle_stream_start-IsLimited :
      (request : Option StreamRequest) (s : Session) (w : Wire)
      → IsLimited c 0 0 (handle_stream_start lower chars engine c world now request s w)
  unfolding handle_stream_start reset_stream
  handle_stream_start-IsLimited none s w =
      if_known-IsLimited c _ _ s.is_streaming _ _
        (λ e. fail_stream-IsLimited lower chars engine c world now _ _ _ _ s w)
        (λ e. fail_stream-IsLimited lower chars engine c world now _ _ _ _ s w)
  handle_stream_start-IsLimited (some r) s w =
      if_known-IsLimited c _ _ s.is_streaming _ _
        (λ e. fail_stream-IsLimited lower chars engine c world now _ _ _ _ s w)
        (λ e.
          begun (is_supported_text_format r.text_format)
            (resolve_voice_name lower engine c r.voice))
    where
      begun :
          (supported : Bool) (voice : Option (Option String))
          → IsLimited c 0 0 (start_with_voice lower chars engine c world now supported voice s w)
      begun supported none = fail_stream-IsLimited lower chars engine c world now _ _ _ _ s w
      begun false (some voice) = fail_stream-IsLimited lower chars engine c world now _ _ _ _ s w
      begun true (some voice) = (refl, refl, omega arith, omega arith)

-- Any events.
module _ (lower : String → String) (chars : Characters) (engine : TtsEngine) (c : Config)
    (world : World) where
  described-IsLimited :
      (n b : ℕ) (s : Session) (r : Written)
      → IsWithin c n b s
      → IsLimited c n b (answer s keep_open r)
  described-IsLimited n b s (done w) h = h
  described-IsLimited n b s (failed e w) h = tt

  handle_event-IsLimited :
      (now n b : ℕ) (event : Event) (s : Session) (w : Wire)
      → IsWithin c n b s
      → IsLimited c
          (text_after event n)
          (blanks_after chars event b)
          (handle_event lower chars engine c world now event s w)
  unfolding handle_event
  handle_event-IsLimited now n b describe s w h = described-IsLimited n b s _ h
  handle_event-IsLimited now n b (synthesize_start request) s w h =
      handle_stream_start-IsLimited lower chars engine c world now n b request s w
  handle_event-IsLimited now n b (synthesize_chunk chunk) s w h =
      handle_stream_chunk-IsLimited lower chars engine c world now n b chunk s w h
  handle_event-IsLimited now n b synthesize_stop s w h =
      handle_stream_stop-IsLimited lower chars engine c world now n b s w h
  handle_event-IsLimited now n b (synthesize request) s w h =
      if_known-IsLimited c _ _ (s.is_streaming || s.stream_lifecycle_served) _ _ (λ e. h)
        (λ e. handle_synthesize-IsLimited lower chars engine c world now n b request s w)
  handle_event-IsLimited now n b other_event s w h = h

  after_event-IsLimited :
      (n b n' b' : ℕ) (end : Ending) (s : Session) (w : Wire) (rest : Session → Wire → Answer)
      → Limits c n b end s
      → ((s' : Session) (w' : Wire) → IsWithin c n b s' → IsLimited c n' b' (rest s' w'))
      → IsLimited c n' b' (after_event end s w rest)
  after_event-IsLimited n b n' b' keep_open s w rest h k = k s w h
  after_event-IsLimited n b n' b' close s w rest h k = tt
  after_event-IsLimited n b n' b' (raised e) s w rest h k = tt

  -- Whatever is written, spoken or raised: if the connection is still open after some events, then the
  -- characters of the chunks since the last start or stop, with those that were there before the
  -- events, are counted exactly, and are at most `max_text_chars`; so are the blank chunks in a row,
  -- and they are at most `MAX_EMPTY_EVENTS`. That holds if it held of what was there before.
  pub handle_events-IsLimited :
      (events : List (ℕ × Event)) (n b : ℕ) (s : Session) (w : Wire)
      → IsWithin c n b s
      → IsLimited c
          (text_chars events n)
          (blank_chunks chars events b)
          (handle_events lower chars engine c world events s w)
  unfolding handle_events
  handle_events-IsLimited [] n b s w h = h
  handle_events-IsLimited ((now, event) ∷ events) n b s w h =
      let a = handle_event lower chars engine c world now event s w in
      after_event-IsLimited (text_after event n) (blanks_after chars event b) _ _ a.ending a.session
        a.wire _ (handle_event-IsLimited now n b event s w h)
        (λ s' w' h'. handle_events-IsLimited events _ _ s' w' h')
