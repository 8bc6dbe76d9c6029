-- ===== src/Tts/Conforming/Events.antt =====
-- The events that a connection's handler writes, from the first event to the last.
use wyoming_vietnamese.Common.{
  ltb, length, ℕ, ◌≡◌, refl, subst, Bool, true, false, not, ◌||◌, Option, none, some, List, [], ◌∷◌,
}
use wyoming_vietnamese.Tts.{
  unicode_encode_error, write_error, TtsEngine, Config, Session, StreamRequest, Request, Event,
  describe, synthesize_start, synthesize_chunk, synthesize_stop, synthesize, other_event,
  service_info, wrote, World, Wire, Written, done, failed, Ending, keep_open, close, raised, Answer,
}
use wyoming_vietnamese.Tts.Synthesis as Synthesis
use wyoming_vietnamese.Tts.Synthesis.{Speech, spoken, unspoken}
use wyoming_vietnamese.Tts.Requests.{
  is_supported_text_format, resolve_voice_name, normalize_for_limit, answer, fail, finish_request,
  speak_normalized, speak_request, handle_synthesize,
}
use wyoming_vietnamese.Tts.State.{reset_stream}
use wyoming_vietnamese.Tts.Stream.{start_with_voice, handle_stream_start, handle_stream_chunk}
use wyoming_vietnamese.Tts.Handler.{handle_events, after_event, handle_event}
use wyoming_vietnamese.Tts.Conforming.{
  Mode, closed, mode_of, At, Reaches, write_event-Reaches, write_audio_failure-Reaches,
}
use wyoming_vietnamese.Tts.Conforming.Segments.{SpeechReaches, synthesize-SpeechReaches}
use wyoming_vietnamese.Tts.Conforming.Streams.{
  IsQuiet, Conforms, IsConforming, if-IsConforming, if_known-IsConforming, answer-IsConforming,
  record_voice_usage-At, fail_stream-IsConforming, parsed_chunk-IsConforming,
  handle_stream_stop-IsConforming,
}
use wyoming_vietnamese.Clauses.{Characters}
use wyoming_vietnamese.Clauses.Spaces.{strip}
use wyoming_vietnamese.Clauses.Matches.{is_empty}
use Prim.Native.String.{String}

not-false : (b : Bool) → not b ≡ false → b ≡ true
not-false true h = refl
not-false false h = cc

or-false : (a b : Bool) → (a || b) ≡ false → a ≡ false
or-false true b h = cc
or-false false b h = refl

described :
    (c : Config) (m : Mode) (s : Session) (r : Written)
    → Reaches m r
    → IsQuiet s
    → m ≡ mode_of s.stream_audio_started
    → IsConforming c (answer s keep_open r)
described c m s (done w) h quiet same = (subst (λ (m : Mode). At m w) same h, quiet)
described c m s (failed e w) h quiet same = absurd h

module _ (lower : String → String) (chars : Characters) (engine : TtsEngine) (c : Config)
    (world : World) (writes : (n : ℕ) → world.write n ≡ wrote)
    (stays : (n : ℕ)
      → ((world.attempt n).closing ≡ false) × ((world.attempt n).closing_after ≡ false)) where
  fail-IsConforming :
      (text code : String) (s : Session) (w : Wire)
      → At closed w
      → IsConforming c (fail lower chars engine c world text code s w)
  unfolding fail
  fail-IsConforming text code s w h =
      answer-IsConforming c s _
        (write_audio_failure-Reaches world writes engine.sample_rate text code false w h)

  finish_request-IsConforming :
      (voice : Option String) (s : Session) (speech : Speech)
      → SpeechReaches c closed speech
      → IsConforming c (finish_request lower chars engine c world voice s speech)
  finish_request-IsConforming voice s (spoken bytes w) h =
      record_voice_usage-At engine c voice closed w h
  finish_request-IsConforming voice s (unspoken w) h = h
  finish_request-IsConforming voice s (Synthesis.raised (write_error e) w) h = absurd h
  finish_request-IsConforming voice s (Synthesis.raised (unicode_encode_error text) w) h = h

  speak_normalized-IsConforming :
      (voice : Option String) (text : Option (List ℕ)) (s : Session) (w : Wire)
      → At closed w
      → IsConforming c (speak_normalized lower chars engine c world voice text s w)
  speak_normalized-IsConforming voice none s w h = fail-IsConforming _ _ s w h
  speak_normalized-IsConforming voice (some text) s w h =
      if-IsConforming c (ltb c.max_text_chars (length text)) _ _ (fail-IsConforming _ _ s w h) (
        finish_request-IsConforming voice s _
          (synthesize-SpeechReaches chars engine c world writes stays true true [] text w h))

  speak_request-IsConforming :
      (text : List ℕ) (supported : Bool) (voice : Option (Option String)) (s : Session) (w : Wire)
      → At closed w
      → IsConforming c (speak_request lower chars engine c world text supported voice s w)
  speak_request-IsConforming text supported none s w h = fail-IsConforming _ _ s w h
  speak_request-IsConforming text supported (some voice) s w h =
      if-IsConforming c (is_empty text) _ _ (fail-IsConforming _ _ s w h) (
        if-IsConforming c (not supported) _ _ (fail-IsConforming _ _ s w h) (
          if-IsConforming c (ltb c.max_text_chars (length text)) _ _ (fail-IsConforming _ _ s w h)
            (speak_normalized-IsConforming voice (normalize_for_limit engine text voice) s w h)))

  handle_synthesize-IsConforming :
      (request : Option Request) (s : Session) (w : Wire)
      → At closed w
      → IsConforming c (handle_synthesize lower chars engine c world request s w)
  unfolding handle_synthesize
  handle_synthesize-IsConforming none s w h = fail-IsConforming _ _ s w h
  handle_synthesize-IsConforming (some r) s w h =
      speak_request-IsConforming (strip chars.is_space r.text)
        (is_supported_text_format r.text_format) (resolve_voice_name lower engine c r.voice) s w h

  -- The start of a stream, where none is on.
  start_with_voice-IsConforming :
      (now : ℕ) (supported : Bool) (voice : Option (Option String)) (s : Session) (w : Wire)
      → At (mode_of s.stream_audio_started) w
      → s.stream_audio_started ≡ false
      → IsConforming c (start_with_voice lower chars engine c world now supported voice s w)
  unfolding reset_stream
  start_with_voice-IsConforming now supported none s w h silent =
      fail_stream-IsConforming lower chars engine c world now writes stays _ _ s w h
  start_with_voice-IsConforming now supported (some voice) s w h silent =
      if-IsConforming c (not supported) _ _
        (fail_stream-IsConforming lower chars engine c world now writes stays _ _ s w h)
        (
          record_voice_usage-At engine c voice closed w
              (subst (λ (a : Bool). At (mode_of a) w) silent h),
          λ idle. refl,
        )

  handle_stream_start-IsConforming :
      (now : ℕ) (request : Option StreamRequest) (s : Session) (w : Wire)
      → At (mode_of s.stream_audio_started) w
      → IsQuiet s
      → IsConforming c (handle_stream_start lower chars engine c world now request s w)
  unfolding handle_stream_start
  handle_stream_start-IsConforming now none s w h quiet =
      if-IsConforming c s.is_streaming _ _
        (fail_stream-IsConforming lower chars engine c world now writes stays _ _ s w h)
        (fail_stream-IsConforming lower chars engine c world now writes stays _ _ s w h)
  handle_stream_start-IsConforming now (some r) s w h quiet =
      if_known-IsConforming c s.is_streaming _ _
        (λ streams. fail_stream-IsConforming lower chars engine c world now writes stays _ _ s w h)
        (λ idle.
          start_with_voice-IsConforming now (is_supported_text_format r.text_format)
            (resolve_voice_name lower engine c r.voice) s w h (quiet idle))

  handle_stream_chunk-IsConforming :
      (now : ℕ) (chunk : Option (List ℕ)) (s : Session) (w : Wire)
      → At (mode_of s.stream_audio_started) w
      → IsConforming c (handle_stream_chunk lower chars engine c world now chunk s w)
  unfolding handle_stream_chunk
  handle_stream_chunk-IsConforming now chunk s w h =
      if_known-IsConforming c (not s.is_streaming) _ _
        (λ idle. fail_stream-IsConforming lower chars engine c world now writes stays _ _ s w h)
        (λ streams.
          parsed_chunk-IsConforming lower chars engine c world now writes stays chunk s w
            (not-false s.is_streaming streams) h)

  handle_event-IsConforming :
      (now : ℕ) (event : Event) (s : Session) (w : Wire)
      → At (mode_of s.stream_audio_started) w
      → IsQuiet s
      → IsConforming c (handle_event lower chars engine c world now event s w)
  unfolding handle_event
  handle_event-IsConforming now describe s w h quiet =
      described c _ s _ (write_event-Reaches world writes _ _ service_info w refl h) quiet refl
  handle_event-IsConforming now (synthesize_start request) s w h quiet =
      handle_stream_start-IsConforming now request s w h quiet
  handle_event-IsConforming now (synthesize_chunk chunk) s w h quiet =
      handle_stream_chunk-IsConforming now chunk s w h
  handle_event-IsConforming now synthesize_stop s w h quiet =
      handle_stream_stop-IsConforming lower chars engine c world now writes stays s w h
  handle_event-IsConforming now (synthesize request) s w h quiet =
      if_known-IsConforming c (s.is_streaming || s.stream_lifecycle_served) _ _
        (λ ignored. (h, quiet))
        (λ served. handle_synthesize-IsConforming request s w (
          subst (λ (a : Bool). At (mode_of a) w)
            (quiet (or-false s.is_streaming s.stream_lifecycle_served served)) h))
  handle_event-IsConforming now other_event s w h quiet = (h, quiet)

  after_event-IsConforming :
      (end : Ending) (s : Session) (w : Wire) (rest : Session → Wire → Answer)
      → Conforms c end s w
      → ((s' : Session) (w' : Wire)
          → At (mode_of s'.stream_audio_started) w'
          → IsQuiet s'
          → IsConforming c (rest s' w'))
      → IsConforming c (after_event end s w rest)
  after_event-IsConforming keep_open s w rest (h, quiet) k = k s w h quiet
  after_event-IsConforming close s w rest h k = h
  after_event-IsConforming (raised (write_error e)) s w rest h k = absurd h
  after_event-IsConforming (raised (unicode_encode_error text)) s w rest h k = h

  -- While every write ends well and the client stays connected, from a state that says whether audio
  -- is open after what was written, and in which none is open outside a stream: whatever events
  -- arrive and whatever the engine, the cache and the clock do, all that the handler has written is
  -- in order, which is that audio starts when none is open, chunks and stops come when audio is open,
  -- and `synthesize-stopped` when none is. When it closes the connection no audio is left open, and
  -- while it keeps it, its state says whether audio is open. No exception leaves the handler but the
  -- `UnicodeEncodeError` of a text that has a code point that UTF-8 does not encode, where results
  -- are cached.
  pub handle_events-IsConforming :
      (events : List (ℕ × Event)) (s : Session) (w : Wire)
      → At (mode_of s.stream_audio_started) w
      → IsQuiet s
      → IsConforming c (handle_events lower chars engine c world events s w)
  unfolding handle_events
  handle_events-IsConforming [] s w h quiet = (h, quiet)
  handle_events-IsConforming ((now, event) ∷ events) s w h quiet =
      let a = handle_event lower chars engine c world now event s w in
      after_event-IsConforming a.ending a.session a.wire _
        (handle_event-IsConforming now event s w h quiet)
        (λ s' w' h' quiet'. handle_events-IsConforming events s' w' h' quiet')
