-- ===== src/Tts/Examples.antt =====
-- Runs of the synthesis handler with an engine that yields two pieces of audio for any text.
use wyoming_vietnamese.Common.{
  ◌==◌, ℕ, ◌≡◌, refl, inl, true, false, none, some, List, [], ◌∷◌, ◌++◌, arith,
}
use wyoming_vietnamese.Tts.{
  unicode_encode_error, done, TtsEngine, Config, Session, Event, synthesize_start, synthesize_chunk,
  synthesize_stop, error, audio_start, audio_stop, exhausted, Attempt, wrote, timed_out, World,
  Wire,
}
use wyoming_vietnamese.Tts.Output.{write_event, write_audio_failure}
use wyoming_vietnamese.Tts.Synthesis.{produced, attempt_body, synthesize}
use wyoming_vietnamese.Tts.Synthesis as Synthesis
use wyoming_vietnamese.Tts.Synthesis.{synthesize_parts, synthesize_segment}
use wyoming_vietnamese.Tts.State.{init}
use wyoming_vietnamese.Tts.Handler.{handle_events}
use wyoming_vietnamese.Tts.Conforming.Streams.{IsConforming}
use wyoming_vietnamese.Tts.Conforming.Events.{handle_events-IsConforming}
use wyoming_vietnamese.Tts.Limits.{IsLimited}
use wyoming_vietnamese.Tts.Limits.Events.{handle_events-IsLimited}
use wyoming_vietnamese.Tts.Sound.{sound, Speaks, pause_after}
use wyoming_vietnamese.Tts.Playback.{attempt_body-cached, attempt_body-produced}
use wyoming_vietnamese.Tts.Endings.{IsContained, synthesize-IsContained}
use wyoming_vietnamese.Clauses.{Characters}
use wyoming_vietnamese.Stt.{nothing}

abbrev spaces_only : Characters
spaces_only = record {
  is_space = λ ch. ch == 32;
  is_digit = λ ch. false;
  is_alnum = λ ch. true;
  is_upper = λ token. false;
}

abbrev engine : TtsEngine
engine = record {
  preset_voices = "an" ∷ [];
  sample_rate = 1000;
  chunks_are_sentences = true;
  normalize = none;
  split_text_by_tokens = none;
}

abbrev settings : Config
settings = record {
  max_text_chars = 40;
  max_request_ms = 1000;
  sentence_silence_ms = 1;
  clause_silence_ms = 1;
  paragraph_silence_ms = 1;
  has_voice_usage_store = true;
  caches_results = true;
  nghitts_voices_by_id = λ id. none;
  zerotts_voices_by_id = λ id. none;
}

abbrev two_pieces : Attempt
two_pieces = record {
  closing = false;
  cached = none;
  acquired = true;
  closing_after = false;
  cached_after_wait = none;
  engine_audio = (1 ∷ 2 ∷ []) ∷ (3 ∷ 4 ∷ []) ∷ [];
  engine_end = exhausted;
}

abbrev hit : Attempt
hit = record two_pieces { cached = some (1 ∷ 2 ∷ 0 ∷ 0 ∷ 3 ∷ 4 ∷ []) }

abbrev good_world : World
good_world = record { write = λ n. wrote; attempt = λ n. two_pieces }

abbrev slow_world : World
slow_world = record { write = λ n. timed_out; attempt = λ n. two_pieces }

abbrev no_events : Wire
no_events = record { sent = []; written = 0; tried = 0; used_voices = [] }

-- `Hi.` and `a`, in two chunks.
abbrev some_stream : List (ℕ × Event)
some_stream =
    (5, synthesize_start (some (record { voice = none; text_format = nothing })))
    ∷ (6, synthesize_chunk (some (72 ∷ 105 ∷ 46 ∷ [])))
    ∷ (7, synthesize_chunk (some (32 ∷ 97 ∷ [])))
    ∷ (8, synthesize_stop)
    ∷ []

handle_events-IsConforming_example : IsConforming settings (
    handle_events
      (λ s. s)
      spaces_only
      engine
      settings
      good_world
      some_stream
      (init engine)
      no_events)
handle_events-IsConforming_example =
    handle_events-IsConforming (λ s. s) spaces_only engine settings good_world (λ n. refl)
      (λ n. (refl, refl)) some_stream (init engine) no_events refl (λ idle. refl)

abbrev one_chunk : Event
one_chunk = synthesize_chunk (some (72 ∷ 105 ∷ 46 ∷ []))

abbrev in_stream : Session
in_stream = record (init engine) { is_streaming = true; stream_text_chars = 12 }

abbrev two_chunks : List (ℕ × Event)
two_chunks = (6, one_chunk) ∷ (7, one_chunk) ∷ []

handle_events-IsLimited_example :
    IsLimited settings 18 0
      (handle_events (λ s. s) spaces_only engine settings slow_world two_chunks in_stream no_events)
unfolding wyoming_vietnamese.Clauses.Spaces.rstrip wyoming_vietnamese.Clauses.Spaces.lstrip
handle_events-IsLimited_example =
    handle_events-IsLimited (λ s. s) spaces_only engine settings slow_world two_chunks 12 0
      in_stream no_events (refl, refl, omega arith, omega arith)

attempt_body-cached_example :
    Speaks 6
      (sound []
        ++ ((1 ∷ 2 ∷ 0 ∷ 0 ∷ 3 ∷ 4 ∷ [])
            ++ pause_after spaces_only engine settings false (72 ∷ 46 ∷ []) []))
      (attempt_body spaces_only engine settings good_world true false
        (72 ∷ 46 ∷ [])
        []
        hit
        no_events)
attempt_body-cached_example =
    attempt_body-cached spaces_only engine settings good_world (λ n. refl) true false (72 ∷ 46 ∷ [])
      [] (1 ∷ 2 ∷ 0 ∷ 0 ∷ 3 ∷ 4 ∷ []) hit no_events refl (inl refl)

abbrev heard : List ℕ
heard = 1 ∷ 2 ∷ 0 ∷ 0 ∷ 3 ∷ 4 ∷ []

attempt_body-produced_example :
    Speaks 6
      (sound [] ++ (heard ++ pause_after spaces_only engine settings false (72 ∷ 46 ∷ []) []))
      (attempt_body spaces_only engine settings good_world true false
        (72 ∷ 46 ∷ [])
        []
        two_pieces
        no_events)
attempt_body-produced_example =
    attempt_body-produced spaces_only engine settings good_world (λ n. refl) true false
      (72 ∷ 46 ∷ []) [] two_pieces no_events (refl, refl, refl, refl, refl) refl (λ e. cc)

synthesize-IsContained_example :
    IsContained settings
      (synthesize spaces_only engine settings slow_world true true [] (72 ∷ []) no_events)
synthesize-IsContained_example =
    synthesize-IsContained spaces_only engine settings slow_world true true [] (72 ∷ []) no_events

-- The failure before any audio is an empty audio lifecycle.
empty_lifecycle :
    write_audio_failure good_world 1000 "busy" "server-busy" false no_events
    ≡ done (record {
      sent = error "busy" "server-busy" ∷ audio_start 1000 ∷ audio_stop ∷ [];
      written = 3;
      tried = 0;
      used_voices = [];
    })
unfolding write_audio_failure write_event
empty_lifecycle = refl

-- The key of a text with a surrogate raises, and open audio is left open.
run_surrogate :
    synthesize_parts spaces_only engine settings good_world false true []
      ((55296 ∷ []) ∷ [])
      no_events
    ≡ Synthesis.raised (unicode_encode_error (55296 ∷ [])) no_events
unfolding synthesize_parts synthesize_segment
run_surrogate = refl
