-- ===== src/Tts/Stream.antt =====
-- `_handle_stream_start`, `_handle_stream_chunk`, `_handle_stream_stop` and `_fail_stream`. `now` is the
-- clock while an event is handled.
use wyoming_vietnamese.Common.{
  ltb, if◌then◌else◌, length, ℕ, ◌+◌, Bool, true, false, not, Option, none, some, List, [], ◌∷◌,
}
use wyoming_vietnamese.Tts.{
  TtsEngine, Config, Session, StreamRequest, audio_stop, synthesize_stopped, World, Wire, and_then,
  keep_open, close, Answer,
}
use wyoming_vietnamese.Tts.State.{
  Clause, clause_chars, reset_stream, reset_after, stream_deadline_exceeded, normalize_clauses,
}
use wyoming_vietnamese.Tts.Output.{write_event, write_audio_failure}
use wyoming_vietnamese.Tts.Synthesis as Synthesis
use wyoming_vietnamese.Tts.Synthesis.{Speech, spoken, unspoken}
use wyoming_vietnamese.Tts.Requests.{
  escape, is_supported_text_format, resolve_voice_name, record_voice_usage,
}
use wyoming_vietnamese.Clauses.{Characters}
use wyoming_vietnamese.Clauses.Spaces.{strip}
use wyoming_vietnamese.Clauses.Matches.{is_empty}
use wyoming_vietnamese.Clauses.Detector as Detector
use wyoming_vietnamese.Clauses.Detector.{
  add_chunk_with_separators, split_clause_text_with_separators,
}
use wyoming_vietnamese.Stt.{max_empty_events}
use Prim.Native.String.{String}

module _ (lower : String → String) (chars : Characters) (engine : TtsEngine) (c : Config)
    (world : World) (now : ℕ) where
  -- `_fail_stream`
  unfoldable pub fail_stream : String → String → Session → Wire → Answer
  fail_stream text code s w =
      reset_after engine (record s { stream_lifecycle_served = true }) close
        (and_then (write_audio_failure world engine.sample_rate text code s.stream_audio_started w)
          (λ w'. write_event world synthesize_stopped w'))

  abbrev pub continue : Session → Wire → Answer
  continue s w = record { session = s; wire = w; ending = keep_open }

  -- `_handle_stream_start`
  abbrev pub begin_stream : Session → Option String → Wire → Answer
  begin_stream s voice w =
      continue
        (record (reset_stream engine s) {
          is_streaming = true;
          stream_started_at = some now;
          stream_deadline = some (now + c.max_request_ms);
          stream_voice_name = voice;
        })
        (record_voice_usage engine c voice w)

  abbrev pub start_with_voice : Bool → Option (Option String) → Session → Wire → Answer
  start_with_voice supported none s w =
      fail_stream "Malformed synthesis stream start" "invalid-request" s w
  start_with_voice supported (some voice) s w =
      if not supported
      then fail_stream "Only plain text synthesis is supported" "unsupported-text-format" s w
      else begin_stream s voice w

  abbrev pub parsed_start : Option StreamRequest → Session → Wire → Answer
  parsed_start none s w = fail_stream "Malformed synthesis stream start" "invalid-request" s w
  parsed_start (some r) s w =
      start_with_voice (is_supported_text_format r.text_format)
        (resolve_voice_name lower engine c r.voice) s w

  unfoldable pub handle_stream_start : Option StreamRequest → Session → Wire → Answer
  handle_stream_start request s w =
      if s.is_streaming
      then fail_stream "Synthesis stream already started" "invalid-event-order" s w
      else parsed_start request s w

  -- The loops over the clauses; `stops` says whether the last clause stops the audio, `next` what
  -- follows the loop.
  abbrev pub is_last : Bool → List Clause → Bool
  is_last stops [] = stops
  is_last stops (cl ∷ cls) = false

  abbrev pub after_clause : Session → Speech → (Session → Wire → Answer) → Answer
  after_clause s (spoken bytes w) next =
      next
        (record s {
          stream_audio_started = true;
          stream_audio_bytes = s.stream_audio_bytes + bytes;
        })
        w
  after_clause s (unspoken w) next =
      reset_after engine s close (write_event world synthesize_stopped w)
  after_clause s (Synthesis.raised e w) next = escape s e w

  unfoldable pub speak_clauses :
      Bool → List Clause → (Session → Wire → Answer) → Session → Wire → Answer
  speak_clauses stops [] next s w = next s w
  speak_clauses stops (cl ∷ cls) next s w =
      after_clause (record s { stream_segment_count = s.stream_segment_count + 1 })
        (Synthesis.synthesize chars engine c world (not s.stream_audio_started) (is_last stops cls)
          cl.separator cl.text w)
        (λ s' w'. speak_clauses stops cls next s' w')

  abbrev pub speak_within_limit :
      Bool → Option (List Clause) → (Session → Wire → Answer) → Session → Wire → Answer
  speak_within_limit stops none next s w =
      fail_stream "Speech synthesis failed" "inference-failed" s w
  speak_within_limit stops (some cls) next s w =
      if ltb c.max_text_chars (s.stream_normalized_chars + clause_chars cls)
      then fail_stream "Synthesis text exceeds the configured limit" "text-too-long" s w
      else speak_clauses stops cls next
          (record s { stream_normalized_chars = s.stream_normalized_chars + clause_chars cls }) w

  abbrev pub speak_ready : List (List ℕ × List ℕ) → Session → Wire → Answer
  speak_ready [] s w = continue s w
  speak_ready (pair ∷ pairs) s w =
      speak_within_limit false (normalize_clauses engine s.stream_voice_name (pair ∷ pairs))
        continue s w

  -- `_handle_stream_chunk` from the counting of the text on.
  abbrev pub buffer_text : List ℕ → Session → Wire → Answer
  buffer_text text s w =
      let counted = record s {
        stream_chunk_count = s.stream_chunk_count + 1;
        stream_text_chars = s.stream_text_chars + length text;
      } in
      let drained = add_chunk_with_separators chars s.sentence_boundary text in
      if ltb c.max_text_chars (s.stream_text_chars + length text)
      then fail_stream "Synthesis text exceeds the configured limit" "text-too-long" counted w
      else speak_ready drained.0 (record counted { sentence_boundary = drained.1 }) w

  abbrev pub take_text : List ℕ → Session → Wire → Answer
  take_text text s w =
      let one_more = record s { stream_empty_events = s.stream_empty_events + 1 } in
      if is_empty (strip chars.is_space text)
      then (if ltb max_empty_events one_more.stream_empty_events
          then fail_stream "Synthesis stream made no progress" "too-many-empty-events" one_more w
          else buffer_text text one_more w)
      else buffer_text text (record s { stream_empty_events = 0 }) w

  abbrev pub parsed_chunk : Option (List ℕ) → Session → Wire → Answer
  parsed_chunk none s w = fail_stream "Malformed synthesis stream chunk" "invalid-request" s w
  parsed_chunk (some text) s w =
      if stream_deadline_exceeded s now
      then fail_stream "Synthesis stream exceeded the configured request deadline" "request-timeout"
          s w
      else take_text text s w

  -- `_handle_stream_chunk`
  unfoldable pub handle_stream_chunk : Option (List ℕ) → Session → Wire → Answer
  handle_stream_chunk chunk s w =
      if not s.is_streaming
      then fail_stream "Synthesis chunk received before stream start" "invalid-event-order" s w
      else parsed_chunk chunk s w

  -- The end of `_handle_stream_stop`.
  abbrev pub end_stream : Session → Wire → Answer
  end_stream s w = reset_after engine s keep_open (write_event world synthesize_stopped w)

  abbrev pub speak_rest : List ℕ → Session → Wire → Answer
  speak_rest [] s w =
      if s.stream_audio_started
      then reset_after engine s keep_open (
          and_then (write_event world audio_stop w) (λ w'. write_event world synthesize_stopped w'))
      else fail_stream "Synthesis text must not be empty" "empty-text" s w
  speak_rest (x ∷ final_text) s w =
      speak_within_limit true
        (normalize_clauses engine s.stream_voice_name
          (split_clause_text_with_separators chars (x ∷ final_text) engine.chunks_are_sentences))
        end_stream s w

  -- `_handle_stream_stop`
  unfoldable pub handle_stream_stop : Session → Wire → Answer
  handle_stream_stop s w =
      let rest = Detector.finish chars s.sentence_boundary in
      if not s.is_streaming
      then fail_stream "Synthesis stop received before stream start" "invalid-event-order" s w
      else if stream_deadline_exceeded s now
      then fail_stream "Synthesis stream exceeded the configured request deadline" "request-timeout"
          s w
      else speak_rest rest.0
          (record s { stream_lifecycle_served = true; sentence_boundary = rest.1 }) w
