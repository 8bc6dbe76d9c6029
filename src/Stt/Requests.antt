-- ===== src/Stt/Requests.antt =====
-- `_fail`, `_handle_transcribe`, `_validate_audio_format` and `_handle_audio_start` of
-- wyoming_vietnamese/stt.py, and `is_vietnamese_language` of wyoming_vietnamese/protocol.py.
-- `normalize` is Python's `s.strip().lower()`, and `fresh` a new `AudioChunkConverter`.
use wyoming_vietnamese.Common.{
  leb, if◌then◌else◌, Result, ◌>>=◌, ok, ℕ, ◌+◌, Bool, true, false, not, ◌&&◌, ◌||◌, Option, none,
  some, [], ◌∷◌,
}
use Prim.Native.String.{String}
use text.Mathlib.Text.{◌==◌ as str_eq}
use wyoming_vietnamese.Stt.{
  Format, Config, Session, Value, nothing, a_string, other_value, Request, error, transcript,
  Answer, keep,
}
use wyoming_vietnamese.Stt.Buffer.{clear_audio_buffer}

abbrev pub is_vietnamese_language : (String → String) → String → Bool
is_vietnamese_language normalize language =
    str_eq (normalize language) "vi" || str_eq (normalize language) "vi-vn"

-- `_validate_audio_format`, for natural numbers.
abbrev pub valid_audio_format : Format → Bool
valid_audio_format f =
    leb 8000 f.rate
    && leb f.rate 192000
    && (leb 1 f.width && leb f.width 4)
    && (leb 1 f.channels && leb f.channels 2)

module _ {K : Type 0} where
  -- `_fail`
  unfoldable pub fail : Session K → String → String → Result (Answer K)
  fail s detail code = do
    s' ← clear_audio_buffer (record s {
      audio_started = false;
      audio_started_at = none;
      audio_deadline = none;
      audio_chunk_count = 0;
      empty_chunk_count = 0;
      input_audio_bytes = 0;
      input_audio_frames = 0;
      source_format = none;
      converter = none;
    })
    ok (record { session = s'; keep_open = false; sent = error detail code ∷ transcript "" ∷ [] })

  abbrev pub accept_language : (String → String) → Session K → Value → Result (Answer K)
  accept_language normalize s nothing = ok (keep s)
  accept_language normalize s (a_string language) =
      if is_vietnamese_language normalize language
      then ok (keep s)
      else fail s "Only Vietnamese STT is supported" "unsupported-language"
  accept_language normalize s other_value = fail s "STT language must be text" "invalid-request"

  abbrev pub accept_request :
      (String → String) → Config → Session K → Value → Value → Result (Answer K)
  accept_request normalize c s nothing language = accept_language normalize s language
  accept_request normalize c s (a_string name) language =
      if not (str_eq name "") && not (str_eq name c.model_name)
      then fail s "Requested STT model is not available" "unsupported-model"
      else accept_language normalize s language
  accept_request normalize c s other_value language =
      fail s "STT model name must be text" "invalid-request"

  abbrev pub parsed_request :
      (String → String) → Config → Session K → Option Request → Result (Answer K)
  parsed_request normalize c s none = fail s "Malformed transcription request" "invalid-request"
  parsed_request normalize c s (some r) = accept_request normalize c s r.name r.language

  -- `_handle_transcribe`
  unfoldable pub handle_transcribe :
      (String → String) → Config → Session K → Option Request → Result (Answer K)
  handle_transcribe normalize c s request =
      if s.audio_started
      then fail s "Audio is already streaming" "invalid-event-order"
      else parsed_request normalize c s request

  abbrev pub start_stream : Config → K → ℕ → Session K → Format → Result (Answer K)
  start_stream c fresh now s f =
      if not (valid_audio_format f)
      then fail s "Unsupported or malformed audio format" "unsupported-audio"
      else do
        s' ← clear_audio_buffer s
        ok (
            keep (record s' {
              audio_started = true;
              audio_started_at = some now;
              audio_deadline = some (now + c.max_audio_ms + c.event_timeout_ms);
              audio_chunk_count = 0;
              empty_chunk_count = 0;
              input_audio_bytes = 0;
              input_audio_frames = 0;
              source_format = some f;
              converter = some fresh;
            }))

  abbrev pub parsed_start : Config → K → ℕ → Session K → Option Format → Result (Answer K)
  parsed_start c fresh now s none =
      fail s "Unsupported or malformed audio format" "unsupported-audio"
  parsed_start c fresh now s (some f) = start_stream c fresh now s f

  -- `_handle_audio_start`
  unfoldable pub handle_audio_start : Config → K → ℕ → Session K → Option Format → Result (Answer K)
  handle_audio_start c fresh now s format =
      if s.audio_started
      then fail s "Audio stream already started" "invalid-event-order"
      else parsed_start c fresh now s format
