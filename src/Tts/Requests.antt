-- ===== src/Tts/Requests.antt =====
-- What `_handle_synthesize` and `_handle_stream_start` check of a request, `_handle_synthesize` itself
-- and `_fail`. `lower` is Python's `s.strip().lower()`, which `is_vietnamese_language` calls.
use wyoming_vietnamese.Common.{
  ltb, if◌then◌else◌, length, ℕ, Bool, true, false, not, ◌&&◌, ◌||◌, Option, none, some, List, [],
  ◌∷◌,
}
use wyoming_vietnamese.Tts.{
  write_error, Raise, TtsEngine, Config, Session, VoiceSelector, Request, World, Wire, Written,
  done, failed, Ending, close, raised, Answer,
}
use wyoming_vietnamese.Tts.Output.{write_audio_failure}
use wyoming_vietnamese.Tts.Synthesis as Synthesis
use wyoming_vietnamese.Tts.Synthesis.{Speech, spoken, unspoken, synthesize}
use wyoming_vietnamese.Clauses.{Characters}
use wyoming_vietnamese.Clauses.Spaces.{strip}
use wyoming_vietnamese.Clauses.Matches.{is_empty}
use wyoming_vietnamese.Stt.{Value, nothing, a_string, other_value}
use wyoming_vietnamese.Stt.Requests.{is_vietnamese_language}
use Prim.Native.String.{String}
use text.Mathlib.Text.{◌==◌ as str_eq}

-- `_is_supported_text_format`
abbrev pub is_supported_text_format : Value → Bool
is_supported_text_format nothing = true
is_supported_text_format (a_string format) = str_eq format "text"
is_supported_text_format other_value = false

unfoldable pub is_preset : List String → String → Bool
is_preset [] name = false
is_preset (v ∷ vs) name = str_eq v name || is_preset vs name

abbrev pub or_else : Option String → String → String
or_else none name = name
or_else (some found) name = found

abbrev pub first_of : Option String → Option String → Option String
first_of none n = n
first_of (some m) n = some m

-- The name of `_resolve_voice_name`; `none` is an exception.
abbrev pub resolve_name : TtsEngine → Config → Value → Option (Option String)
resolve_name engine c nothing = some none
resolve_name engine c (a_string name) =
    let voice =
      or_else (first_of (c.nghitts_voices_by_id name) (c.zerotts_voices_by_id name)) name in
    if is_preset engine.preset_voices voice then some (some voice) else none
resolve_name engine c other_value = none

abbrev pub accepts_language : (String → String) → Value → Bool
accepts_language lower nothing = true
accepts_language lower (a_string language) = is_vietnamese_language lower language
accepts_language lower other_value = false

abbrev pub accepts_speaker : Value → Bool
accepts_speaker nothing = true
accepts_speaker (a_string speaker) = false
accepts_speaker other_value = false

-- `_resolve_voice_name`
unfoldable pub resolve_voice_name :
    (String → String) → TtsEngine → Config → Option VoiceSelector → Option (Option String)
resolve_voice_name lower engine c none = some none
resolve_voice_name lower engine c (some v) =
    if accepts_language lower v.language && accepts_speaker v.speaker
    then resolve_name engine c v.name
    else none

-- `_normalize_for_limit`
abbrev pub normalize_with :
    Option (List ℕ → Option String → Option (List ℕ)) → List ℕ → Option String → Option (List ℕ)
normalize_with none text voice = some text
normalize_with (some normalize) [] voice = some []
normalize_with (some normalize) (x ∷ text) voice = normalize (x ∷ text) voice

abbrev pub normalize_for_limit : TtsEngine → List ℕ → Option String → Option (List ℕ)
normalize_for_limit engine text voice = normalize_with engine.normalize text voice

abbrev pub first_voice : List String → Option String
first_voice [] = none
first_voice (v ∷ vs) = some v

abbrev pub unless_empty : Option String → Option String
unless_empty none = none
unless_empty (some name) = if str_eq name "" then none else some name

-- `_effective_voice_name`
abbrev pub effective_voice_name : TtsEngine → Option String → Option String
effective_voice_name engine voice = first_of (unless_empty voice) (first_voice engine.preset_voices)

-- `_record_voice_usage`
abbrev pub log_voice : Option String → Wire → Wire
log_voice none w = w
log_voice (some v) w = record w { used_voices = v ∷ w.used_voices }

unfoldable pub record_voice_usage : TtsEngine → Config → Option String → Wire → Wire
record_voice_usage engine c voice w =
    if c.has_voice_usage_store then log_voice (effective_voice_name engine voice) w else w

abbrev pub answer : Session → Ending → Written → Answer
answer s end (done w) = record { session = s; wire = w; ending = end }
answer s end (failed e w) = record { session = s; wire = w; ending = raised (write_error e) }

abbrev pub escape : Session → Raise → Wire → Answer
escape s e w = record { session = s; wire = w; ending = raised e }

module _ (lower : String → String) (chars : Characters) (engine : TtsEngine) (c : Config)
    (world : World) where
  -- `_fail`
  unfoldable pub fail : String → String → Session → Wire → Answer
  fail text code s w =
      answer s close (write_audio_failure world engine.sample_rate text code false w)

  abbrev pub finish_request : Option String → Session → Speech → Answer
  finish_request voice s (spoken bytes w) =
      answer s close (done (record_voice_usage engine c voice w))
  finish_request voice s (unspoken w) = answer s close (done w)
  finish_request voice s (Synthesis.raised e w) = escape s e w

  abbrev pub speak_normalized : Option String → Option (List ℕ) → Session → Wire → Answer
  speak_normalized voice none s w = fail "Speech synthesis failed" "inference-failed" s w
  speak_normalized voice (some text) s w =
      if ltb c.max_text_chars (length text)
      then fail "Synthesis text exceeds the configured limit" "text-too-long" s w
      else finish_request voice s (synthesize chars engine c world true true [] text w)

  abbrev pub speak_request : List ℕ → Bool → Option (Option String) → Session → Wire → Answer
  speak_request text supported none s w = fail "Malformed synthesis request" "invalid-request" s w
  speak_request text supported (some voice) s w =
      if is_empty text
      then fail "Synthesis text must not be empty" "empty-text" s w
      else if not supported
      then fail "Only plain text synthesis is supported" "unsupported-text-format" s w
      else if ltb c.max_text_chars (length text)
      then fail "Synthesis text exceeds the configured limit" "text-too-long" s w
      else speak_normalized voice (normalize_for_limit engine text voice) s w

  -- `_handle_synthesize`
  unfoldable pub handle_synthesize : Option Request → Session → Wire → Answer
  handle_synthesize none s w = fail "Malformed synthesis request" "invalid-request" s w
  handle_synthesize (some r) s w =
      speak_request (strip chars.is_space r.text) (is_supported_text_format r.text_format)
        (resolve_voice_name lower engine c r.voice) s w
