-- ===== src/Tts/State.antt =====
-- The streaming state of the synthesis handler, and the clauses that it speaks.
use wyoming_vietnamese.Common.{ltb, length, ℕ, ◌+◌, Bool, false, Option, none, some, List, [], ◌∷◌}
use wyoming_vietnamese.Tts.{TtsEngine, Session, Ending, Written, done, failed, Answer}
use wyoming_vietnamese.Tts.Requests.{normalize_for_limit, answer}
use wyoming_vietnamese.Clauses.{default_min_clause_chars}
use wyoming_vietnamese.Clauses.Detector as Detector
use wyoming_vietnamese.Clauses.Detector.{
  add_chunk_with_separators, split_clause_text_with_separators,
}
use Prim.Native.String.{String}

-- A clause as it is spoken, and the separator after it.
pub record Clause : Type 0 where
  pub text : List ℕ
  pub normalized_separator : List ℕ
  pub separator : List ℕ

abbrev pub clause_chars : List Clause → ℕ
clause_chars [] = 0
clause_chars (cl ∷ cls) = length cl.text + length cl.normalized_separator + clause_chars cls

-- `_reset_stream`
unfoldable pub reset_stream : TtsEngine → Session → Session
reset_stream engine s = record s {
  is_streaming = false;
  stream_audio_started = false;
  stream_started_at = none;
  stream_deadline = none;
  stream_chunk_count = 0;
  stream_segment_count = 0;
  stream_text_chars = 0;
  stream_normalized_chars = 0;
  stream_empty_events = 0;
  stream_audio_bytes = 0;
  stream_voice_name = none;
  sentence_boundary = Detector.init default_min_clause_chars engine.chunks_are_sentences;
}

-- The streaming state of `__init__`.
abbrev pub init : TtsEngine → Session
init engine = record {
  is_streaming = false;
  stream_audio_started = false;
  stream_lifecycle_served = false;
  stream_started_at = none;
  stream_deadline = none;
  stream_chunk_count = 0;
  stream_segment_count = 0;
  stream_text_chars = 0;
  stream_normalized_chars = 0;
  stream_empty_events = 0;
  stream_audio_bytes = 0;
  stream_voice_name = none;
  sentence_boundary = Detector.init default_min_clause_chars engine.chunks_are_sentences;
}

abbrev pub passed : ℕ → Option ℕ → Bool
passed now none = false
passed now (some deadline) = ltb deadline now

-- `_stream_deadline_exceeded`
abbrev pub stream_deadline_exceeded : Session → ℕ → Bool
stream_deadline_exceeded s now = passed now s.stream_deadline

-- One clause of the comprehension that normalizes them; `none` is an exception.
abbrev pub pair_up :
    Option (List ℕ) → Option (List ℕ) → List ℕ → Option (List Clause) → Option (List Clause)
pair_up (some text) (some normalized_separator) separator (some cls) = some (
    record { text = text; normalized_separator = normalized_separator; separator = separator }
    ∷ cls)
pair_up none n separator cls = none
pair_up (some text) none separator cls = none
pair_up (some text) (some n) separator none = none

unfoldable pub normalize_clauses :
    TtsEngine → Option String → List (List ℕ × List ℕ) → Option (List Clause)
normalize_clauses engine voice [] = some []
normalize_clauses engine voice ((clause, separator) ∷ pairs) =
    pair_up (normalize_for_limit engine clause voice) (normalize_for_limit engine separator voice)
      separator (normalize_clauses engine voice pairs)

-- `_reset_stream` after the writes, unless one of them raised.
abbrev pub reset_after : TtsEngine → Session → Ending → Written → Answer
reset_after engine s end (done w) = answer (reset_stream engine s) end (done w)
reset_after engine s end (failed e w) = answer s end (failed e w)
