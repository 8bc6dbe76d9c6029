-- ===== src/Tts.antt =====
-- `TTSEventHandler` of wyoming_vietnamese/tts.py: the data that one connection's handler keeps, and
-- what it is given and sends. A text is the list of its code points, PCM audio the list of its
-- bytes, and times are whole milliseconds. The counters and times that are only logged are left out,
-- except for the counts of chunks, segments and bytes.
pub mod Output
pub mod Synthesis
pub mod Requests
pub mod State
pub mod Stream
pub mod Handler
pub mod Conforming
pub mod Limits
pub mod Endings
pub mod Pauses
pub mod Sound
pub mod Playback
mod Examples
use wyoming_vietnamese.Common.{ℕ, Bool, Option, List}
use wyoming_vietnamese.Clauses.Detector.{Detector}
use wyoming_vietnamese.Stt.{Value}
use Prim.Native.String.{String}

abbrev pub audio_width : ℕ
audio_width = 2

abbrev pub audio_channels : ℕ
audio_channels = 1

abbrev pub chunk_size : ℕ
chunk_size = 4096

-- The classes `TTSEngine`, `_NormalizedTTSEngine` and `_TokenLimitedTTSEngine`: the last two are
-- methods that an engine may have, and their exceptions are `none`.
pub record TtsEngine : Type 0 where
  pub preset_voices : List String
  pub sample_rate : ℕ
  pub chunks_are_sentences : Bool
  pub normalize : Option (List ℕ → Option String → Option (List ℕ))
  pub split_text_by_tokens : Option (List ℕ → Option (List (List ℕ)))

pub record Config : Type 0 where
  pub max_text_chars : ℕ
  pub max_request_ms : ℕ
  pub sentence_silence_ms : ℕ
  pub clause_silence_ms : ℕ
  pub paragraph_silence_ms : ℕ
  pub has_voice_usage_store : Bool
  -- Whether the result cache is enabled.
  pub caches_results : Bool
  -- `NGHITTS_VOICES_BY_ID` and `ZEROTTS_VOICES_BY_ID`, from an id to a name.
  pub nghitts_voices_by_id : String → Option String
  pub zerotts_voices_by_id : String → Option String

pub record Session : Type 0 where
  pub is_streaming : Bool
  pub stream_audio_started : Bool
  pub stream_lifecycle_served : Bool
  pub stream_started_at : Option ℕ
  pub stream_deadline : Option ℕ
  pub stream_chunk_count : ℕ
  pub stream_segment_count : ℕ
  pub stream_text_chars : ℕ
  pub stream_normalized_chars : ℕ
  pub stream_empty_events : ℕ
  pub stream_audio_bytes : ℕ
  pub stream_voice_name : Option String
  pub sentence_boundary : Detector

pub record VoiceSelector : Type 0 where
  pub name : Value
  pub language : Value
  pub speaker : Value

pub record Request : Type 0 where
  pub text : List ℕ
  pub voice : Option VoiceSelector
  pub text_format : Value

pub record StreamRequest : Type 0 where
  pub voice : Option VoiceSelector
  pub text_format : Value

-- The event, as wyoming's `from_event` parses it: `none` where that raises, or where the text of it
-- is no string.
pub data Event : Type 0 where
  describe : Event
  synthesize_start : Option StreamRequest → Event
  synthesize_chunk : Option (List ℕ) → Event
  synthesize_stop : Event
  synthesize : Option Request → Event
  other_event : Event

pub data Reply : Type 0 where
  service_info : Reply
  error : String → String → Reply
  audio_start : ℕ → Reply
  audio_chunk : List ℕ → Reply
  audio_stop : Reply
  synthesize_stopped : Reply

-- What a write comes to: it ends, it exceeds the write timeout, or the connection is lost. The
-- second is raised as `ProtocolWriteError`, the third as another exception.
pub data WriteResult : Type 0 where
  wrote timed_out lost : WriteResult

-- How the iterator of an engine ends: it is exhausted, it raises `SynthesisOutputLimitError`, or it
-- raises something else (a full output queue counts as that).
pub data EngineEnd : Type 0 where
  exhausted output_limit crashed : EngineEnd

-- What one call of `_synthesize` on one segment meets, after its key: whether the writer is closing,
-- the cached audio, whether the inference lock is acquired in time, whether the writer is closing then,
-- the audio cached then, and the audio that the engine yields. Where results are not cached, neither
-- look at the cache finds any.
pub record Attempt : Type 0 where
  pub closing : Bool
  pub cached : Option (List ℕ)
  pub acquired : Bool
  pub closing_after : Bool
  pub cached_after_wait : Option (List ℕ)
  pub engine_audio : List (List ℕ)
  pub engine_end : EngineEnd

-- What the n-th write and the n-th segment of a connection meet.
pub record World : Type 0 where
  pub write : ℕ → WriteResult
  pub attempt : ℕ → Attempt

-- The events written so far, whether or not the writes ended well, the number of writes, the number
-- of segments, and the voices given to the voice usage store, the last one first.
pub record Wire : Type 0 where
  pub sent : List Reply
  pub written : ℕ
  pub tried : ℕ
  pub used_voices : List String

-- Code that writes either goes on or raises what a write raised.
pub data WriteError : Type 0 where
  write_timeout connection_lost : WriteError

pub data Written : Type 0 where
  done : Wire → Written
  failed : WriteError → Wire → Written

abbrev pub and_then : Written → (Wire → Written) → Written
and_then (done w) next = next w
and_then (failed e w) next = failed e w

-- What leaves a method: what a write raised, or the `UnicodeEncodeError` of a text.
pub data Raise : Type 0 where
  write_error : WriteError → Raise
  unicode_encode_error : List ℕ → Raise

-- `handle_event` keeps the connection open, closes it, or raises.
pub data Ending : Type 0 where
  keep_open close : Ending
  raised : Raise → Ending

pub record Answer : Type 0 where
  pub session : Session
  pub wire : Wire
  pub ending : Ending
