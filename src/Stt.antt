-- ===== src/Stt.antt =====
-- `SherpaSTTEventHandler` of wyoming_vietnamese/stt.py: the data that one connection's handler
-- keeps, and what it is given and sends. Times are whole milliseconds, bytes are numbers, and `K`
-- is the state of wyoming's `AudioChunkConverter`. The counters that are only logged are kept, the
-- time spent on conversion is not.
pub mod Buffer
pub mod Requests
pub mod Chunks
pub mod Handler
pub mod Safe
pub mod Delivery
mod Examples
use wyoming_vietnamese.Common.{ℕ, ◌*◌, ◌/◌, Bool, true, Option, List, []}
use Prim.Native.String.{String}
use wyoming_vietnamese.Protocol.Budget.{Budget}

abbrev pub target_sample_rate : ℕ
target_sample_rate = 16000

abbrev pub sample_width : ℕ
sample_width = 2

abbrev pub sample_channels : ℕ
sample_channels = 1

abbrev pub max_empty_events : ℕ
max_empty_events = 256

pub record Format : Type 0 where
  pub rate : ℕ
  pub width : ℕ
  pub channels : ℕ

pub record Config : Type 0 where
  pub model_name : String
  pub max_audio_ms : ℕ
  pub event_timeout_ms : ℕ

abbrev pub max_audio_bytes : Config → ℕ
max_audio_bytes c = c.max_audio_ms * target_sample_rate * sample_width * sample_channels / 1000

pub record Session (K : Type 0) : Type 0 where
  pub audio_bytes : List ℕ
  pub buffer_budget : Option Budget
  pub reserved_audio_bytes : ℕ
  pub audio_started : Bool
  pub audio_started_at : Option ℕ
  pub audio_deadline : Option ℕ
  pub audio_chunk_count : ℕ
  pub empty_chunk_count : ℕ
  pub input_audio_bytes : ℕ
  pub input_audio_frames : ℕ
  pub source_format : Option Format
  pub converter : Option K

-- A field of a parsed event: `None`, a string, or something else.
pub data Value : Type 0 where
  nothing : Value
  a_string : String → Value
  other_value : Value

pub record Request : Type 0 where
  pub name : Value
  pub language : Value

-- The format of a chunk is `none` if a field of it equals no natural number: Python takes 16000.0 for
-- 16000 where it compares the format with that of the start, whose fields must be integers.
pub record Chunk : Type 0 where
  pub format : Option Format
  pub audio : List ℕ

-- The event, as wyoming's `from_event` parses it: `none` where that raises.
pub data Event : Type 0 where
  describe : Event
  transcribe : Option Request → Event
  audio_start : Option Format → Event
  audio_chunk : Option Chunk → Event
  audio_stop : Event
  other_event : Event

pub data Reply : Type 0 where
  service_info : Reply
  error : String → String → Reply
  transcript : String → Reply

-- What a handler leaves: its state, whether the connection stays open, and what was written.
pub record Answer (K : Type 0) : Type 0 where
  pub session : Session K
  pub keep_open : Bool
  pub sent : List Reply

abbrev pub keep : {K : Type 0} → Session K → Answer K
keep s = record { session = s; keep_open = true; sent = [] }
