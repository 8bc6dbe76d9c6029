-- ===== src/Combined.antt =====
-- `CombinedEventHandler` of wyoming_vietnamese/combined.py. `S` and `T` are the states of the two
-- subordinate handlers, `E` is the body of an event and `W` what a handler writes.
pub mod Shutdown
pub mod Admission
mod Examples
use wyoming_vietnamese.Common.{
  if◌then◌else◌, Result, ok, raise, Bool, true, false, not, ◌&&◌, Option, none, some, List, [], ◌∷◌,
  map,
}
use wyoming_vietnamese.Protocol.Limiter.{Limiter}

pub data Kind : Type 0 where
  describe transcribe audio_start audio_chunk audio_stop : Kind
  synthesize synthesize_start synthesize_chunk synthesize_stop other_kind : Kind

pub record Event (E : Type 0) : Type 0 where
  pub kind : Kind
  pub body : E

pub data Sent (W : Type 0) : Type 0 where
  service_info server_busy : Sent W
  wrote : W → Sent W

pub record Router (S T : Type 0) : Type 0 where
  pub stt_handler : S
  pub tts_handler : T
  pub stt_request_active : Bool
  pub tts_request_active : Bool

pub record Routed (S T W : Type 0) : Type 0 where
  pub router : Router S T
  pub keep_open : Bool
  pub sent : List (Sent W)

-- `__init__`
abbrev pub init : {S T : Type 0} → S → T → Router S T
init s t = record {
  stt_handler = s;
  tts_handler = t;
  stt_request_active = false;
  tts_request_active = false;
}

-- The service that an event belongs to.
pub data Service : Type 0 where
  discovery stt tts no_service : Service

abbrev pub service_of : Kind → Service
service_of describe = discovery
service_of transcribe = stt
service_of audio_start = stt
service_of audio_chunk = stt
service_of audio_stop = stt
service_of synthesize = tts
service_of synthesize_start = tts
service_of synthesize_chunk = tts
service_of synthesize_stop = tts
service_of other_kind = no_service

-- `connection_limiter is not None and not connection_limiter.accepting`
abbrev pub refuses : Option Limiter → Bool
refuses none = false
refuses (some l) = not l.accepting

module _ {S T : Type 0} where
  -- `_starts_new_request`
  abbrev pub starts_new_request : Router S T → Kind → Bool
  starts_new_request r describe = false
  starts_new_request r transcribe = true
  starts_new_request r audio_start = not r.stt_request_active
  starts_new_request r audio_chunk = false
  starts_new_request r audio_stop = false
  starts_new_request r synthesize = not r.tts_request_active
  starts_new_request r synthesize_start = true
  starts_new_request r synthesize_chunk = false
  starts_new_request r synthesize_stop = false
  starts_new_request r other_kind = false

abbrev stt_active : Kind → Bool → Bool → Bool
stt_active transcribe keep_open active = keep_open
stt_active audio_start keep_open active = keep_open
stt_active audio_stop keep_open active = false
stt_active kind keep_open active = if not keep_open then false else active

abbrev tts_active : Kind → Bool → Bool → Bool
tts_active synthesize_start keep_open active = keep_open
tts_active synthesize_stop keep_open active = false
tts_active kind keep_open active = if not keep_open then false else active

module _ {S T : Type 0} where
  -- `_track_stt_event`
  abbrev pub track_stt_event : Router S T → Kind → Bool → Router S T
  track_stt_event r kind keep_open = record r {
    stt_request_active = stt_active kind keep_open r.stt_request_active;
  }

  -- `_track_tts_event`
  abbrev pub track_tts_event : Router S T → Kind → Bool → Router S T
  track_tts_event r kind keep_open = record r {
    tts_request_active = tts_active kind keep_open r.tts_request_active;
  }

module _ {S T W : Type 0} where
  -- What follows `await self.stt_handler.handle_event(event)`, and the other call.
  abbrev pub after_stt : Router S T → Kind → Result (S × Bool × List W) → Result (Routed S T W)
  after_stt r kind (raise e) = raise e
  after_stt r kind (ok (s, keep_open, writes)) = ok (record {
    router = track_stt_event (record r { stt_handler = s }) kind keep_open;
    keep_open = keep_open;
    sent = map wrote writes;
  })

  abbrev pub after_tts : Router S T → Kind → Result (T × Bool × List W) → Result (Routed S T W)
  after_tts r kind (raise e) = raise e
  after_tts r kind (ok (t, keep_open, writes)) = ok (record {
    router = track_tts_event (record r { tts_handler = t }) kind keep_open;
    keep_open = keep_open;
    sent = map wrote writes;
  })

module _ {S T E W : Type 0} (handle_stt : S → Event E → Result (S × Bool × List W))
    (handle_tts : T → Event E → Result (T × Bool × List W)) where
  abbrev pub route : Service → Router S T → Event E → Result (Routed S T W)
  route discovery r event = ok (record { router = r; keep_open = true; sent = service_info ∷ [] })
  route stt r event = after_stt r event.kind (handle_stt r.stt_handler event)
  route tts r event = after_tts r event.kind (handle_tts r.tts_handler event)
  route no_service r event = ok (record { router = r; keep_open = true; sent = [] })

  -- `handle_event`
  unfoldable pub handle_event : Option Limiter → Router S T → Event E → Result (Routed S T W)
  handle_event limiter r event =
      if refuses limiter && starts_new_request r event.kind
      then ok (record { router = r; keep_open = false; sent = server_busy ∷ [] })
      else route (service_of event.kind) r event
