-- ===== src/Tts/Handler.antt =====
-- `handle_event` and `disconnect`.
use wyoming_vietnamese.Common.{if◌then◌else◌, ℕ, false, ◌||◌, List, [], ◌∷◌}
use wyoming_vietnamese.Tts.{
  TtsEngine, Config, Session, Event, describe, synthesize_start, synthesize_chunk, synthesize_stop,
  synthesize, other_event, service_info, World, Wire, Ending, keep_open, close, raised, Answer,
}
use wyoming_vietnamese.Tts.State.{reset_stream}
use wyoming_vietnamese.Tts.Stream.{
  continue, handle_stream_start, handle_stream_chunk, handle_stream_stop,
}
use wyoming_vietnamese.Tts.Output.{write_event}
use wyoming_vietnamese.Tts.Requests.{answer, handle_synthesize}
use wyoming_vietnamese.Clauses.{Characters}
use Prim.Native.String.{String}

module _ (lower : String → String) (chars : Characters) (engine : TtsEngine) (c : Config)
    (world : World) (now : ℕ) where
  -- `handle_event`
  unfoldable pub handle_event : Event → Session → Wire → Answer
  handle_event describe s w = answer s keep_open (write_event world service_info w)
  handle_event (synthesize_start request) s w =
      handle_stream_start lower chars engine c world now request s w
  handle_event (synthesize_chunk chunk) s w =
      handle_stream_chunk lower chars engine c world now chunk s w
  handle_event synthesize_stop s w = handle_stream_stop lower chars engine c world now s w
  handle_event (synthesize request) s w =
      if s.is_streaming || s.stream_lifecycle_served
      then continue lower chars engine c world now s w
      else handle_synthesize lower chars engine c world request s w
  handle_event other_event s w = continue lower chars engine c world now s w

abbrev pub after_event : Ending → Session → Wire → (Session → Wire → Answer) → Answer
after_event keep_open s w next = next s w
after_event close s w next = record { session = s; wire = w; ending = close }
after_event (raised e) s w next = record { session = s; wire = w; ending = raised e }

-- The events of a connection, each with the clock while it is handled, up to the one that closes the
-- connection or raises.
module _ (lower : String → String) (chars : Characters) (engine : TtsEngine) (c : Config)
    (world : World) where
  unfoldable pub handle_events : List (ℕ × Event) → Session → Wire → Answer
  handle_events [] s w = record { session = s; wire = w; ending = keep_open }
  handle_events ((now, event) ∷ events) s w =
      let a = handle_event lower chars engine c world now event s w in
      after_event a.ending a.session a.wire (λ s' w'. handle_events events s' w')

-- `disconnect`
unfoldable pub disconnect : TtsEngine → Session → Session
disconnect engine s = reset_stream engine (record s { stream_lifecycle_served = false })
