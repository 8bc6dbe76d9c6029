-- ===== src/Stt/Examples.antt =====
-- Runs of the transcription handler with a converter that leaves the bytes as they are.
use wyoming_vietnamese.Common.{
  Result, ok, ℕ, ◌≡◌, refl, true, false, Option, some, List, [], ◌∷◌, arith,
}
use Prim.Native.String.{String}
use wyoming_vietnamese.Protocol.Budget.{release}
use wyoming_vietnamese.Stt.{
  audio_start, Format, Config, Session, Event, audio_chunk, audio_stop, transcript, Answer,
}
use wyoming_vietnamese.Stt.Buffer.{init, clear_audio_buffer}
use wyoming_vietnamese.Stt.Handler.{Outside, handle_audio_stop, handle_event, disconnect}
use wyoming_vietnamese.Stt.Delivery.{
  target, stream_events, handle_events, handle_events-transcribes,
}
use wyoming_vietnamese.Stt.Safe.{IsValid, IsSafe}
use wyoming_vietnamese.Stt.Safe.Stream.{handle_event-IsSafe, disconnect-gives_back}

abbrev settings : Config
settings = record { model_name = "zipformer"; max_audio_ms = 2000; event_timeout_ms = 1000 }

abbrev pcm : Format
pcm = record { rate = 16000; width = 2; channels = 1 }

abbrev outside : Outside
outside = record { now = 10; later = 11; acquired = true; closing = false; closing_after = false }

abbrev tomono_same : ℕ → List ℕ → Option (List ℕ)
tomono_same width audio = some audio

abbrev convert_same : ℕ → Format → List ℕ → Option (ℕ × List ℕ)
convert_same k f audio = some (k, audio)

abbrev recognize_any : List ℕ → Option String
recognize_any audio = some "xin chào"

-- A stream that has four bytes, of a budget that counts seven for the others.
abbrev streaming : Session ℕ
streaming = record (init (some (record { maximum = 100; used = 11 }))) {
  audio_bytes = 1 ∷ 2 ∷ 3 ∷ 4 ∷ [];
  reserved_audio_bytes = 4;
  audio_started = true;
  audio_started_at = some 5;
  audio_deadline = some 3005;
  source_format = some pcm;
  converter = some 0;
}

abbrev handle_one : Event → Result (Answer ℕ)
handle_one event =
    handle_event (λ s. s) 0 tomono_same convert_same recognize_any settings outside streaming event

streaming-IsValid : IsValid 64000 7 streaming
streaming-IsValid = (refl, omega arith, refl)

handle_event-IsSafe_example :
    IsSafe 64000 7
      (handle_one (audio_chunk (some (record { format = some pcm; audio = 5 ∷ 6 ∷ [] }))))
handle_event-IsSafe_example =
    handle_event-IsSafe (λ s. s) 0 tomono_same convert_same recognize_any 7 settings outside
      streaming (audio_chunk (some (record { format = some pcm; audio = 5 ∷ 6 ∷ [] })))
      streaming-IsValid

disconnect-gives_back_example :
    (s' : Session ℕ) × (disconnect streaming ≡ ok s')
    × (s'.audio_bytes ≡ [])
    × (s'.reserved_audio_bytes ≡ 0)
    × IsValid 64000 7 s'
disconnect-gives_back_example = disconnect-gives_back 64000 7 streaming streaming-IsValid

stop_transcribes :
    handle_one audio_stop
    ≡ ok (record {
      session = record (init (some (record { maximum = 100; used = 7 }))) {
        input_audio_frames = 0;
      };
      keep_open = false;
      sent = transcript "xin chào" ∷ [];
    })
unfolding handle_event handle_audio_stop clear_audio_buffer release
stop_transcribes = refl

abbrev parts : List (Outside × List ℕ)
parts = (outside, 1 ∷ 2 ∷ []) ∷ (outside, 3 ∷ 4 ∷ 5 ∷ 6 ∷ []) ∷ []

handle_events-transcribes_example :
    (s : Session ℕ) × (handle_events
        (λ x. x)
        0
        tomono_same
        convert_same
        recognize_any
        settings
        100
        7
        (init (some (record { maximum = 100; used = 7 })))
        ((outside, audio_start (some target)) ∷ stream_events parts outside)
      ≡ ok (record { session = s; keep_open = false; sent = transcript "xin chào" ∷ [] }))
handle_events-transcribes_example =
    handle_events-transcribes (λ x. x) 0 tomono_same convert_same recognize_any settings 100 7
      outside outside parts "xin chào"
      (
        (omega arith, omega arith, omega arith, refl),
        ((omega arith, omega arith, omega arith, refl), tt),
      )
      (omega arith, omega arith, refl, refl, refl) (omega arith) (omega arith) (omega arith) refl
