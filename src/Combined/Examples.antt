-- ===== src/Combined/Examples.antt =====
-- Runs of the combined endpoint, with handlers that count the events that reach them.
use wyoming_vietnamese.Common.{
  pos, Result, ok, ℕ, suc, ◌≡◌, refl, Bool, true, false, some, List, [], ◌∷◌, arith,
}
use wyoming_vietnamese.Protocol.Limiter.{Limiter, try_acquire, init}
use wyoming_vietnamese.Combined.{Event, Router, audio_chunk, handle_event}
use wyoming_vietnamese.Combined.Shutdown.{IsDraining, handle_event-IsDraining}
use wyoming_vietnamese.Combined.Admission.{
  Server, Move, connect, close, shut_down, move, moves, IsAfter, moves-IsAdmitted,
  try_acquire-local,
}

-- Two connections at most, and one more for a loopback peer.
abbrev two : Limiter
two = record { maximum = 2; local_reserve = 1; active = 0; accepting = true; idle = true }

abbrev fresh : Server
fresh = record { limiter = two; running = [] }

abbrev crowd : List Move
crowd = connect false ∷ connect false ∷ connect false ∷ close 5 ∷ []

abbrev crowded : Server
crowded = record { limiter = record two { active = 2; idle = false }; running = false ∷ false ∷ [] }

init-two : init (pos 2) (pos 1) ≡ ok two
unfolding init
init-two = refl

crowd_run : moves fresh crowd ≡ ok crowded
unfolding moves move try_acquire
crowd_run = refl

moves-IsAdmitted_example : IsAfter fresh (moves fresh (connect true ∷ close 0 ∷ shut_down ∷ []))
moves-IsAdmitted_example =
    moves-IsAdmitted (pos 2) (pos 1) two (connect true ∷ close 0 ∷ shut_down ∷ []) init-two

try_acquire-local_example : (try_acquire crowded.limiter true).1 ≡ true
try_acquire-local_example =
    try_acquire-local (pos 2) (pos 1) two crowd crowded init-two crowd_run refl (omega arith)

abbrev count : ℕ → Event ℕ → Result (ℕ × Bool × List ℕ)
count n event = ok (suc n, true, n ∷ [])

abbrev closing : Limiter
closing = record two { accepting = false }

abbrev busy : Router ℕ ℕ
busy = record {
  stt_handler = 3;
  tts_handler = 0;
  stt_request_active = true;
  tts_request_active = false;
}

handle_event-IsDraining_example :
    IsDraining count count busy
      (handle_event count count (some closing) busy (record { kind = audio_chunk; body = 9 }))
handle_event-IsDraining_example =
    handle_event-IsDraining count count busy (record { kind = audio_chunk; body = 9 }) closing refl
