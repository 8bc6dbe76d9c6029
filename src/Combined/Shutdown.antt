-- ===== src/Combined/Shutdown.antt =====
-- A server that shuts down lets the requests in flight end, and starts no other.
use wyoming_vietnamese.Common.{
  if◌then◌else◌, Result, ok, raise, ◌≡◌, refl, Bool, true, false, not, some, List, [], ◌∷◌,
}
use wyoming_vietnamese.Protocol.Limiter.{Limiter}
use wyoming_vietnamese.Combined.{
  Event, Router, Routed, Kind, describe, transcribe, audio_start, audio_chunk, audio_stop,
  synthesize, synthesize_start, synthesize_chunk, synthesize_stop, other_kind, track_stt_event,
  track_tts_event, after_stt, after_tts, server_busy, handle_event,
}

still : (keep_open active : Bool) → (if not keep_open then false else active) ≡ true → active ≡ true
still true active h = h
still false active h = cc

module _ {S T E W : Type 0} (handle_stt : S → Event E → Result (S × Bool × List W))
    (handle_tts : T → Event E → Result (T × Bool × List W)) where
  -- No request is active afterwards that was not active before.
  abbrev pub IsDraining : Router S T → Result (Routed S T W) → Type 0
  IsDraining r (raise e) = Unit {0}
  IsDraining r (ok a) =
      (a.router.stt_request_active ≡ true → r.stt_request_active ≡ true)
      × (a.router.tts_request_active ≡ true → r.tts_request_active ≡ true)

  stt-IsDraining :
      (r : Router S T) (kind : Kind) (q : Result (S × Bool × List W))
      → ((k : Bool)
          → (track_stt_event r kind k).stt_request_active ≡ true
          → r.stt_request_active ≡ true)
      → IsDraining r (after_stt r kind q)
  stt-IsDraining r kind (raise e) h = tt
  stt-IsDraining r kind (ok (s, k, writes)) h = (h k, λ t. t)

  tts-IsDraining :
      (r : Router S T) (kind : Kind) (q : Result (T × Bool × List W))
      → ((k : Bool)
          → (track_tts_event r kind k).tts_request_active ≡ true
          → r.tts_request_active ≡ true)
      → IsDraining r (after_tts r kind q)
  tts-IsDraining r kind (raise e) h = tt
  tts-IsDraining r kind (ok (s, k, writes)) h = (λ t. t, h k)

  -- An event that starts a request unless one is active.
  unless_active :
      (r : Router S T) (active : Bool) (q : Result (Routed S T W))
      → (active ≡ true → IsDraining r q)
      → IsDraining r (
          if not active
          then ok (record { router = r; keep_open = false; sent = server_busy ∷ [] })
          else q)
  unless_active r true q h = h refl
  unless_active r false q h = (λ t. t, λ t. t)

  -- Once the server no longer accepts, an event of any kind leaves no request active that was not,
  -- whatever the two handlers do with it.
  pub handle_event-IsDraining :
      (r : Router S T) (event : Event E) (l : Limiter)
      → l.accepting ≡ false
      → IsDraining r (handle_event handle_stt handle_tts (some l) r event)
  unfolding handle_event
  handle_event-IsDraining r event l h = go r event.kind event.body h
    where
      go :
          (r : Router S T) (kind : Kind) (body : E)
          → l.accepting ≡ false
          → IsDraining r
              (handle_event handle_stt handle_tts (some l) r (record { kind = kind; body = body }))
      go r describe body h = rw h (λ t. t, λ t. t)
      go r transcribe body h = rw h (λ t. t, λ t. t)
      go r audio_start body h = rw h (
          unless_active r r.stt_request_active _
            (λ a. stt-IsDraining r audio_start (handle_stt r.stt_handler _) (λ k t. a)))
      go r audio_chunk body h =
          rw h (stt-IsDraining r audio_chunk (handle_stt r.stt_handler _) (λ k t. still k _ t))
      go r audio_stop body h =
          rw h (stt-IsDraining r audio_stop (handle_stt r.stt_handler _) (λ k t. cc))
      go r synthesize body h = rw h (
          unless_active r r.tts_request_active _
            (λ a. tts-IsDraining r synthesize (handle_tts r.tts_handler _) (λ k t. a)))
      go r synthesize_start body h = rw h (λ t. t, λ t. t)
      go r synthesize_chunk body h =
          rw h (tts-IsDraining r synthesize_chunk (handle_tts r.tts_handler _) (λ k t. still k _ t))
      go r synthesize_stop body h =
          rw h (tts-IsDraining r synthesize_stop (handle_tts r.tts_handler _) (λ k t. cc))
      go r other_kind body h = rw h (λ t. t, λ t. t)
