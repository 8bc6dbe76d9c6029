-- ===== src/Stt/Handler.antt =====
-- `_handle_audio_stop`, `handle_event` and `disconnect` of wyoming_vietnamese/stt.py. `recognize` is
-- `run_inference` of `_recognize` on the samples, with `none` for an exception.
use wyoming_vietnamese.Common.{
  ◌==◌, if◌then◌else◌, length, Result, ◌>>=◌, ok, ℕ, ◌%◌, Bool, true, false, not, ◌&&◌, Option,
  none, some, List, [], ◌∷◌,
}
use Prim.Native.String.{String}
use wyoming_vietnamese.Stt.{
  Format, Config, Session, Event, describe, transcribe, audio_start, audio_chunk, audio_stop,
  other_event, Reply, service_info, transcript, Answer, keep,
}
use wyoming_vietnamese.Stt.Buffer.{clear_audio_buffer, audio_deadline_exceeded}
use wyoming_vietnamese.Stt.Requests.{fail, handle_transcribe, handle_audio_start}
use wyoming_vietnamese.Stt.Chunks.{is_empty, handle_audio_chunk}

-- What a handler observes while it runs: the clock at the start of `handle_event` and later, whether
-- the inference lock is acquired in time, and whether the writer is closing before and after.
pub record Outside : Type 0 where
  pub now : ℕ
  pub later : ℕ
  pub acquired : Bool
  pub closing : Bool
  pub closing_after : Bool

module _ {K : Type 0} (recognize : List ℕ → Option String) where
  -- The end of a request that is not failed.
  abbrev pub ended : Session K → List Reply → Answer K
  ended s sent = record {
    session = record s { audio_started_at = none; audio_deadline = none };
    keep_open = false;
    sent = sent;
  }

  -- The two arms after `run_inference`.
  abbrev pub respond : Outside → Session K → Option String → Result (Answer K)
  respond o s none = fail s "Speech recognition failed" "inference-failed"
  respond o s (some t) = ok (ended s (if o.closing_after then [] else transcript t ∷ []))

  -- With the inference lock held. `np.frombuffer` raises on an odd number of bytes.
  abbrev pub run_recognition : Outside → Session K → Result (Answer K)
  run_recognition o s =
      if o.closing
      then (do
        s' ← clear_audio_buffer s
        ok (record {
          session = record s' { audio_started_at = none };
          keep_open = false;
          sent = [];
        }))
      else if not (length s.audio_bytes % 2 == 0)
      then fail s "Speech recognition failed" "inference-failed"
      else clear_audio_buffer s >>= λ s'. respond o s' (recognize s.audio_bytes)

  abbrev pub finish : Outside → Session K → Result (Answer K)
  finish o s =
      if is_empty s.audio_bytes
      then ok (ended s (transcript "" ∷ []))
      else if not o.acquired
      then fail s "STT inference queue is busy" "server-busy"
      else run_recognition o s

  -- `_handle_audio_stop`
  unfoldable pub handle_audio_stop : Outside → Session K → Result (Answer K)
  handle_audio_stop o s =
      if not s.audio_started
      then fail s "Audio stop received before audio start" "invalid-event-order"
      else if audio_deadline_exceeded s o.later
      then fail s "Audio stream exceeded the configured request deadline" "request-timeout"
      else finish o (record s { audio_started = false; source_format = none; converter = none })

module _ {K : Type 0} (normalize : String → String) (fresh : K)
    (tomono : ℕ → List ℕ → Option (List ℕ)) (convert : K → Format → List ℕ → Option (K × List ℕ))
    (recognize : List ℕ → Option String) where
  abbrev pub on_event : Config → Outside → Session K → Event → Result (Answer K)
  on_event c o s describe = ok (record { session = s; keep_open = true; sent = service_info ∷ [] })
  on_event c o s (transcribe request) = handle_transcribe normalize c s request
  on_event c o s (audio_start format) = handle_audio_start c fresh o.later s format
  on_event c o s (audio_chunk chunk) = handle_audio_chunk tomono convert c o.later s chunk
  on_event c o s audio_stop = handle_audio_stop recognize o s
  on_event c o s other_event = ok (keep s)

  -- `handle_event`
  unfoldable pub handle_event : Config → Outside → Session K → Event → Result (Answer K)
  handle_event c o s event =
      if s.audio_started && audio_deadline_exceeded s o.now
      then fail s "Audio stream exceeded the configured request deadline" "request-timeout"
      else on_event c o s event

-- `disconnect`
unfoldable pub disconnect : {K : Type 0} → Session K → Result (Session K)
disconnect s = do
  s' ← clear_audio_buffer s
  ok (record s' { audio_started_at = none; audio_deadline = none; converter = none })
