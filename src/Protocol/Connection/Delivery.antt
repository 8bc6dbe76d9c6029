-- ===== src/Protocol/Connection/Delivery.antt =====
-- A stream of well-formed frames, against the events that the loop hands over.
use wyoming_vietnamese.Common.{
  length, length-append, ok, ℕ, zero, suc, ◌≤◌, ◌<◌, ◌≡◌, refl, ap, Bool, true, false, Option, none,
  List, [], ◌∷◌, ◌++◌, arith,
}
use mathlib.Core.List.{foldl}
use wyoming_vietnamese.Protocol.Json.{Json}
use wyoming_vietnamese.Protocol.Frame.{
  Event, read_event, max_payload_bytes, readline, split_line, body_length,
}
use wyoming_vietnamese.Protocol.Frame.Grammar.{IsFrame}
use wyoming_vietnamese.Protocol.Frame.Complete.{read_event-IsFrame}
use wyoming_vietnamese.Protocol.Connection.{
  stopped, Reply, keep_open, close, throw, Outcome, reply_to, note_event, loop, response, run,
}

-- The stream is the frames of these events, one after another, and then ends.
pub data Frames (loads : List ℕ → Option Json) (stream_limit : ℕ)
    : List Event → List ℕ → Type 0 where
  done : Frames loads stream_limit [] []
  more :
      {e : Event} {es : List Event} {line data_bytes payload rest : List ℕ}
      → IsFrame loads stream_limit max_payload_bytes line data_bytes payload e
      → Frames loads stream_limit es rest
      → Frames loads stream_limit (e ∷ es) (line ++ (data_bytes ++ (payload ++ rest)))

-- From this state the handler answers each of these events by keeping the connection open.
abbrev pub KeepsOpen {ℓ} : {S : Type ℓ} → (S → Event → S × Reply) → S → List Event → Type 0
KeepsOpen handle st [] = Unit
KeepsOpen handle st (e ∷ es) = ((handle st e).1 ≡ keep_open) × KeepsOpen handle (handle st e).0 es

abbrev pub final_state {ℓ} : {S : Type ℓ} → (S → Event → S × Reply) → S → List Event → S
final_state handle = foldl (λ st e. (handle st e).0)

module _ {ℓ} {S : Type ℓ} (loads : List ℕ → Option Json) (stream_limit : ℕ) (in_time : ℕ → Bool)
    (handle : S → Event → S × Reply) (on_time : (i : ℕ) → in_time i ≡ true) where
  reply_to-keep_open :
      (next : S → Outcome S) (e : Event) (r : S × Reply)
      → r.1 ≡ keep_open
      → reply_to handle next e r ≡ note_event e (next r.0)
  reply_to-keep_open next e (st, keep_open) h = refl
  reply_to-keep_open next e (st, close) h = cc
  reply_to-keep_open next e (st, throw f) h = cc

  read_event-nil : read_event loads stream_limit max_payload_bytes [] ≡ ok none
  unfolding read_event readline split_line body_length
  read_event-nil = ground arith

  loop-Frames :
      (es : List Event) (s : List ℕ) (fuel i : ℕ) (st : S)
      → Frames loads stream_limit es s
      → KeepsOpen handle st es
      → length es < fuel
      → loop loads stream_limit in_time handle fuel i st s
        ≡ record { handled = es; state = final_state handle st es; ending = stopped }
  unfolding loop
  loop-Frames es s zero i st f k h = absurd (omega arith)
  loop-Frames [] [] (suc fuel) i st done k h = rw (on_time i, loop, read_event-nil)
  loop-Frames _ _ (suc fuel) i st (more {e} {es} {line} {data_bytes} {payload} {rest} frame f) k h =
      rw (
        on_time i,
        loop,
        read_event-IsFrame loads stream_limit max_payload_bytes line data_bytes payload e frame
            rest,
        reply_to-keep_open (λ st'. loop loads stream_limit in_time handle fuel (suc i) st' rest) e
            (handle st e) k.0,
        loop-Frames es rest fuel (suc i) (handle st e).0 f k.1 (omega arith),
      )

  length-Frames :
      (es : List Event) (s : List ℕ) → Frames loads stream_limit es s → length es ≤ length s
  length-Frames _ _ done = omega arith
  length-Frames _ _ (more {e} {es} {line} {data_bytes} {payload} {rest} f fs) = omega (
    arith,
    length-Frames es rest fs,
    ap length f.is_line.ended,
    length-append f.is_line.body (b'\n' ∷ []),
    length-append line (data_bytes ++ (payload ++ rest)),
    length-append data_bytes (payload ++ rest),
    length-append payload rest,
  )

  -- On a stream that is the frames of a list of events, each of which the handler answers by keeping
  -- the connection open, with every read in time, each event is handled, once and in order; the
  -- connection then closes with no error written and no exception passed on.
  pub run-Frames :
      (disconnect : S → S) (es : List Event) (s : List ℕ) (st : S)
      → Frames loads stream_limit es s
      → KeepsOpen handle st es
      → ((loop loads stream_limit in_time handle (suc (length s)) 0 st s).handled ≡ es)
        × (run loads stream_limit in_time handle disconnect st s ≡ record {
          written = none;
          state = disconnect (final_state handle st es);
          reraises = false;
        })
  unfolding run response
  run-Frames disconnect es s st f k =
      let e = loop-Frames es s (suc (length s)) 0 st f k (omega (arith, length-Frames es s f)) in
      (rw e, rw e)
