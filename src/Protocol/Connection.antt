-- ===== src/Protocol/Connection.antt =====
-- `SafeAsyncEventHandler.run` of wyoming_vietnamese/protocol.py: the event loop of one connection.
-- `handle` is the subclass's `handle_event` and `disconnect` its cleanup; `in_time i` says whether the
-- i-th event arrives before the event timeout. Logging is left out.
pub mod Total
pub mod Delivery
use wyoming_vietnamese.Common.{
  length, Error, Result, protocol_error, incomplete_read_error, ok, raise, ℕ, zero, suc, Bool, true,
  false, Option, none, some, List, [], ◌∷◌,
}
use Prim.Native.String.{String}
use wyoming_vietnamese.Protocol.Json.{Json}
use wyoming_vietnamese.Protocol.Frame.{Event, read_event, max_payload_bytes}

-- What can escape from the body of the loop.
pub data Failure : Type 0 where
  timeout_error protocol_failure incomplete_read connection_error cancelled unexpected : Failure

-- How the loop ends: by `break`, by an exception, or, in the model alone, out of fuel.
pub data Ending : Type 0 where
  stopped : Ending
  failed : Failure → Ending
  stuck : Ending

-- The result of one `handle_event`.
pub data Reply : Type 0 where
  keep_open close : Reply
  throw : Failure → Reply

-- The exceptions of `async_read_event_limited`, as the handlers of `run` tell them apart.
abbrev pub failure_of : Error → Failure
failure_of protocol_error = protocol_failure
failure_of incomplete_read_error = incomplete_read
failure_of other = unexpected

-- The code of the error event that `run` tries to write, if any.
unfoldable pub response : Ending → Option String
response stopped = none
response stuck = none
response (failed timeout_error) = some "request-timeout"
response (failed protocol_failure) = some "invalid-event"
response (failed incomplete_read) = none
response (failed connection_error) = none
response (failed cancelled) = none
response (failed unexpected) = some "internal-error"

pub record Outcome {ℓ} (S : Type ℓ) : Type ℓ where
  -- The events that were handled, in order.
  pub handled : List Event
  pub state : S
  pub ending : Ending

abbrev pub note_event {ℓ} : {S : Type ℓ} → Event → Outcome S → Outcome S
note_event e o = record { handled = e ∷ o.handled; state = o.state; ending = o.ending }

-- What the connection leaves behind: the error code written, the state after `disconnect`, and
-- whether an exception goes on to the caller.
pub record Closed {ℓ} (S : Type ℓ) : Type ℓ where
  pub written : Option String
  pub state : S
  pub reraises : Bool

module _ {ℓ} {S : Type ℓ} (handle : S → Event → S × Reply) where
  abbrev pub reply_to : (S → Outcome S) → Event → S × Reply → Outcome S
  reply_to next e (st, keep_open) = note_event e (next st)
  reply_to next e (st, close) = record { handled = e ∷ []; state = st; ending = stopped }
  reply_to next e (st, throw f) = record { handled = e ∷ []; state = st; ending = failed f }

  -- One turn of the loop, after the read. `next` is the rest of the loop.
  abbrev pub react : (S → List ℕ → Outcome S) → S → Result (Option (Event × List ℕ)) → Outcome S
  react next st (raise e) = record { handled = []; state = st; ending = failed (failure_of e) }
  react next st (ok none) = record { handled = []; state = st; ending = stopped }
  react next st (ok (some (e, rest))) = reply_to (λ st'. next st' rest) e (handle st e)

module _ {ℓ} {S : Type ℓ} (loads : List ℕ → Option Json) (stream_limit : ℕ) (in_time : ℕ → Bool)
    (handle : S → Event → S × Reply) where
  -- The `while self._is_running` loop. `i` counts the events read.
  unfoldable pub loop : ℕ → ℕ → S → List ℕ → Outcome S
  loop zero i st s = record { handled = []; state = st; ending = stuck }
  loop (suc fuel) i st s = elim (in_time i) [
    | false ↦ record { handled = []; state = st; ending = failed timeout_error }
    | true ↦ react handle (loop fuel (suc i)) st (read_event loads stream_limit max_payload_bytes s)
  ]

  -- Every event takes a byte at least, so this fuel is enough.
  unfoldable pub run : (S → S) → S → List ℕ → Closed S
  unfolding loop
  run disconnect st s =
      let o = loop (suc (length s)) 0 st s in
      record {
        written = response o.ending;
        state = disconnect o.state;
        reraises = elim o.ending [ failed cancelled ↦ true | _ ↦ false ];
      }
