-- ===== src/Protocol/Connection/Total.antt =====
-- The loop of a connection ends: each event shortens the stream.
use wyoming_vietnamese.Common.{
  Bool-cases, length, length-append, Result, ok, raise, ℕ, zero, suc, ◌<◌, ◌≡◌, refl, ap, ◌≢◌, inl,
  inr, Bool, Option, none, some, List, [], ◌∷◌, ◌++◌, arith,
}
use wyoming_vietnamese.Protocol.Json.{Json}
use wyoming_vietnamese.Protocol.Frame.{Event, read_event, max_payload_bytes}
use wyoming_vietnamese.Protocol.Frame.Sound.{read_event_sound}
use wyoming_vietnamese.Protocol.Connection.{
  stuck, Reply, keep_open, close, throw, Outcome, reply_to, react, loop,
}

module _ {ℓ} {S : Type ℓ} (loads : List ℕ → Option Json) (stream_limit : ℕ) (in_time : ℕ → Bool)
    (handle : S → Event → S × Reply) where
  read_event-shrinks :
      (s rest : List ℕ) (e : Event)
      → read_event loads stream_limit max_payload_bytes s ≡ ok (some (e, rest))
      → length rest < length s
  read_event-shrinks s rest e h =
      let (line, data_bytes, payload, split, f) =
        read_event_sound loads stream_limit max_payload_bytes s rest e h in
      omega (
        arith,
        ap length split,
        ap length f.is_line.ended,
        length-append f.is_line.body (b'\n' ∷ []),
        length-append line (data_bytes ++ (payload ++ rest)),
        length-append data_bytes (payload ++ rest),
        length-append payload rest,
      )

  reply_to-ne-stuck :
      (next : S → Outcome S) (e : Event) (r : S × Reply)
      → ((st' : S) → (next st').ending ≢ stuck)
      → (reply_to handle next e r).ending ≢ stuck
  reply_to-ne-stuck next e (st', keep_open) go = go st'
  reply_to-ne-stuck next e (st', close) go = λ h. cc
  reply_to-ne-stuck next e (st', throw f) go = λ h. cc

  react-ne-stuck :
      (next : S → List ℕ → Outcome S) (st : S) (r : Result (Option (Event × List ℕ)))
      → ((st' : S) (rest : List ℕ) (e : Event)
          → r ≡ ok (some (e, rest))
          → (next st' rest).ending ≢ stuck)
      → (react handle next st r).ending ≢ stuck
  react-ne-stuck next st (raise e) go = λ h. cc
  react-ne-stuck next st (ok none) go = λ h. cc
  react-ne-stuck next st (ok (some (e, rest))) go =
      reply_to-ne-stuck (λ st'. next st' rest) e (handle st e) (λ st'. go st' rest e refl)

  -- With more fuel than the stream has bytes the loop ends, whatever the stream, the JSON parser, the
  -- timeouts and the handler do: it never runs out of fuel.
  pub loop-ne-stuck :
      (fuel i : ℕ) (st : S) (s : List ℕ)
      → length s < fuel
      → (loop loads stream_limit in_time handle fuel i st s).ending ≢ stuck
  unfolding loop
  loop-ne-stuck zero i st s h = absurd (omega arith)
  loop-ne-stuck (suc fuel) i st s h = elim (Bool-cases (in_time i)) [
    | inl e ↦
        rw (e, loop)
          (react-ne-stuck (loop loads stream_limit in_time handle fuel (suc i)) st
            (read_event loads stream_limit max_payload_bytes s)
            (λ st' rest ev k.
              loop-ne-stuck fuel (suc i) st' rest (omega (arith, read_event-shrinks s rest ev k))))
    | inr e ↦ rw (e, loop) (λ k. cc)
  ]
