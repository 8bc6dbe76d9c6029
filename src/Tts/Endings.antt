-- ===== src/Tts/Endings.antt =====
-- How a synthesis ends when writes fail, and how a stream ends.
use wyoming_vietnamese.Common.{
  Bool-cases, ℕ, ◌≡◌, inl, inr, Bool, true, false, Option, none, some, List, [], ◌∷◌, ◌++◌,
}
use wyoming_vietnamese.Tts.{
  unicode_encode_error, write_error, TtsEngine, Config, Session, Reply, synthesize_stopped,
  exhausted, output_limit, crashed, World, Wire, write_timeout, connection_lost, Written, done,
  failed, Ending, keep_open, close, raised, Answer,
}
use wyoming_vietnamese.Tts.Synthesis as Synthesis
use wyoming_vietnamese.Tts.Synthesis.{
  raises_on, Body, completed, skipped, engine_raised, write_raised, Speech, spoken, unspoken,
  suppressed, report, settle, synthesize_segment, add_bytes, then_speech, synthesize_parts,
  synthesize_split, synthesize,
}
use wyoming_vietnamese.Clauses.{Characters}
use wyoming_vietnamese.Clauses.Detector as Detector
use Prim.Native.String.{String}

-- No `ProtocolWriteError` escapes, and no `UnicodeEncodeError` but that of a text whose key
-- raises.
abbrev pub IsContained : Config → Speech → Type 0
IsContained c (spoken bytes w) = Unit {0}
IsContained c (unspoken w) = Unit {0}
IsContained c (Synthesis.raised (write_error write_timeout) w) = ⊥
IsContained c (Synthesis.raised (write_error connection_lost) w) = Unit {0}
IsContained c (Synthesis.raised (unicode_encode_error text) w) = raises_on c text ≡ true

suppressed-IsContained : (c : Config) (r : Written) → IsContained c (suppressed r)
suppressed-IsContained c (done w) = tt
suppressed-IsContained c (failed write_timeout w) = tt
suppressed-IsContained c (failed connection_lost w) = tt

add_bytes-IsContained :
    (c : Config) (bytes : ℕ) (s : Speech) → IsContained c s → IsContained c (add_bytes bytes s)
add_bytes-IsContained c bytes (spoken more w) h = tt
add_bytes-IsContained c bytes (unspoken w) h = tt
add_bytes-IsContained c bytes (Synthesis.raised e w) h = h

then_speech-IsContained :
    (c : Config) (s : Speech) (next : Wire → Speech)
    → IsContained c s
    → ((w : Wire) → IsContained c (next w))
    → IsContained c (then_speech s next)
then_speech-IsContained c (spoken bytes w) next h k = add_bytes-IsContained c bytes (next w) (k w)
then_speech-IsContained c (unspoken w) next h k = tt
then_speech-IsContained c (Synthesis.raised e w) next h k = h

module _ (chars : Characters) (engine : TtsEngine) (c : Config) (world : World) where
  settle-IsContained : (b : Body) → IsContained c (settle chars engine c world b)
  unfolding settle
  settle-IsContained (completed bytes w) = tt
  settle-IsContained (skipped w) = tt
  settle-IsContained (engine_raised exhausted started w) = suppressed-IsContained c _
  settle-IsContained (engine_raised output_limit started w) = suppressed-IsContained c _
  settle-IsContained (engine_raised crashed started w) = suppressed-IsContained c _
  settle-IsContained (write_raised write_timeout started w) = tt
  settle-IsContained (write_raised connection_lost started w) = suppressed-IsContained c _

  synthesize_segment-IsContained :
      (send_start send_stop : Bool) (separator text : List ℕ) (w : Wire)
      → IsContained c
          (synthesize_segment chars engine c world send_start send_stop separator text w)
  unfolding synthesize_segment
  synthesize_segment-IsContained send_start send_stop separator text w =
      elim (Bool-cases (raises_on c text)) [
        | inl raises ↦ rw raises raises
        | inr keyed ↦ rw keyed (settle-IsContained _)
      ]

  synthesize_parts-IsContained :
      (send_start send_stop : Bool) (separator : List ℕ) (texts : List (List ℕ)) (w : Wire)
      → IsContained c (synthesize_parts chars engine c world send_start send_stop separator texts w)
  unfolding synthesize_parts
  synthesize_parts-IsContained send_start send_stop separator [] w = tt
  synthesize_parts-IsContained send_start send_stop separator (text ∷ []) w =
      synthesize_segment-IsContained _ _ _ _ _
  synthesize_parts-IsContained send_start send_stop separator (text ∷ next ∷ texts) w =
      then_speech-IsContained c _ _ (synthesize_segment-IsContained _ _ _ _ _)
        (λ w'. synthesize_parts-IsContained false send_stop separator (next ∷ texts) w')

  synthesize_split-IsContained :
      (send_start send_stop : Bool) (separator text : List ℕ) (parts : Option (List (List ℕ)))
      (w : Wire)
      → IsContained c
          (synthesize_split chars engine c world send_start send_stop separator text parts w)
  synthesize_split-IsContained send_start send_stop separator text none w =
      suppressed-IsContained c _
  synthesize_split-IsContained send_start send_stop separator text (some parts) w =
      synthesize_parts-IsContained send_start send_stop separator _ w

  -- Whatever the writes come to and whatever the engine does, a synthesis that does not succeed
  -- returns `None`, raises because the connection is lost, or, where results are cached, raises the
  -- `UnicodeEncodeError` of a text that has a code point that UTF-8 does not encode: a write that times
  -- out is never an exception of it.
  pub synthesize-IsContained :
      (send_start send_stop : Bool) (separator text : List ℕ) (w : Wire)
      → IsContained c (synthesize chars engine c world send_start send_stop separator text w)
  unfolding synthesize
  synthesize-IsContained send_start send_stop separator text w =
      synthesize_split-IsContained send_start send_stop separator text _ w

-- The last event written.
abbrev pub EndsWith : Reply → Wire → Type 0
EndsWith r w = (front : List Reply) × (w.sent ≡ front ++ (r ∷ []))

abbrev Finishes : Reply → Written → Type 0
Finishes r (done w) = EndsWith r w
Finishes r (failed e w) = Unit {0}

abbrev pub Ends : Config → Ending → Session → Wire → Type 0
Ends c keep_open s w = (s.is_streaming ≡ false) × EndsWith synthesize_stopped w
Ends c close s w = (s.is_streaming ≡ false) × EndsWith synthesize_stopped w
Ends c (raised (write_error e)) s w = Unit {0}
Ends c (raised (unicode_encode_error text)) s w = raises_on c text ≡ true

-- A write raised, or the key of a text did, or the last event written is `synthesize-stopped` and no
-- stream is on.
abbrev pub IsEnded : Config → Answer → Type 0
IsEnded c a = Ends c a.ending a.session a.wire

abbrev Returns : Ending → Type 0
Returns keep_open = Unit {0}
Returns close = Unit {0}
Returns (raised e) = ⊥
