-- ===== src/Tts/Conforming/Segments.antt =====
-- The events that `_synthesize` writes.
use wyoming_vietnamese.Common.{
  if◌then◌else◌, Bool-cases, ℕ, ◌+◌, ◌≡◌, refl, inl, inr, Bool, true, false, not, Option, none,
  some, List, [], ◌∷◌,
}
use wyoming_vietnamese.Tts.{
  unicode_encode_error, write_error, TtsEngine, Config, audio_start, audio_stop, EngineEnd,
  exhausted, output_limit, crashed, Attempt, wrote, World, Wire, Written, done, failed,
}
use wyoming_vietnamese.Tts.Output.{chunks_of, boundary_silence_pcm, write_event, write_chunks}
use wyoming_vietnamese.Tts.Synthesis.{
  raises_on, Body, completed, skipped, engine_raised, write_raised, Speech, spoken, unspoken,
  raised, then_body, finish_audio, await_producer, play, play_after_wait, with_lock, with_cache,
  attempt_body, suppressed, report, settle, synthesize_segment, add_bytes, then_speech,
  synthesize_parts, synthesize_split, synthesize,
}
use wyoming_vietnamese.Tts.Conforming.{
  Mode, closed, opened, mode_of, At, Reaches, write_event-Reaches, write_chunks-Reaches,
  write_audio_failure-Reaches,
}
use wyoming_vietnamese.Clauses.{Characters}
use Prim.Native.String.{String}

-- A completed body leaves the audio as asked, a skipped one closed, and an exception of the engine
-- as it says.
abbrev pub BodyReaches : Mode → Body → Type 0
BodyReaches m (completed bytes w) = At m w
BodyReaches m (skipped w) = At closed w
BodyReaches m (engine_raised end audio_started w) = At (mode_of audio_started) w
BodyReaches m (write_raised e audio_started w) = ⊥

-- What is written conforms, and the key of the text raises.
abbrev pub Unkeyed : Config → List ℕ → Wire → Type 0
Unkeyed c text w = (raises_on c text ≡ true) × ((m : Mode) × At m w)

-- Speech leaves the audio as asked, and `None` leaves it closed.
abbrev pub SpeechReaches : Config → Mode → Speech → Type 0
SpeechReaches c m (spoken bytes w) = At m w
SpeechReaches c m (unspoken w) = At closed w
SpeechReaches c m (raised (write_error e) w) = ⊥
SpeechReaches c m (raised (unicode_encode_error text) w) = Unkeyed c text w

abbrev pub after_stop : Bool → Mode
after_stop send_stop = mode_of (not send_stop)

add_bytes-SpeechReaches :
    (c : Config) (m : Mode) (bytes : ℕ) (s : Speech)
    → SpeechReaches c m s
    → SpeechReaches c m (add_bytes bytes s)
add_bytes-SpeechReaches c m bytes (spoken more w) h = h
add_bytes-SpeechReaches c m bytes (unspoken w) h = h
add_bytes-SpeechReaches c m bytes (raised (write_error e) w) h = h
add_bytes-SpeechReaches c m bytes (raised (unicode_encode_error text) w) h = h

module _ (chars : Characters) (engine : TtsEngine) (c : Config) (world : World)
    (writes : (n : ℕ) → world.write n ≡ wrote)
    (stays : (n : ℕ)
      → ((world.attempt n).closing ≡ false) × ((world.attempt n).closing_after ≡ false)) where
  then_body-BodyReaches :
      (m m' : Mode) (audio_started : Bool) (before : Written) (next : Wire → Body)
      → Reaches m before
      → ((w : Wire) → At m w → BodyReaches m' (next w))
      → BodyReaches m' (then_body audio_started before next)
  then_body-BodyReaches m m' audio_started (done w) next h k = k w h
  then_body-BodyReaches m m' audio_started (failed e w) next h k = h

  finish_audio-BodyReaches :
      (send_stop : Bool) (text separator : List ℕ) (bytes : ℕ) (w : Wire)
      → At opened w
      → BodyReaches
          (after_stop send_stop)
          (finish_audio chars engine c world send_stop text separator bytes w)
  finish_audio-BodyReaches true text separator bytes w h =
      then_body-BodyReaches closed closed true (write_event world audio_stop w) _
        (write_event-Reaches world writes opened closed audio_stop w refl h) (λ w' h'. h')
  finish_audio-BodyReaches false text separator bytes w h =
      then_body-BodyReaches opened opened true _ _ (paused engine.chunks_are_sentences)
        (λ w' h'. h')
    where
      paused :
          (sentences : Bool)
          → Reaches opened (
              if sentences
              then write_chunks world
                  (chunks_of (boundary_silence_pcm chars engine c text separator))
                  w
              else done w)
      paused true = write_chunks-Reaches world writes _ w h
      paused false = h

  await_producer-BodyReaches :
      (send_stop : Bool) (text separator : List ℕ) (bytes : ℕ) (end : EngineEnd) (w : Wire)
      → At opened w
      → BodyReaches
          (after_stop send_stop)
          (await_producer chars engine c world send_stop text separator bytes end w)
  await_producer-BodyReaches send_stop text separator bytes exhausted w h =
      finish_audio-BodyReaches send_stop text separator bytes w h
  await_producer-BodyReaches send_stop text separator bytes output_limit w h = h
  await_producer-BodyReaches send_stop text separator bytes crashed w h = h

  play-BodyReaches :
      (send_start send_stop : Bool) (text separator : List ℕ) (chunks : List (List ℕ)) (bytes : ℕ)
      (end : EngineEnd) (w : Wire)
      → At (mode_of (not send_start)) w
      → BodyReaches
          (after_stop send_stop)
          (play chars engine c world send_start send_stop text separator chunks bytes end w)
  unfolding play
  play-BodyReaches send_start send_stop text separator chunks bytes end w h =
      then_body-BodyReaches opened _ _ _ _ (started send_start h) (λ w' h'.
        then_body-BodyReaches opened _ true _ _ (write_chunks-Reaches world writes chunks w' h')
          (λ w'' h''. await_producer-BodyReaches send_stop text separator bytes end w'' h''))
    where
      started :
          (start : Bool)
          → At (mode_of (not start)) w
          → Reaches opened
              (if start then write_event world (audio_start engine.sample_rate) w else done w)
      started true h = write_event-Reaches world writes closed opened _ w refl h
      started false h = h

  -- The parts of a body share what is asked of the start and the end, and what is known before.
  module _ (send_start send_stop : Bool) (text separator : List ℕ) where
    play_after_wait-BodyReaches :
        (a : Attempt) (cached : Option (List ℕ)) (w : Wire)
        → At (mode_of (not send_start)) w
        → BodyReaches
            (after_stop send_stop)
            (play_after_wait chars engine c world send_start send_stop text separator a cached w)
    play_after_wait-BodyReaches a (some audio) w h =
        play-BodyReaches send_start send_stop text separator _ _ _ w h
    play_after_wait-BodyReaches a none w h =
        play-BodyReaches send_start send_stop text separator _ _ _ w h

    with_lock-BodyReaches :
        (a : Attempt) (w : Wire)
        → a.closing_after ≡ false
        → At (mode_of (not send_start)) w
        → BodyReaches
            (after_stop send_stop)
            (with_lock chars engine c world send_start send_stop text separator a w)
    with_lock-BodyReaches a w open_after h = elim (Bool-cases a.acquired) [
      | inl acquired ↦
          rw (acquired, open_after) (play_after_wait-BodyReaches a a.cached_after_wait w h)
      | inr busy ↦ rw busy (
          then_body-BodyReaches closed _ _ _ _
            (write_audio_failure-Reaches world writes _ _ _ _ w h) (λ w' h'. h'))
    ]

    with_cache-BodyReaches :
        (a : Attempt) (cached : Option (List ℕ)) (w : Wire)
        → a.closing_after ≡ false
        → At (mode_of (not send_start)) w
        → BodyReaches
            (after_stop send_stop)
            (with_cache chars engine c world send_start send_stop text separator a cached w)
    with_cache-BodyReaches a (some audio) w open_after h =
        play-BodyReaches send_start send_stop text separator _ _ _ w h
    with_cache-BodyReaches a none w open_after h = with_lock-BodyReaches a w open_after h

  suppressed-SpeechReaches :
      (m : Mode) (r : Written) → Reaches closed r → SpeechReaches c m (suppressed r)
  suppressed-SpeechReaches m (done w) h = h
  suppressed-SpeechReaches m (failed e w) h = absurd h

  report-SpeechReaches :
      (m : Mode) (text code : String) (audio_started : Bool) (w : Wire)
      → At (mode_of audio_started) w
      → SpeechReaches c m (report chars engine c world text code audio_started w)
  report-SpeechReaches m text code audio_started w h =
      suppressed-SpeechReaches m _
        (write_audio_failure-Reaches world writes engine.sample_rate text code audio_started w h)

  settle-SpeechReaches :
      (m : Mode) (b : Body) → BodyReaches m b → SpeechReaches c m (settle chars engine c world b)
  unfolding settle
  settle-SpeechReaches m (completed bytes w) h = h
  settle-SpeechReaches m (skipped w) h = h
  settle-SpeechReaches m (engine_raised exhausted started w) h =
      report-SpeechReaches m _ _ started w h
  settle-SpeechReaches m (engine_raised output_limit started w) h =
      report-SpeechReaches m _ _ started w h
  settle-SpeechReaches m (engine_raised crashed started w) h =
      report-SpeechReaches m _ _ started w h
  settle-SpeechReaches m (write_raised e started w) h = absurd h

  synthesize_segment-SpeechReaches :
      (send_start send_stop : Bool) (separator text : List ℕ) (w : Wire)
      → At (mode_of (not send_start)) w
      → SpeechReaches c
          (after_stop send_stop)
          (synthesize_segment chars engine c world send_start send_stop separator text w)
  unfolding synthesize_segment attempt_body
  synthesize_segment-SpeechReaches send_start send_stop separator text w h =
      elim (Bool-cases (raises_on c text)) [
        | inl raises ↦ rw raises (raises, (mode_of (not send_start), h))
        | inr keyed ↦
            let (opens, opens_after) = stays w.tried in
            rw (keyed, opens)
              (settle-SpeechReaches _ _ (
                with_cache-BodyReaches send_start send_stop text separator (world.attempt w.tried)
                  (world.attempt w.tried).cached (record w { tried = w.tried + 1 }) opens_after h))
      ]

  then_speech-SpeechReaches :
      (m m' : Mode) (s : Speech) (next : Wire → Speech)
      → SpeechReaches c m s
      → ((w : Wire) → At m w → SpeechReaches c m' (next w))
      → SpeechReaches c m' (then_speech s next)
  then_speech-SpeechReaches m m' (spoken bytes w) next h k =
      add_bytes-SpeechReaches c m' bytes (next w) (k w h)
  then_speech-SpeechReaches m m' (unspoken w) next h k = h
  then_speech-SpeechReaches m m' (raised (write_error e) w) next h k = h
  then_speech-SpeechReaches m m' (raised (unicode_encode_error text) w) next h k = h

  -- Of a text and the parts after it.
  synthesize_parts-SpeechReaches :
      (send_start send_stop : Bool) (separator text : List ℕ) (texts : List (List ℕ)) (w : Wire)
      → At (mode_of (not send_start)) w
      → SpeechReaches c
          (after_stop send_stop)
          (synthesize_parts chars engine c world send_start send_stop separator (text ∷ texts) w)
  unfolding synthesize_parts
  synthesize_parts-SpeechReaches send_start send_stop separator text [] w h =
      synthesize_segment-SpeechReaches send_start send_stop separator text w h
  synthesize_parts-SpeechReaches send_start send_stop separator text (next ∷ texts) w h =
      then_speech-SpeechReaches opened (after_stop send_stop) _ _
        (synthesize_segment-SpeechReaches send_start false [] text w h)
        (λ w' h'. synthesize_parts-SpeechReaches false send_stop separator next texts w' h')

  synthesize_split-SpeechReaches :
      (send_start send_stop : Bool) (separator text : List ℕ) (parts : Option (List (List ℕ)))
      (w : Wire)
      → At (mode_of (not send_start)) w
      → SpeechReaches c
          (after_stop send_stop)
          (synthesize_split chars engine c world send_start send_stop separator text parts w)
  synthesize_split-SpeechReaches send_start send_stop separator text none w h =
      report-SpeechReaches _ _ _ (not send_start) w h
  synthesize_split-SpeechReaches send_start send_stop separator text (some []) w h =
      synthesize_parts-SpeechReaches send_start send_stop separator text [] w h
  synthesize_split-SpeechReaches send_start send_stop separator text (some (part ∷ [])) w h =
      synthesize_parts-SpeechReaches send_start send_stop separator text [] w h
  synthesize_split-SpeechReaches send_start send_stop separator text (some (part ∷ next ∷ parts)) w
        h =
      synthesize_parts-SpeechReaches send_start send_stop separator part (next ∷ parts) w h

  pub synthesize-SpeechReaches :
      (send_start send_stop : Bool) (separator text : List ℕ) (w : Wire)
      → At (mode_of (not send_start)) w
      → SpeechReaches c
          (after_stop send_stop)
          (synthesize chars engine c world send_start send_stop separator text w)
  unfolding synthesize
  synthesize-SpeechReaches send_start send_stop separator text w h =
      synthesize_split-SpeechReaches send_start send_stop separator text _ w h
