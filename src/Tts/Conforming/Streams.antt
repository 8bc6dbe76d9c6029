-- ===== src/Tts/Conforming/Streams.antt =====
-- The events that `handle_event` writes.
use wyoming_vietnamese.Common.{
  ltb, if◌then◌else◌, length, ℕ, ◌+◌, ◌≡◌, refl, subst, ◌≢◌, ◌⊎◌, inl, inr, Bool, true, false, not,
  Option, none, some, List, [], ◌∷◌,
}
use wyoming_vietnamese.Tts.{
  unicode_encode_error, write_error, TtsEngine, Config, Session, audio_stop, synthesize_stopped,
  wrote, World, Wire, Written, done, failed, Ending, keep_open, close, raised, Answer,
}
use wyoming_vietnamese.Tts.Synthesis as Synthesis
use wyoming_vietnamese.Tts.Synthesis.{Speech, spoken, unspoken}
use wyoming_vietnamese.Tts.Requests.{
  normalize_for_limit, record_voice_usage, log_voice, effective_voice_name, answer,
}
use wyoming_vietnamese.Tts.State.{
  Clause, reset_stream, reset_after, pair_up, normalize_clauses, clause_chars,
  stream_deadline_exceeded,
}
use wyoming_vietnamese.Tts.Stream.{
  fail_stream, after_clause, speak_clauses, speak_within_limit, speak_ready, buffer_text, take_text,
  parsed_chunk, speak_rest, handle_stream_stop,
}
use wyoming_vietnamese.Tts.Conforming.{
  Mode, closed, opened, mode_of, At, Reaches, write_event-Reaches, and_then-Reaches,
  write_audio_failure-Reaches,
}
use wyoming_vietnamese.Tts.Conforming.Segments.{
  Unkeyed, SpeechReaches, after_stop, synthesize-SpeechReaches,
}
use wyoming_vietnamese.Clauses.{Characters}
use wyoming_vietnamese.Clauses.Spaces.{lstrip, strip, Begins, lstrip-Begins}
use wyoming_vietnamese.Clauses.Matches.{is_empty}
use wyoming_vietnamese.Clauses.Lossless.{rstrip-Begins, split_clause_text_with_separators-nonempty}
use wyoming_vietnamese.Clauses.Detector as Detector
use wyoming_vietnamese.Clauses.Detector.{
  add_chunk_with_separators, split_clause_text_with_separators,
}
use wyoming_vietnamese.Stt.{max_empty_events}
use Prim.Native.String.{String}

-- Audio is started within a stream alone.
abbrev pub IsQuiet : Session → Type 0
IsQuiet s = s.is_streaming ≡ false → s.stream_audio_started ≡ false

abbrev pub Conforms : Config → Ending → Session → Wire → Type 0
Conforms c keep_open s w = At (mode_of s.stream_audio_started) w × IsQuiet s
Conforms c close s w = At closed w
Conforms c (raised (write_error e)) s w = ⊥
Conforms c (raised (unicode_encode_error text)) s w = Unkeyed c text w

-- What the handler has written conforms. If it keeps the connection open the state knows whether
-- audio is open, and if it closes it none is. It raises for a text whose key raises alone.
abbrev pub IsConforming : Config → Answer → Type 0
IsConforming c a = Conforms c a.ending a.session a.wire

pub if-IsConforming :
    (c : Config) (test : Bool) (a b : Answer)
    → IsConforming c a
    → IsConforming c b
    → IsConforming c (if test then a else b)
if-IsConforming c true a b h h' = h
if-IsConforming c false a b h h' = h'

pub if_known-IsConforming :
    (c : Config) (test : Bool) (a b : Answer)
    → (test ≡ true → IsConforming c a)
    → (test ≡ false → IsConforming c b)
    → IsConforming c (if test then a else b)
if_known-IsConforming c true a b h h' = h refl
if_known-IsConforming c false a b h h' = h' refl

pub answer-IsConforming :
    (c : Config) (s : Session) (r : Written) → Reaches closed r → IsConforming c (answer s close r)
answer-IsConforming c s (done w) h = h
answer-IsConforming c s (failed e w) h = absurd h

reset_after-IsConforming :
    (c : Config) (engine : TtsEngine) (s : Session) (end : Ending) (r : Written)
    → (end ≡ close) ⊎ (end ≡ keep_open)
    → Reaches closed r
    → IsConforming c (reset_after engine s end r)
unfolding reset_stream
reset_after-IsConforming c engine s end (done w) (inl e) h = rw e h
reset_after-IsConforming c engine s end (done w) (inr e) h = rw e (h, λ idle. refl)
reset_after-IsConforming c engine s end (failed e w) which h = absurd h

not-not : (b : Bool) → not (not b) ≡ b
not-not true = refl
not-not false = refl

-- What is logged is not written.
pub record_voice_usage-At :
    (engine : TtsEngine) (c : Config) (voice : Option String) (m : Mode) (w : Wire)
    → At m w
    → At m (record_voice_usage engine c voice w)
unfolding record_voice_usage
record_voice_usage-At engine c voice m w h =
    logged c.has_voice_usage_store (effective_voice_name engine voice)
  where
    logged : (stored : Bool) (v : Option String) → At m (if stored then log_voice v w else w)
    logged true none = h
    logged true (some v) = h
    logged false v = h

normalize_clauses-nonempty :
    (engine : TtsEngine) (voice : Option String) (pairs : List (List ℕ × List ℕ))
    → pairs ≢ []
    → normalize_clauses engine voice pairs ≢ some []
unfolding normalize_clauses
normalize_clauses-nonempty engine voice [] h = λ e. h refl
normalize_clauses-nonempty engine voice ((clause, separator) ∷ pairs) h =
    pair_up_some (normalize_for_limit engine clause voice)
      (normalize_for_limit engine separator voice) (normalize_clauses engine voice pairs)
  where
    pair_up_some :
        (text normalized : Option (List ℕ)) (cls : Option (List Clause))
        → pair_up text normalized separator cls ≢ some []
    pair_up_some none n cls e = cc
    pair_up_some (some t) none cls e = cc
    pair_up_some (some t) (some n) none e = cc
    pair_up_some (some t) (some n) (some cls) e = cc

module _ (lower : String → String) (chars : Characters) (engine : TtsEngine) (c : Config)
    (world : World) (now : ℕ) (writes : (n : ℕ) → world.write n ≡ wrote)
    (stays : (n : ℕ)
      → ((world.attempt n).closing ≡ false) × ((world.attempt n).closing_after ≡ false)) where
  pub fail_stream-IsConforming :
      (text code : String) (s : Session) (w : Wire)
      → At (mode_of s.stream_audio_started) w
      → IsConforming c (fail_stream lower chars engine c world now text code s w)
  unfolding fail_stream
  fail_stream-IsConforming text code s w h =
      reset_after-IsConforming c engine _ close _ (inl refl) (
        and_then-Reaches closed closed _ _
          (write_audio_failure-Reaches world writes engine.sample_rate text code
            s.stream_audio_started w h)
          (λ w' h'. write_event-Reaches world writes closed closed synthesize_stopped w' refl h'))

  after_clause-IsConforming :
      (m : Mode) (s : Session) (speech : Speech) (next : Session → Wire → Answer)
      → SpeechReaches c m speech
      → ((bytes : ℕ) (w : Wire)
          → At m w
          → IsConforming c (
              next
                (record s {
                  stream_audio_started = true;
                  stream_audio_bytes = s.stream_audio_bytes + bytes;
                })
                w))
      → IsConforming c (after_clause lower chars engine c world now s speech next)
  after_clause-IsConforming m s (spoken bytes w) next h k = k bytes w h
  after_clause-IsConforming m s (unspoken w) next h k =
      reset_after-IsConforming c engine s close _ (inl refl)
        (write_event-Reaches world writes closed closed synthesize_stopped w refl h)
  after_clause-IsConforming m s (Synthesis.raised (write_error e) w) next h k = absurd h
  after_clause-IsConforming m s (Synthesis.raised (unicode_encode_error text) w) next h k = h

  -- What follows the loop over some clauses conforms if it does wherever the loop may leave it.
  speak_clauses-IsConforming :
      (stops : Bool) (cl : Clause) (cls : List Clause) (next : Session → Wire → Answer)
      (s : Session) (w : Wire)
      → At (mode_of s.stream_audio_started) w
      → ((s' : Session) (w' : Wire)
          → s'.stream_audio_started ≡ true
          → s'.is_streaming ≡ s.is_streaming
          → At (after_stop stops) w'
          → IsConforming c (next s' w'))
      → IsConforming c (speak_clauses lower chars engine c world now stops (cl ∷ cls) next s w)
  unfolding speak_clauses
  speak_clauses-IsConforming stops cl [] next s w h k =
      after_clause-IsConforming (after_stop stops) _ _ _
        (synthesize-SpeechReaches chars engine c world writes stays (not s.stream_audio_started)
          stops cl.separator cl.text w (rw not-not h))
        (λ bytes w' h'. k _ w' refl refl h')
  speak_clauses-IsConforming stops cl (cl' ∷ cls) next s w h k =
      after_clause-IsConforming opened _ _ _
        (synthesize-SpeechReaches chars engine c world writes stays (not s.stream_audio_started)
          false cl.separator cl.text w (rw not-not h))
        (λ bytes w' h'.
          speak_clauses-IsConforming stops cl' cls next
            (record s {
              stream_audio_started = true;
              stream_segment_count = s.stream_segment_count + 1;
              stream_audio_bytes = s.stream_audio_bytes + bytes;
            })
            w' h' (λ s' w'' started same at. k s' w'' started same at))

  speak_within_limit-IsConforming :
      (stops : Bool) (parts : Option (List Clause)) (next : Session → Wire → Answer) (s : Session)
      (w : Wire)
      → parts ≢ some []
      → At (mode_of s.stream_audio_started) w
      → ((s' : Session) (w' : Wire)
          → s'.stream_audio_started ≡ true
          → s'.is_streaming ≡ s.is_streaming
          → At (after_stop stops) w'
          → IsConforming c (next s' w'))
      → IsConforming c (speak_within_limit lower chars engine c world now stops parts next s w)
  speak_within_limit-IsConforming stops none next s w some_parts h k =
      fail_stream-IsConforming _ _ s w h
  speak_within_limit-IsConforming stops (some []) next s w some_parts h k = absurd (some_parts refl)
  speak_within_limit-IsConforming stops (some (cl ∷ cls)) next s w some_parts h k =
      if-IsConforming c (ltb c.max_text_chars (s.stream_normalized_chars + clause_chars (cl ∷ cls)))
        _ _ (fail_stream-IsConforming _ _ s w h)
        (speak_clauses-IsConforming stops cl cls next _ w h k)

  speak_ready-IsConforming :
      (pairs : List (List ℕ × List ℕ)) (s : Session) (w : Wire)
      → s.is_streaming ≡ true
      → At (mode_of s.stream_audio_started) w
      → IsConforming c (speak_ready lower chars engine c world now pairs s w)
  speak_ready-IsConforming [] s w streams h = (h, λ idle. cc)
  speak_ready-IsConforming (pair ∷ pairs) s w streams h =
      speak_within_limit-IsConforming false _ _ s w
        (normalize_clauses-nonempty engine s.stream_voice_name (pair ∷ pairs) (λ e. cc)) h
        (λ s' w' started same at. (rw started at, λ idle. cc))

  buffer_text-IsConforming :
      (text : List ℕ) (s : Session) (w : Wire)
      → s.is_streaming ≡ true
      → At (mode_of s.stream_audio_started) w
      → IsConforming c (buffer_text lower chars engine c world now text s w)
  buffer_text-IsConforming text s w streams h =
      if-IsConforming c (ltb c.max_text_chars (s.stream_text_chars + length text)) _ _
        (fail_stream-IsConforming _ _ _ w h)
        (speak_ready-IsConforming (add_chunk_with_separators chars s.sentence_boundary text).0 _ w
          streams h)

  take_text-IsConforming :
      (text : List ℕ) (s : Session) (w : Wire)
      → s.is_streaming ≡ true
      → At (mode_of s.stream_audio_started) w
      → IsConforming c (take_text lower chars engine c world now text s w)
  take_text-IsConforming text s w streams h =
      if-IsConforming c (is_empty (strip chars.is_space text)) _ _
        (if-IsConforming c (ltb max_empty_events (s.stream_empty_events + 1)) _ _
          (fail_stream-IsConforming _ _ _ w h) (buffer_text-IsConforming text _ w streams h))
        (buffer_text-IsConforming text _ w streams h)

  pub parsed_chunk-IsConforming :
      (chunk : Option (List ℕ)) (s : Session) (w : Wire)
      → s.is_streaming ≡ true
      → At (mode_of s.stream_audio_started) w
      → IsConforming c (parsed_chunk lower chars engine c world now chunk s w)
  parsed_chunk-IsConforming none s w streams h = fail_stream-IsConforming _ _ s w h
  parsed_chunk-IsConforming (some text) s w streams h =
      if-IsConforming c (stream_deadline_exceeded s now) _ _ (fail_stream-IsConforming _ _ s w h)
        (take_text-IsConforming text s w streams h)

  speak_rest-IsConforming :
      (final_text : List ℕ) (s : Session) (w : Wire)
      → Begins chars.is_space final_text
      → At (mode_of s.stream_audio_started) w
      → IsConforming c (speak_rest lower chars engine c world now final_text s w)
  speak_rest-IsConforming [] s w b h =
      if_known-IsConforming c s.stream_audio_started _ _
        (λ started. reset_after-IsConforming c engine s keep_open _ (inr refl) (
          and_then-Reaches closed closed _ _
            (write_event-Reaches world writes opened closed audio_stop w refl
              (subst (λ (a : Bool). At (mode_of a) w) started h))
            (λ w' h'.
              write_event-Reaches world writes closed closed synthesize_stopped w' refl h')))
        (λ silent. fail_stream-IsConforming _ _ s w h)
  speak_rest-IsConforming (x ∷ final_text) s w b h =
      speak_within_limit-IsConforming true _ _ s w
        (normalize_clauses-nonempty engine s.stream_voice_name _ (
          split_clause_text_with_separators-nonempty chars x final_text engine.chunks_are_sentences
            b))
        h
        (λ s' w' started same at.
          reset_after-IsConforming c engine s' keep_open _ (inr refl)
            (write_event-Reaches world writes closed closed synthesize_stopped w' refl at))

  finish-Begins : (d : Detector.Detector) → Begins chars.is_space (Detector.finish chars d).0
  unfolding Detector.finish
  finish-Begins d =
      rstrip-Begins chars (lstrip chars.is_space d.buffer) (lstrip-Begins chars.is_space d.buffer)

  pub handle_stream_stop-IsConforming :
      (s : Session) (w : Wire)
      → At (mode_of s.stream_audio_started) w
      → IsConforming c (handle_stream_stop lower chars engine c world now s w)
  unfolding handle_stream_stop
  handle_stream_stop-IsConforming s w h =
      if-IsConforming c (not s.is_streaming) _ _ (fail_stream-IsConforming _ _ s w h) (
        if-IsConforming c (stream_deadline_exceeded s now) _ _ (fail_stream-IsConforming _ _ s w h)
          (speak_rest-IsConforming (Detector.finish chars s.sentence_boundary).0 _ w
            (finish-Begins s.sentence_boundary) h))
