-- ===== src/Tts/Synthesis.antt =====
-- `_synthesize`, with the audio that `_produce_audio` puts in the queue.
use wyoming_vietnamese.Common.{
  ltb, leb, if◌then◌else◌, length, ℕ, zero, suc, ◌+◌, Bool, true, false, not, ◌&&◌, Option, none,
  some, List, [], ◌∷◌, ◌++◌,
}
use wyoming_vietnamese.Tts.{
  write_error, unicode_encode_error, Raise, TtsEngine, Config, audio_start, audio_stop, EngineEnd,
  exhausted, output_limit, crashed, Attempt, World, Wire, WriteError, write_timeout,
  connection_lost, Written, done, failed,
}
use wyoming_vietnamese.Tts.Output.{
  chunks_of, silence_pcm, boundary_silence_pcm, write_event, write_chunks, write_audio_failure,
}
use wyoming_vietnamese.Clauses.{Characters}
use Prim.Native.String.{String}

-- The audio of `_produce_audio`: a pause before every chunk of the engine but the first.
abbrev pub with_pauses : List ℕ → List (List ℕ) → List (List ℕ)
with_pauses pause [] = []
with_pauses pause (chunk ∷ chunks) = (pause ++ chunk) ∷ with_pauses pause chunks

unfoldable pub produced : TtsEngine → Config → List (List ℕ) → List (List ℕ)
produced engine c [] = []
produced engine c (chunk ∷ chunks) =
    chunk
    ∷ (if engine.chunks_are_sentences && ltb 0 c.sentence_silence_ms
        then with_pauses (silence_pcm c.sentence_silence_ms engine.sample_rate) chunks
        else chunks)

abbrev pub queued : List (List ℕ) → List (List ℕ)
queued [] = []
queued (audio ∷ audios) = chunks_of audio ++ queued audios

abbrev pub byte_count : List (List ℕ) → ℕ
byte_count [] = 0
byte_count (audio ∷ audios) = length audio + byte_count audios

-- `TTS engine returned no audio` is an exception.
abbrev pub producer_end : EngineEnd → ℕ → EngineEnd
producer_end exhausted zero = crashed
producer_end exhausted (suc bytes) = exhausted
producer_end output_limit bytes = output_limit
producer_end crashed bytes = crashed

-- What the body of the `try` of `_synthesize` comes to: a production of so many bytes, `return None`,
-- an exception of the producer, or an exception of a write; with it whether the audio was started.
pub data Body : Type 0 where
  completed : ℕ → Wire → Body
  skipped : Wire → Body
  engine_raised : EngineEnd → Bool → Wire → Body
  write_raised : WriteError → Bool → Wire → Body

-- `_synthesize` returns a production of so many bytes, returns `None`, or raises.
pub data Speech : Type 0 where
  spoken : ℕ → Wire → Speech
  unspoken : Wire → Speech
  raised : Raise → Wire → Speech

abbrev pub then_body : Bool → Written → (Wire → Body) → Body
then_body audio_started (done w) next = next w
then_body audio_started (failed e w) next = write_raised e audio_started w

-- `with suppress(ProtocolWriteError)`, then `return None`.
abbrev pub suppressed : Written → Speech
suppressed (done w) = unspoken w
suppressed (failed write_timeout w) = unspoken w
suppressed (failed connection_lost w) = raised (write_error connection_lost) w

abbrev pub add_bytes : ℕ → Speech → Speech
add_bytes bytes (spoken more w) = spoken (bytes + more) w
add_bytes bytes (unspoken w) = unspoken w
add_bytes bytes (raised e w) = raised e w

abbrev pub then_speech : Speech → (Wire → Speech) → Speech
then_speech (spoken bytes w) next = add_bytes bytes (next w)
then_speech (unspoken w) next = unspoken w
then_speech (raised e w) next = raised e w

-- `len(token_segments) > 1`
abbrev pub split_parts : List ℕ → List (List ℕ) → List (List ℕ)
split_parts text [] = text ∷ []
split_parts text (part ∷ []) = text ∷ []
split_parts text (part ∷ next ∷ parts) = part ∷ next ∷ parts

-- `_token_segments`
abbrev pub token_segments :
    List ℕ → Option (List ℕ → Option (List (List ℕ))) → Option (List (List ℕ))
token_segments text none = some (text ∷ [])
token_segments [] (some split) = some ([] ∷ [])
token_segments (x ∷ text) (some split) = split (x ∷ text)

-- A code point that UTF-8 does not encode, as a JSON string may escape it.
abbrev pub is_surrogate : ℕ → Bool
is_surrogate ch = leb 55296 ch && leb ch 57343

abbrev pub is_encodable : List ℕ → Bool
is_encodable [] = true
is_encodable (ch ∷ text) = not (is_surrogate ch) && is_encodable text

-- `_cache_key` raises on the text: the names of voices are encodable.
abbrev pub raises_on : Config → List ℕ → Bool
raises_on c text = c.caches_results && not (is_encodable text)

module _ (chars : Characters) (engine : TtsEngine) (c : Config) (world : World) where
  -- After the audio: the pause or the end.
  abbrev pub finish_audio : Bool → List ℕ → List ℕ → ℕ → Wire → Body
  finish_audio true text separator bytes w =
      then_body true (write_event world audio_stop w) (λ w'. completed bytes w')
  finish_audio false text separator bytes w =
      then_body true
        (if engine.chunks_are_sentences
          then write_chunks world (chunks_of (boundary_silence_pcm chars engine c text separator)) w
          else done w)
        (λ w'. completed bytes w')

  abbrev pub await_producer : Bool → List ℕ → List ℕ → ℕ → EngineEnd → Wire → Body
  await_producer send_stop text separator bytes exhausted w =
      finish_audio send_stop text separator bytes w
  await_producer send_stop text separator bytes output_limit w = engine_raised output_limit true w
  await_producer send_stop text separator bytes crashed w = engine_raised crashed true w

  -- From `if send_start` on.
  unfoldable pub play : Bool → Bool → List ℕ → List ℕ → List (List ℕ) → ℕ → EngineEnd → Wire → Body
  play send_start send_stop text separator chunks bytes end w =
      then_body (not send_start)
        (if send_start then write_event world (audio_start engine.sample_rate) w else done w)
        (λ w'.
          then_body true (write_chunks world chunks w')
            (λ w''. await_producer send_stop text separator bytes end w''))

  abbrev pub play_cached : Bool → Bool → List ℕ → List ℕ → List ℕ → Wire → Body
  play_cached send_start send_stop text separator audio w =
      play send_start send_stop text separator (chunks_of audio) (length audio) exhausted w

  abbrev pub play_produced : Bool → Bool → List ℕ → List ℕ → Attempt → Wire → Body
  play_produced send_start send_stop text separator a w =
      let audios = produced engine c a.engine_audio in
      let bytes = byte_count audios in
      play send_start send_stop text separator (queued audios) bytes
        (producer_end a.engine_end bytes) w

  -- The body of the `try` from the second look at the cache on.
  abbrev pub play_after_wait :
      Bool → Bool → List ℕ → List ℕ → Attempt → Option (List ℕ) → Wire → Body
  play_after_wait send_start send_stop text separator a (some audio) w =
      play_cached send_start send_stop text separator audio w
  play_after_wait send_start send_stop text separator a none w =
      play_produced send_start send_stop text separator a w

  abbrev pub with_lock : Bool → Bool → List ℕ → List ℕ → Attempt → Wire → Body
  with_lock send_start send_stop text separator a w =
      if not a.acquired
      then then_body (not send_start)
          (write_audio_failure world engine.sample_rate "TTS inference queue is busy" "server-busy"
            (not send_start) w)
          (λ w'. skipped w')
      else if a.closing_after
      then skipped w
      else play_after_wait send_start send_stop text separator a a.cached_after_wait w

  abbrev pub with_cache : Bool → Bool → List ℕ → List ℕ → Attempt → Option (List ℕ) → Wire → Body
  with_cache send_start send_stop text separator a (some audio) w =
      play_cached send_start send_stop text separator audio w
  with_cache send_start send_stop text separator a none w =
      with_lock send_start send_stop text separator a w

  unfoldable pub attempt_body : Bool → Bool → List ℕ → List ℕ → Attempt → Wire → Body
  attempt_body send_start send_stop text separator a w =
      if a.closing then skipped w else with_cache send_start send_stop text separator a a.cached w

  abbrev pub report : String → String → Bool → Wire → Speech
  report text code audio_started w =
      suppressed (write_audio_failure world engine.sample_rate text code audio_started w)

  -- The `except` clauses.
  unfoldable pub settle : Body → Speech
  settle (completed bytes w) = spoken bytes w
  settle (skipped w) = unspoken w
  settle (write_raised write_timeout audio_started w) = unspoken w
  settle (write_raised connection_lost audio_started w) =
      report "Speech synthesis failed" "inference-failed" audio_started w
  settle (engine_raised output_limit audio_started w) =
      report "Speech synthesis exceeded the engine duration limit" "audio-too-long" audio_started w
  settle (engine_raised exhausted audio_started w) =
      report "Speech synthesis failed" "inference-failed" audio_started w
  settle (engine_raised crashed audio_started w) =
      report "Speech synthesis failed" "inference-failed" audio_started w

  -- `_synthesize` of a text that is not split: its key stands before the `try`.
  unfoldable pub synthesize_segment : Bool → Bool → List ℕ → List ℕ → Wire → Speech
  synthesize_segment send_start send_stop separator text w =
      if raises_on c text
      then raised (unicode_encode_error text) w
      else settle (
          attempt_body send_start send_stop text separator (world.attempt w.tried)
            (record w { tried = w.tried + 1 }))

  -- The loop over the parts: the first one starts the audio, the last one stops it.
  unfoldable pub synthesize_parts : Bool → Bool → List ℕ → List (List ℕ) → Wire → Speech
  synthesize_parts send_start send_stop separator [] w = spoken 0 w
  synthesize_parts send_start send_stop separator (text ∷ []) w =
      synthesize_segment send_start send_stop separator text w
  synthesize_parts send_start send_stop separator (text ∷ next ∷ texts) w =
      then_speech (synthesize_segment send_start false [] text w)
        (λ w'. synthesize_parts false send_stop separator (next ∷ texts) w')

  abbrev pub synthesize_split :
      Bool → Bool → List ℕ → List ℕ → Option (List (List ℕ)) → Wire → Speech
  synthesize_split send_start send_stop separator text none w =
      report "Speech synthesis failed" "inference-failed" (not send_start) w
  synthesize_split send_start send_stop separator text (some parts) w =
      synthesize_parts send_start send_stop separator (split_parts text parts) w

  -- `_synthesize`
  unfoldable pub synthesize : Bool → Bool → List ℕ → List ℕ → Wire → Speech
  synthesize send_start send_stop separator text w =
      synthesize_split send_start send_stop separator text
        (token_segments text engine.split_text_by_tokens) w
