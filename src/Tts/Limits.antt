-- ===== src/Tts/Limits.antt =====
-- The limits on the text of a stream, whatever is written, spoken or raised.
pub mod Requests
pub mod Events
use wyoming_vietnamese.Common.{
  ltb, if◌then◌else◌, length, ℕ, ◌+◌, ◌≤◌, ◌≡◌, refl, Bool, true, false, not, Option, none, some,
  List, [], ◌∷◌, arith,
}
use wyoming_vietnamese.Tts.{
  TtsEngine, Config, Session, StreamRequest, Request, Event, describe, synthesize_start,
  synthesize_chunk, synthesize_stop, synthesize, other_event, World, Wire, Ending, Written, done,
  failed, keep_open, close, raised, Answer,
}
use wyoming_vietnamese.Tts.Synthesis as Synthesis
use wyoming_vietnamese.Tts.Synthesis.{Speech, spoken, unspoken}
use wyoming_vietnamese.Tts.Requests.{
  is_supported_text_format, resolve_voice_name, normalize_for_limit, answer, fail, finish_request,
  speak_normalized, speak_request, handle_synthesize,
}
use wyoming_vietnamese.Tts.State.{
  Clause, clause_chars, reset_stream, reset_after, stream_deadline_exceeded,
}
use wyoming_vietnamese.Tts.Stream.{
  fail_stream, after_clause, is_last, speak_clauses, speak_within_limit, speak_ready, buffer_text,
  take_text, start_with_voice, handle_stream_start, handle_stream_chunk, speak_rest,
  handle_stream_stop,
}
use wyoming_vietnamese.Tts.Handler.{handle_event}
use wyoming_vietnamese.Clauses.{Characters}
use wyoming_vietnamese.Clauses.Spaces.{strip}
use wyoming_vietnamese.Clauses.Matches.{is_empty}
use wyoming_vietnamese.Clauses.Detector as Detector
use wyoming_vietnamese.Clauses.Detector.{add_chunk_with_separators}
use wyoming_vietnamese.Stt.{max_empty_events}
use Prim.Native.String.{String}

-- The stream has come to so many characters and so many blank chunks in a row, within the limits.
abbrev pub IsWithin : Config → ℕ → ℕ → Session → Type 0
IsWithin c n b s =
    (s.stream_text_chars ≡ n)
    × (s.stream_empty_events ≡ b)
    × (n ≤ c.max_text_chars)
    × (b ≤ max_empty_events)

abbrev pub Limits : Config → ℕ → ℕ → Ending → Session → Type 0
Limits c n b keep_open s = IsWithin c n b s
Limits c n b close s = Unit {0}
Limits c n b (raised e) s = Unit {0}

-- If the connection stays open, the stream has come to these counts, within the limits.
abbrev pub IsLimited : Config → ℕ → ℕ → Answer → Type 0
IsLimited c n b a = Limits c n b a.ending a.session

-- The characters of the chunks since the last start or stop.
abbrev pub text_after : Event → ℕ → ℕ
text_after describe n = n
text_after (synthesize_start request) n = 0
text_after (synthesize_chunk none) n = n
text_after (synthesize_chunk (some text)) n = n + length text
text_after synthesize_stop n = 0
text_after (synthesize request) n = n
text_after other_event n = n

-- The blank chunks since the last start, stop or chunk that is not blank.
abbrev pub blanks_after : Characters → Event → ℕ → ℕ
blanks_after chars describe n = n
blanks_after chars (synthesize_start request) n = 0
blanks_after chars (synthesize_chunk none) n = n
blanks_after chars (synthesize_chunk (some text)) n =
    if is_empty (strip chars.is_space text) then n + 1 else 0
blanks_after chars synthesize_stop n = 0
blanks_after chars (synthesize request) n = n
blanks_after chars other_event n = n

abbrev pub text_chars : List (ℕ × Event) → ℕ → ℕ
text_chars [] n = n
text_chars ((now, event) ∷ events) n = text_chars events (text_after event n)

abbrev pub blank_chunks : Characters → List (ℕ × Event) → ℕ → ℕ
blank_chunks chars [] n = n
blank_chunks chars ((now, event) ∷ events) n =
    blank_chunks chars events (blanks_after chars event n)

pub if_known-IsLimited :
    (c : Config) (n b : ℕ) (test : Bool) (a a' : Answer)
    → (test ≡ true → IsLimited c n b a)
    → (test ≡ false → IsLimited c n b a')
    → IsLimited c n b (if test then a else a')
if_known-IsLimited c n b true a a' h h' = h refl
if_known-IsLimited c n b false a a' h h' = h' refl

pub answer-IsLimited :
    (c : Config) (n b : ℕ) (s : Session) (r : Written) → IsLimited c n b (answer s close r)
answer-IsLimited c n b s (done w) = tt
answer-IsLimited c n b s (failed e w) = tt

reset_and_close-IsLimited :
    (c : Config) (n b : ℕ) (engine : TtsEngine) (s : Session) (r : Written)
    → IsLimited c n b (reset_after engine s close r)
reset_and_close-IsLimited c n b engine s (done w) = tt
reset_and_close-IsLimited c n b engine s (failed e w) = tt

pub reset_after-IsLimited :
    (c : Config) (engine : TtsEngine) (s : Session) (r : Written)
    → IsLimited c 0 0 (reset_after engine s keep_open r)
unfolding reset_stream
reset_after-IsLimited c engine s (done w) = (refl, refl, omega arith, omega arith)
reset_after-IsLimited c engine s (failed e w) = tt

module _ (lower : String → String) (chars : Characters) (engine : TtsEngine) (c : Config)
    (world : World) (now n b : ℕ) where
  pub fail_stream-IsLimited :
      (text code : String) (s : Session) (w : Wire)
      → IsLimited c n b (fail_stream lower chars engine c world now text code s w)
  unfolding fail_stream
  fail_stream-IsLimited text code s w = reset_and_close-IsLimited c n b engine _ _

  after_clause-IsLimited :
      (s : Session) (speech : Speech) (next : Session → Wire → Answer)
      → ((bytes : ℕ) (w : Wire)
          → IsLimited c n b (
              next
                (record s {
                  stream_audio_started = true;
                  stream_audio_bytes = s.stream_audio_bytes + bytes;
                })
                w))
      → IsLimited c n b (after_clause lower chars engine c world now s speech next)
  after_clause-IsLimited s (spoken bytes w) next k = k bytes w
  after_clause-IsLimited s (unspoken w) next k = reset_and_close-IsLimited c n b engine s _
  after_clause-IsLimited s (Synthesis.raised e w) next k = tt

  speak_clauses-IsLimited :
      (m k : ℕ) (stops : Bool) (cls : List Clause) (next : Session → Wire → Answer) (s : Session)
      (w : Wire)
      → IsWithin c m k s
      → ((s' : Session) (w' : Wire) → IsWithin c m k s' → IsLimited c n b (next s' w'))
      → IsLimited c n b (speak_clauses lower chars engine c world now stops cls next s w)
  unfolding speak_clauses
  speak_clauses-IsLimited m k stops [] next s w h r = r s w h
  speak_clauses-IsLimited m k stops (cl ∷ cls) next s w h r =
      after_clause-IsLimited (record s { stream_segment_count = s.stream_segment_count + 1 })
        (Synthesis.synthesize chars engine c world (not s.stream_audio_started)
          (is_last lower chars engine c world now stops cls) cl.separator cl.text w)
        (λ s' w'. speak_clauses lower chars engine c world now stops cls next s' w')
        (λ bytes w'.
          speak_clauses-IsLimited m k stops cls next
            (record s {
              stream_audio_started = true;
              stream_segment_count = s.stream_segment_count + 1;
              stream_audio_bytes = s.stream_audio_bytes + bytes;
            })
            w' h r)

  pub speak_within_limit-IsLimited :
      (m k : ℕ) (stops : Bool) (parts : Option (List Clause)) (next : Session → Wire → Answer)
      (s : Session) (w : Wire)
      → IsWithin c m k s
      → ((s' : Session) (w' : Wire) → IsWithin c m k s' → IsLimited c n b (next s' w'))
      → IsLimited c n b (speak_within_limit lower chars engine c world now stops parts next s w)
  speak_within_limit-IsLimited m k stops none next s w h r = fail_stream-IsLimited _ _ s w
  speak_within_limit-IsLimited m k stops (some cls) next s w h r =
      if_known-IsLimited c _ _ (ltb c.max_text_chars (s.stream_normalized_chars + clause_chars cls))
        _ _ (λ long. fail_stream-IsLimited _ _ s w)
        (λ short. speak_clauses-IsLimited m k stops cls next _ w h r)

  pub speak_ready-IsLimited :
      (pairs : List (List ℕ × List ℕ)) (s : Session) (w : Wire)
      → IsWithin c n b s
      → IsLimited c n b (speak_ready lower chars engine c world now pairs s w)
  speak_ready-IsLimited [] s w h = h
  speak_ready-IsLimited (pair ∷ pairs) s w h =
      speak_within_limit-IsLimited n b false _ _ s w h (λ s' w' h'. h')
