-- ===== src/Tts/Output.antt =====
-- `write_event`, `_write_audio_failure`, `_boundary_silence_pcm`, `_write_silence` and the loops that
-- write audio in chunks.
use wyoming_vietnamese.Common.{
  ltb, if◌then◌else◌, length, take, drop, ℕ, zero, suc, ◌+◌, ◌*◌, ◌/◌, ◌%◌, Bool, List, [], ◌∷◌,
  ◌++◌,
}
use wyoming_vietnamese.Tts.{
  chunk_size, audio_width, audio_channels, TtsEngine, Config, Reply, error, audio_start,
  audio_chunk, audio_stop, WriteResult, wrote, timed_out, lost, World, Wire, write_timeout,
  connection_lost, Written, done, failed, and_then,
}
use wyoming_vietnamese.Clauses.{Characters}
use wyoming_vietnamese.Clauses.Matches.{
  Boundary, paragraph, sentence, clause, no_boundary, boundary_kind,
}
use Prim.Native.String.{String}

-- `audio[offset : offset + CHUNK_SIZE]` for each offset. A slice takes a byte at least, so that the
-- length is enough fuel.
unfoldable pub slices : ℕ → List ℕ → List (List ℕ)
slices zero audio = []
slices (suc fuel) [] = []
slices (suc fuel) (b ∷ audio) =
    take chunk_size (b ∷ audio) ∷ slices fuel (drop chunk_size (b ∷ audio))

abbrev pub chunks_of : List ℕ → List (List ℕ)
chunks_of audio = slices (length audio) audio

-- Python's `round` of `n / d`, to the even number from the middle.
abbrev pub round_quotient : ℕ → ℕ → ℕ
round_quotient n d =
    if ltb (n % d * 2) d then n / d else if ltb d (n % d * 2) then n / d + 1 else n / d + n / d % 2

abbrev pub zeros : ℕ → List ℕ
zeros zero = []
zeros (suc n) = 0 ∷ zeros n

-- `_silence_pcm`
abbrev pub silence_pcm : ℕ → ℕ → List ℕ
silence_pcm milliseconds sample_rate =
    zeros (round_quotient (sample_rate * milliseconds) 1000 * audio_width * audio_channels)

-- `_boundary_silence_pcm`
abbrev pub pause_of : Config → Boundary → ℕ
pause_of c paragraph = c.paragraph_silence_ms
pause_of c sentence = c.sentence_silence_ms
pause_of c clause = c.clause_silence_ms
pause_of c no_boundary = c.sentence_silence_ms

unfoldable pub boundary_silence_pcm : Characters → TtsEngine → Config → List ℕ → List ℕ → List ℕ
boundary_silence_pcm chars engine c text separator =
    silence_pcm (pause_of c (boundary_kind chars text separator)) engine.sample_rate

module _ (world : World) where
  abbrev pub outcome : WriteResult → Wire → Written
  outcome wrote w = done w
  outcome timed_out w = failed write_timeout w
  outcome lost w = failed connection_lost w

  -- `write_event`
  unfoldable pub write_event : Reply → Wire → Written
  write_event reply w =
      outcome (world.write w.written)
        (record w { sent = w.sent ++ (reply ∷ []); written = w.written + 1 })

  abbrev pub write_chunks : List (List ℕ) → Wire → Written
  write_chunks [] w = done w
  write_chunks (chunk ∷ chunks) w =
      and_then (write_event (audio_chunk chunk) w) (λ w'. write_chunks chunks w')

  -- `_write_audio_failure`
  unfoldable pub write_audio_failure : ℕ → String → String → Bool → Wire → Written
  write_audio_failure sample_rate text code audio_started w =
      and_then (write_event (error text code) w) (λ w'.
        and_then (if audio_started then done w' else write_event (audio_start sample_rate) w')
          (λ w''. write_event audio_stop w''))
