-- ===== src/Stt/Chunks.antt =====
-- `_convert_chunk`, `_convert_chunk_slices` and `_handle_audio_chunk` of wyoming_vietnamese/stt.py.
-- `tomono` is `wyoming_audioop.tomono` and `convert` is `AudioChunkConverter.convert`, from the
-- converter's state, the format and the bytes; `none` stands for a `TypeError` or `ValueError`.
use wyoming_vietnamese.Common.{
  ltb, leb, ◌==◌, if◌then◌else◌, length, take, drop, Result, ◌>>=◌, ok, ℕ, zero, suc, ◌+◌, ◌*◌, ◌/◌,
  ◌%◌, max, Bool, true, false, not, ◌&&◌, Option, none, some, List, [], ◌∷◌,
}
use wyoming_vietnamese.Stt.{
  target_sample_rate, sample_width, sample_channels, max_empty_events, max_audio_bytes, Format,
  Config, Session, Chunk, Answer, keep,
}
use wyoming_vietnamese.Stt.Buffer.{appended, refused, append_audio, audio_deadline_exceeded}
use wyoming_vietnamese.Stt.Requests.{fail}

abbrev pub same_format : Option Format → Format → Bool
same_format none f = false
same_format (some g) f = g.rate == f.rate && g.width == f.width && g.channels == f.channels

abbrev pub is_target : Format → Bool
is_target f =
    f.rate == target_sample_rate && f.width == sample_width && f.channels == sample_channels

abbrev pub is_empty : List ℕ → Bool
is_empty [] = true
is_empty (b ∷ bytes) = false

module _ {K : Type 0} (tomono : ℕ → List ℕ → Option (List ℕ))
    (convert : K → Format → List ℕ → Option (K × List ℕ)) where
  abbrev pub convert_mono : K → Format → Option (List ℕ) → Option (K × List ℕ)
  convert_mono k f none = none
  convert_mono k f (some mono) = convert k (record f { channels = 1 }) mono

  -- `_convert_chunk`
  abbrev pub convert_chunk : K → Format → List ℕ → Option (K × List ℕ)
  convert_chunk k f audio =
      if f.channels == 2 then convert_mono k f (tomono f.width audio) else convert k f audio

  abbrev pub add_part : List ℕ → Option (K × List (List ℕ)) → Option (K × List (List ℕ))
  add_part part none = none
  add_part part (some (k, parts)) = some (k, part ∷ parts)

  -- `_convert_chunk_slices`: a slice for each multiple of `bytes_per_slice` below the length, which
  -- are no more than the bytes, so that the length is enough fuel.
  unfoldable pub convert_chunk_slices : ℕ → K → Format → List ℕ → ℕ → Option (K × List (List ℕ))
  convert_chunk_slices fuel k f [] bytes_per_slice = some (k, [])
  convert_chunk_slices zero k f (b ∷ audio) bytes_per_slice = none
  convert_chunk_slices (suc fuel) k f (b ∷ audio) bytes_per_slice =
      elim (convert_chunk k f (take bytes_per_slice (b ∷ audio))) [
        | none ↦ none
        | some t ↦
            add_part t.1
              (convert_chunk_slices fuel t.0 f (drop bytes_per_slice (b ∷ audio)) bytes_per_slice)
      ]

  abbrev pub one_part : Option (K × List ℕ) → Option (K × List (List ℕ))
  one_part none = none
  one_part (some (k, part)) = some (k, part ∷ [])

  -- The parts that are appended, and the converter afterwards.
  unfoldable pub converted_parts : K → Format → List ℕ → Option (K × List (List ℕ))
  converted_parts k f audio =
      if is_target f
      then some (k, audio ∷ [])
      else if leb (length audio / (f.width * f.channels) * 10) f.rate
      then one_part (convert_chunk k f audio)
      else convert_chunk_slices (length audio) k f audio
          (max 1 (f.rate / 4) * (f.width * f.channels))

  unfoldable pub append_all : ℕ → Session K → List (List ℕ) → Result (Answer K)
  append_all max_bytes s [] = ok (keep s)
  append_all max_bytes s (part ∷ parts) = append_audio max_bytes s part >>= λ r. elim r [
    | appended s' ↦ append_all max_bytes s' parts
    | refused detail code ↦ fail s detail code
  ]

  abbrev pub append_converted : Config → Session K → Option (K × List (List ℕ)) → Result (Answer K)
  append_converted c s none = fail s "Audio conversion failed" "invalid-audio"
  append_converted c s (some (k, parts)) =
      append_all (max_audio_bytes c) (record s { converter = some k }) parts

  abbrev pub empty_chunk : Session K → Result (Answer K)
  empty_chunk s =
      if ltb max_empty_events s.empty_chunk_count
      then fail s "Audio stream made no progress" "too-many-empty-events"
      else ok (keep s)

  abbrev pub data_chunk : Config → Session K → Format → K → List ℕ → Result (Answer K)
  data_chunk c s f k audio =
      let frame_width = f.width * f.channels in
      let frames = s.input_audio_frames + length audio / frame_width in
      if not (length audio % frame_width == 0)
      then fail s "Audio chunk contains a partial PCM frame" "invalid-audio"
      else if ltb (c.max_audio_ms * f.rate / 1000) frames
      then fail s "Audio exceeds the configured duration limit" "audio-too-long"
      else append_converted c
          (record s {
            input_audio_frames = frames;
            input_audio_bytes = s.input_audio_bytes + length audio;
          })
          (converted_parts k f audio)

  abbrev pub counted_chunk : Config → Session K → Format → K → List ℕ → Result (Answer K)
  counted_chunk c s f k audio =
      if is_empty audio
      then empty_chunk (record s { empty_chunk_count = s.empty_chunk_count + 1 })
      else data_chunk c (record s { empty_chunk_count = 0 }) f k audio

  abbrev pub parsed_chunk : Config → ℕ → Session K → Format → K → Option Chunk → Result (Answer K)
  parsed_chunk c now s f k none = fail s "Malformed audio chunk" "invalid-audio"
  parsed_chunk c now s f k (some chunk) =
      if not (same_format chunk.format f)
      then fail s "Audio format changed during the stream" "invalid-audio"
      else if audio_deadline_exceeded s now
      then fail s "Audio stream exceeded the configured request deadline" "request-timeout"
      else counted_chunk c (record s { audio_chunk_count = s.audio_chunk_count + 1 }) f k
          chunk.audio

  abbrev pub stream_of : Bool → Option Format → Option K → Option (Format × K)
  stream_of false f k = none
  stream_of true none k = none
  stream_of true (some f) none = none
  stream_of true (some f) (some k) = some (f, k)

  abbrev pub chunk_of_stream :
      Config → ℕ → Session K → Option Chunk → Option (Format × K) → Result (Answer K)
  chunk_of_stream c now s chunk none =
      fail s "Audio chunk received before audio start" "invalid-event-order"
  chunk_of_stream c now s chunk (some (f, k)) = parsed_chunk c now s f k chunk

  -- `_handle_audio_chunk`
  unfoldable pub handle_audio_chunk : Config → ℕ → Session K → Option Chunk → Result (Answer K)
  handle_audio_chunk c now s chunk =
      chunk_of_stream c now s chunk (stream_of s.audio_started s.source_format s.converter)
