-- ===== src/Tts/Playback.antt =====
-- The audio that a segment writes: the same from the cache as from the engine.
use wyoming_vietnamese.Common.{
  if◌then◌else◌, length, concat, ℕ, zero, suc, ◌≡◌, refl, sym, ap, subst, ◌∙◌, ◌≢◌, ◌⊎◌, inl, inr,
  Bool, true, false, none, some, List, [], ◌∷◌, ◌++◌, arith,
}
use wyoming_vietnamese.Tts.{
  TtsEngine, Config, Reply, audio_start, audio_chunk, audio_stop, EngineEnd, exhausted,
  output_limit, crashed, Attempt, wrote, World, Wire, done,
}
use wyoming_vietnamese.Tts.Output.{chunks_of, boundary_silence_pcm, write_event, write_chunks}
use wyoming_vietnamese.Tts.Synthesis.{
  produced, queued, byte_count, producer_end, finish_audio, play, attempt_body,
}
use wyoming_vietnamese.Tts.Sound.{
  audio_of, sound, sound-append, concat-chunks_of, concat-queued, length-concat, Gives, Speaks,
  then_body-Speaks, and_then-Gives, pause_after,
}
use wyoming_vietnamese.Tts.Pauses.{joined, pause_between, concat-produced}
use wyoming_vietnamese.Clauses.{Characters}
use mathlib.Core.List.{append_assoc, append-nil}

module _ (chars : Characters) (engine : TtsEngine) (c : Config) (world : World)
    (writes : (n : ℕ) → world.write n ≡ wrote) where
  write_event-Gives :
      (audio : List ℕ) (r : Reply) (w : Wire)
      → sound w.sent ≡ audio
      → Gives (audio ++ audio_of r) (write_event world r w)
  unfolding write_event
  write_event-Gives audio r w h = rw (writes w.written) (
      sound-append w.sent (r ∷ [])
      ∙ ap (λ (u : List ℕ). u ++ (audio_of r ++ [])) h
      ∙ ap (λ (u : List ℕ). audio ++ u) (append-nil (audio_of r)))

  -- An event without audio.
  write_silent-Gives :
      (audio : List ℕ) (r : Reply) (w : Wire)
      → audio_of r ≡ []
      → sound w.sent ≡ audio
      → Gives audio (write_event world r w)
  write_silent-Gives audio r w none_of_it h =
      subst (λ (u : List ℕ). Gives u (write_event world r w))
        (ap (λ (u : List ℕ). audio ++ u) none_of_it ∙ append-nil audio)
        (write_event-Gives audio r w h)

  write_chunks-Gives :
      (chunks : List (List ℕ)) (audio : List ℕ) (w : Wire)
      → sound w.sent ≡ audio
      → Gives (audio ++ concat chunks) (write_chunks world chunks w)
  write_chunks-Gives [] audio w h = h ∙ sym (append-nil audio)
  write_chunks-Gives (chunk ∷ chunks) audio w h =
      subst (λ (u : List ℕ). Gives u (write_chunks world (chunk ∷ chunks) w))
        (append_assoc audio chunk (concat chunks))
        (and_then-Gives (audio ++ chunk) ((audio ++ chunk) ++ concat chunks) _ _
          (write_event-Gives audio (audio_chunk chunk) w h)
          (λ w' h'. write_chunks-Gives chunks (audio ++ chunk) w' h'))

  finish_audio-Speaks :
      (send_stop : Bool) (text separator audio : List ℕ) (bytes : ℕ) (w : Wire)
      → sound w.sent ≡ audio
      → Speaks bytes
          (audio ++ pause_after chars engine c send_stop text separator)
          (finish_audio chars engine c world send_stop text separator bytes w)
  finish_audio-Speaks true text separator audio bytes w h =
      then_body-Speaks audio bytes (audio ++ []) true _ _
        (write_silent-Gives audio audio_stop w refl h)
        (λ w' h'. (refl, h' ∙ sym (append-nil audio)))
  finish_audio-Speaks false text separator audio bytes w h =
      then_body-Speaks _ bytes _ true _ _ (paused engine.chunks_are_sentences) (λ w' h'. (refl, h'))
    where
      paused :
          (sentences : Bool)
          → Gives
              (audio
                ++ (if sentences then boundary_silence_pcm chars engine c text separator else []))
              (if sentences
                then write_chunks world
                    (chunks_of (boundary_silence_pcm chars engine c text separator))
                    w
                else done w)
      paused true =
          subst
            (λ (u : List ℕ). Gives (audio ++ u) (
              write_chunks world (chunks_of (boundary_silence_pcm chars engine c text separator))
                w))
            (concat-chunks_of (boundary_silence_pcm chars engine c text separator))
            (write_chunks-Gives (chunks_of (boundary_silence_pcm chars engine c text separator))
              audio w h)
      paused false = h ∙ sym (append-nil audio)

  -- A segment whose chunks are those of some audio, with nothing of the audio left out.
  play-Speaks :
      (send_start send_stop : Bool) (text separator audio : List ℕ) (chunks : List (List ℕ))
      (bytes : ℕ) (w : Wire)
      → concat chunks ≡ audio
      → Speaks bytes
          (sound w.sent ++ (audio ++ pause_after chars engine c send_stop text separator))
          (play chars engine c world send_start send_stop text separator chunks bytes exhausted w)
  unfolding play
  play-Speaks send_start send_stop text separator audio chunks bytes w whole =
      subst
        (λ (u : List ℕ).
          Speaks bytes u (
            play chars engine c world send_start send_stop text separator chunks bytes exhausted w))
        (ap
            (λ (u : List ℕ).
              (sound w.sent ++ u) ++ pause_after chars engine c send_stop text separator)
            whole
          ∙ append_assoc (sound w.sent) audio (pause_after chars engine c send_stop text separator))
        (then_body-Speaks (sound w.sent) bytes _ _ _ _ (started send_start) (λ w' h'.
          then_body-Speaks (sound w.sent ++ concat chunks) bytes _ true _ _
            (write_chunks-Gives chunks (sound w.sent) w' h')
            (λ w'' h''.
              finish_audio-Speaks send_stop text separator (sound w.sent ++ concat chunks) bytes w''
                h'')))
    where
      started :
          (start : Bool)
          → Gives
              (sound w.sent)
              (if start then write_event world (audio_start engine.sample_rate) w else done w)
      started true = write_silent-Gives (sound w.sent) (audio_start engine.sample_rate) w refl refl
      started false = refl

  -- While every write ends well, a segment that finds its audio in the cache, at once or after the
  -- wait for the lock, gives the client that audio whole and in order, and then the pause, if another
  -- segment follows and the engine's chunks are sentences.
  pub attempt_body-cached :
      (send_start send_stop : Bool) (text separator audio : List ℕ) (a : Attempt) (w : Wire)
      → a.closing ≡ false
      → (a.cached ≡ some audio)
        ⊎ ((a.cached ≡ none)
            × (a.acquired ≡ true)
            × (a.closing_after ≡ false)
            × (a.cached_after_wait ≡ some audio))
      → Speaks
          (length audio)
          (sound w.sent ++ (audio ++ pause_after chars engine c send_stop text separator))
          (attempt_body chars engine c world send_start send_stop text separator a w)
  unfolding attempt_body
  attempt_body-cached send_start send_stop text separator audio a w open_client (inl at_once) =
      rw (open_client, at_once)
        (play-Speaks send_start send_stop text separator audio (chunks_of audio) (length audio) w
          (concat-chunks_of audio))
  attempt_body-cached send_start send_stop text separator audio a w open_client
        (inr (missed, acquired, still_open, later)) =
      rw (open_client, missed, acquired, still_open, later)
        (play-Speaks send_start send_stop text separator audio (chunks_of audio) (length audio) w
          (concat-chunks_of audio))

  exhausted_end :
      (end : EngineEnd) (audio : List ℕ) (bytes : ℕ)
      → end ≡ exhausted
      → length audio ≡ bytes
      → audio ≢ []
      → producer_end end bytes ≡ exhausted
  exhausted_end exhausted audio (suc bytes) e count some_audio = refl
  exhausted_end exhausted [] zero e count some_audio = absurd (some_audio refl)
  exhausted_end exhausted (b ∷ audio) zero e count some_audio = absurd (omega arith)
  exhausted_end output_limit audio bytes e count some_audio = cc
  exhausted_end crashed audio bytes e count some_audio = cc

  attempt_body-queued :
      (send_start send_stop : Bool) (text separator : List ℕ) (a : Attempt) (w : Wire)
      → (a.closing ≡ false)
        × (a.cached ≡ none)
        × (a.acquired ≡ true)
        × (a.closing_after ≡ false)
        × (a.cached_after_wait ≡ none)
      → a.engine_end ≡ exhausted
      → concat (produced engine c a.engine_audio) ≢ []
      → Speaks
          (length (concat (produced engine c a.engine_audio)))
          (sound w.sent
            ++ (concat (produced engine c a.engine_audio)
                ++ pause_after chars engine c send_stop text separator))
          (attempt_body chars engine c world send_start send_stop text separator a w)
  unfolding attempt_body
  attempt_body-queued send_start send_stop text separator a w
        (open_client, missed, acquired, still_open, missed_again) ended some_audio =
      let audios = produced engine c a.engine_audio in
      let count = length-concat audios in
      rw
        (
          open_client,
          missed,
          acquired,
          still_open,
          missed_again,
          count,
          exhausted_end a.engine_end (concat audios) (byte_count audios) ended count some_audio,
        )
        (play-Speaks send_start send_stop text separator (concat audios) (queued audios)
          (byte_count audios) w (concat-queued audios))

  -- While every write ends well, the client stays connected and the inference lock is acquired in
  -- time, a segment that is not in the cache, at once or after the wait, and whose engine is exhausted
  -- gives the client the pieces of the engine, whole and in order, with the pause of a sentence between
  -- each two where the pieces are sentences, and then the pause, if another segment follows. It counts
  -- the bytes of the pieces and of the pauses between them. There is a byte of them at least.
  pub attempt_body-produced :
      (send_start send_stop : Bool) (text separator : List ℕ) (a : Attempt) (w : Wire)
      → (a.closing ≡ false)
        × (a.cached ≡ none)
        × (a.acquired ≡ true)
        × (a.closing_after ≡ false)
        × (a.cached_after_wait ≡ none)
      → a.engine_end ≡ exhausted
      → joined (pause_between engine c) a.engine_audio ≢ []
      → Speaks
          (length (joined (pause_between engine c) a.engine_audio))
          (sound w.sent
            ++ (joined (pause_between engine c) a.engine_audio
                ++ pause_after chars engine c send_stop text separator))
          (attempt_body chars engine c world send_start send_stop text separator a w)
  attempt_body-produced send_start send_stop text separator a w met ended some_audio =
      let heard = concat-produced engine c a.engine_audio in
      subst
        (λ (audio : List ℕ).
          Speaks (length audio)
            (sound w.sent ++ (audio ++ pause_after chars engine c send_stop text separator))
            (attempt_body chars engine c world send_start send_stop text separator a w))
        heard
        (attempt_body-queued send_start send_stop text separator a w met ended
          (λ none_of_it. some_audio (sym heard ∙ none_of_it)))
