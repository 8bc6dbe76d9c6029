-- ===== src/Tts/Sound.antt =====
-- The audio among the events that are written.
use wyoming_vietnamese.Common.{
  if◌then◌else◌, length, take, drop, length-append, take-append-drop, length-drop, concat,
  concat-append, ℕ, zero, suc, ◌≤◌, ◌≡◌, refl, sym, ap, ◌∙◌, Bool, List, [], ◌∷◌, ◌++◌, arith,
}
use wyoming_vietnamese.Tts.{
  chunk_size, TtsEngine, Config, Reply, service_info, error, audio_start, audio_chunk, audio_stop,
  synthesize_stopped, and_then, Wire, Written, done, failed,
}
use wyoming_vietnamese.Tts.Output.{slices, chunks_of, boundary_silence_pcm}
use wyoming_vietnamese.Tts.Synthesis.{
  queued, byte_count, Body, completed, skipped, engine_raised, write_raised, then_body,
}
use wyoming_vietnamese.Clauses.{Characters}
use mathlib.Core.List.{append_assoc}

-- The audio among the events, one chunk after the other.
abbrev pub audio_of : Reply → List ℕ
audio_of (audio_chunk audio) = audio
audio_of service_info = []
audio_of (error text code) = []
audio_of (audio_start rate) = []
audio_of audio_stop = []
audio_of synthesize_stopped = []

abbrev pub sound : List Reply → List ℕ
sound [] = []
sound (r ∷ rs) = audio_of r ++ sound rs

pub sound-append : (xs ys : List Reply) → sound (xs ++ ys) ≡ sound xs ++ sound ys
sound-append [] ys = refl
sound-append (r ∷ rs) ys =
    rw (sound-append rs ys) (sym (append_assoc (audio_of r) (sound rs) (sound ys)))

concat-slices :
    (fuel : ℕ) (audio : List ℕ) → length audio ≤ fuel → concat (slices fuel audio) ≡ audio
unfolding slices
concat-slices zero [] h = refl
concat-slices zero (b ∷ audio) h = absurd (omega arith)
concat-slices (suc fuel) [] h = refl
concat-slices (suc fuel) (b ∷ audio) h =
    let shorter = length-drop chunk_size (b ∷ audio) in
    ap (λ (u : List ℕ). take chunk_size (b ∷ audio) ++ u)
      (concat-slices fuel (drop chunk_size (b ∷ audio)) (omega arith))
    ∙ take-append-drop chunk_size (b ∷ audio)

pub concat-chunks_of : (audio : List ℕ) → concat (chunks_of audio) ≡ audio
concat-chunks_of audio = concat-slices (length audio) audio (omega arith)

pub concat-queued : (audios : List (List ℕ)) → concat (queued audios) ≡ concat audios
concat-queued [] = refl
concat-queued (audio ∷ audios) =
    concat-append (chunks_of audio) (queued audios)
    ∙ rw (concat-chunks_of audio, concat-queued audios) refl

pub length-concat : (audios : List (List ℕ)) → length (concat audios) ≡ byte_count audios
length-concat [] = refl
length-concat (audio ∷ audios) =
    length-append audio (concat audios) ∙ rw (length-concat audios) refl

-- The code goes on, and the client has been given so much audio.
abbrev pub Gives : List ℕ → Written → Type 0
Gives audio (done w) = sound w.sent ≡ audio
Gives audio (failed e w) = ⊥

-- So many bytes are spoken, and the client has been given so much audio.
abbrev pub Speaks : ℕ → List ℕ → Body → Type 0
Speaks bytes audio (completed bytes' w) = (bytes' ≡ bytes) × (sound w.sent ≡ audio)
Speaks bytes audio (skipped w) = ⊥
Speaks bytes audio (engine_raised end audio_started w) = ⊥
Speaks bytes audio (write_raised e audio_started w) = ⊥

pub then_body-Speaks :
    (audio : List ℕ) (bytes : ℕ) (audio' : List ℕ) (started : Bool) (before : Written)
    (next : Wire → Body)
    → Gives audio before
    → ((w : Wire) → sound w.sent ≡ audio → Speaks bytes audio' (next w))
    → Speaks bytes audio' (then_body started before next)
then_body-Speaks audio bytes audio' started (done w) next h k = k w h
then_body-Speaks audio bytes audio' started (failed e w) next h k = absurd h

pub and_then-Gives :
    (audio audio' : List ℕ) (before : Written) (next : Wire → Written)
    → Gives audio before
    → ((w : Wire) → sound w.sent ≡ audio → Gives audio' (next w))
    → Gives audio' (and_then before next)
and_then-Gives audio audio' (done w) next h k = k w h
and_then-Gives audio audio' (failed e w) next h k = absurd h

-- The pause after the audio of a segment that does not stop.
abbrev pub pause_after : Characters → TtsEngine → Config → Bool → List ℕ → List ℕ → List ℕ
pause_after chars engine c send_stop text separator =
    if send_stop
    then []
    else if engine.chunks_are_sentences
    then boundary_silence_pcm chars engine c text separator
    else []
