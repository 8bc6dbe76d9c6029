-- ===== src/Tts/Conforming.antt =====
-- The order of the events that the synthesis handler writes, while every write ends well and the
-- client does not close the connection.
pub mod Segments
pub mod Streams
pub mod Events
use wyoming_vietnamese.Common.{
  ℕ, ◌≡◌, refl, ap, ◌∙◌, Bool, true, false, Option, none, some, List, [], ◌∷◌, ◌++◌,
}
use wyoming_vietnamese.Tts.{
  Reply, service_info, error, audio_start, audio_chunk, audio_stop, synthesize_stopped, WriteResult,
  wrote, World, Wire, Written, done, failed, and_then,
}
use wyoming_vietnamese.Tts.Output.{outcome, write_event, write_chunks, write_audio_failure}
use Prim.Native.String.{String}

-- Whether audio is started and not yet stopped.
pub data Mode : Type 0 where
  closed opened : Mode

-- Audio starts when it is closed, chunks and stops come when it is open, and a streaming lifecycle
-- ends when it is closed; `none` is a violation.
abbrev pub advance : Mode → Reply → Option Mode
advance m service_info = some m
advance m (error text code) = some m
advance closed (audio_start rate) = some opened
advance opened (audio_start rate) = none
advance closed (audio_chunk audio) = none
advance opened (audio_chunk audio) = some opened
advance closed audio_stop = none
advance opened audio_stop = some closed
advance closed synthesize_stopped = some closed
advance opened synthesize_stopped = none

abbrev pub advance_maybe : Option Mode → Reply → Option Mode
advance_maybe none r = none
advance_maybe (some m) r = advance m r

abbrev pub scan : Option Mode → List Reply → Option Mode
scan m [] = m
scan m (r ∷ rs) = scan (advance_maybe m r) rs

scan-append : (m : Option Mode) (xs ys : List Reply) → scan m (xs ++ ys) ≡ scan (scan m xs) ys
scan-append m [] ys = refl
scan-append m (x ∷ xs) ys = scan-append (advance_maybe m x) xs ys

abbrev pub mode_of : Bool → Mode
mode_of true = opened
mode_of false = closed

-- What is written conforms so far, and leaves the audio in the given mode.
abbrev pub At : Mode → Wire → Type 0
At m w = scan (some closed) w.sent ≡ some m

-- The code goes on, in the given mode.
abbrev pub Reaches : Mode → Written → Type 0
Reaches m (done w) = At m w
Reaches m (failed e w) = ⊥

pub and_then-Reaches :
    (m m' : Mode) (before : Written) (next : Wire → Written)
    → Reaches m before
    → ((w : Wire) → At m w → Reaches m' (next w))
    → Reaches m' (and_then before next)
and_then-Reaches m m' (done w) next h k = k w h
and_then-Reaches m m' (failed e w) next h k = h

module _ (world : World) (writes : (n : ℕ) → world.write n ≡ wrote) where
  pub write_event-Reaches :
      (m m' : Mode) (r : Reply) (w : Wire)
      → advance m r ≡ some m'
      → At m w
      → Reaches m' (write_event world r w)
  unfolding write_event
  write_event-Reaches m m' r w h at = rw (writes w.written) (
      scan-append (some closed) w.sent (r ∷ [])
      ∙ ap (λ (o : Option Mode). advance_maybe o r) at
      ∙ h)

  pub write_chunks-Reaches :
      (chunks : List (List ℕ)) (w : Wire)
      → At opened w
      → Reaches opened (write_chunks world chunks w)
  write_chunks-Reaches [] w h = h
  write_chunks-Reaches (chunk ∷ chunks) w h =
      and_then-Reaches opened opened _ _
        (write_event-Reaches opened opened (audio_chunk chunk) w refl h)
        (λ w' h'. write_chunks-Reaches chunks w' h')

  pub write_audio_failure-Reaches :
      (sample_rate : ℕ) (text code : String) (audio_started : Bool) (w : Wire)
      → At (mode_of audio_started) w
      → Reaches closed (write_audio_failure world sample_rate text code audio_started w)
  unfolding write_audio_failure
  write_audio_failure-Reaches sample_rate text code true w h =
      and_then-Reaches opened closed _ _
        (write_event-Reaches opened opened (error text code) w refl h)
        (λ w' h'. write_event-Reaches opened closed audio_stop w' refl h')
  write_audio_failure-Reaches sample_rate text code false w h =
      and_then-Reaches closed closed _ _
        (write_event-Reaches closed closed (error text code) w refl h)
        (λ w' h'.
          and_then-Reaches opened closed _ _
            (write_event-Reaches closed opened (audio_start sample_rate) w' refl h')
            (λ w'' h''. write_event-Reaches opened closed audio_stop w'' refl h''))
