-- ===== src/Tts/Pauses.antt =====
-- The audio that `_produce_audio` queues, as the pieces of the engine and the pauses between them.
use wyoming_vietnamese.Common.{
  ltb, if◌then◌else◌, concat, ℕ, zero, suc, ◌*◌, ◌≡◌, refl, sym, ap, subst, ◌∙◌, Bool, true, false,
  ◌&&◌, List, [], ◌∷◌, ◌++◌, arith,
}
use wyoming_vietnamese.Tts.{audio_channels, audio_width, TtsEngine, Config}
use wyoming_vietnamese.Tts.Output.{round_quotient, zeros, silence_pcm}
use wyoming_vietnamese.Tts.Synthesis.{with_pauses, produced}
use mathlib.Core.List.{append_assoc, append-nil}

-- The pieces with a pause between each two.
abbrev pub joined : List ℕ → List (List ℕ) → List ℕ
joined pause [] = []
joined pause (piece ∷ []) = piece
joined pause (piece ∷ next ∷ pieces) = piece ++ (pause ++ joined pause (next ∷ pieces))

-- The pause between two pieces of an engine whose pieces are sentences.
abbrev pub pause_between : TtsEngine → Config → List ℕ
pause_between engine c =
    if engine.chunks_are_sentences then silence_pcm c.sentence_silence_ms engine.sample_rate else []

joined-with_pauses :
    (pause piece : List ℕ) (pieces : List (List ℕ))
    → piece ++ concat (with_pauses pause pieces) ≡ joined pause (piece ∷ pieces)
joined-with_pauses pause piece [] = append-nil piece
joined-with_pauses pause piece (next ∷ pieces) =
    ap (λ (u : List ℕ). piece ++ u) (append_assoc pause next (concat (with_pauses pause pieces)))
    ∙ ap (λ (u : List ℕ). piece ++ (pause ++ u)) (joined-with_pauses pause next pieces)

joined-concat :
    (piece : List ℕ) (pieces : List (List ℕ)) → piece ++ concat pieces ≡ joined [] (piece ∷ pieces)
joined-concat piece [] = append-nil piece
joined-concat piece (next ∷ pieces) = ap (λ (u : List ℕ). piece ++ u) (joined-concat next pieces)

ltb-suc : (n : ℕ) → ltb 0 (suc n) ≡ true
ltb-suc n = ground arith

times_zero : (n : ℕ) → n * 0 ≡ 0
times_zero n = omega arith

silence_pcm_zero : (sample_rate : ℕ) → silence_pcm 0 sample_rate ≡ []
silence_pcm_zero sample_rate =
    ap (λ (n : ℕ). zeros (round_quotient n 1000 * audio_width * audio_channels))
      (times_zero sample_rate)

pub concat-produced :
    (engine : TtsEngine) (c : Config) (pieces : List (List ℕ))
    → concat (produced engine c pieces) ≡ joined (pause_between engine c) pieces
unfolding produced
concat-produced engine c [] = refl
concat-produced engine c (piece ∷ pieces) = chosen engine.chunks_are_sentences c.sentence_silence_ms
  where
    chosen :
        (sentences : Bool) (milliseconds : ℕ)
        → piece
            ++ concat (
                if sentences && ltb 0 milliseconds
                then with_pauses (silence_pcm milliseconds engine.sample_rate) pieces
                else pieces)
          ≡ joined
              (if sentences then silence_pcm milliseconds engine.sample_rate else [])
              (piece ∷ pieces)
    chosen false milliseconds = joined-concat piece pieces
    chosen true zero =
        subst (λ (pause : List ℕ). piece ++ concat pieces ≡ joined pause (piece ∷ pieces))
          (sym (silence_pcm_zero engine.sample_rate)) (joined-concat piece pieces)
    chosen true (suc n) =
        rw (ltb-suc n) (joined-with_pauses (silence_pcm (suc n) engine.sample_rate) piece pieces)
